-- ===== src/Storage/Configuration.antt =====
-- storage/credential.go and storage/storage.go: how a credential and a LeaserCheckpointer are made.
-- E is azure.Environment, and S a service principal token; packages os, azure, aad, url and azblob
-- are parameters.
use Prim.Native.String.{◌++◌}
use azure_event_hubs_go.Base.{
  ℕ, ◌*◌, String, ◌≡◌, true, Option, none, some, List, [], ◌∷◌, ◌==◌, if◌then◌else◌, arith, false,
  inl, inr,
}
use azure_event_hubs_go.Go.{Result, ok, err, Call, ◌>>◌, lift, second, Result-cases}
use azure_event_hubs_go.Eph.Memory.Leaser.{Processor}
use azure_event_hubs_go.Storage.Leaser.{LeaserCheckpointer}

-- aad.TokenProviderConfiguration
pub record TokenProviderConfiguration (E : Type 0) : Type 0 where
  pub tenant_id : String
  pub client_id : String
  pub client_secret : String
  pub certificate_path : String
  pub certificate_password : String
  pub resource_uri : String
  pub env : Option E

-- os.Getenv, azure.PublicCloud with its ResourceManagerEndpoint, azure.EnvironmentFromName, and
-- NewServicePrincipalToken of a configuration.
pub record Setting (E S : Type 0) : Type 0 where
  pub getenv : String → String
  pub public_cloud : E
  pub public_endpoint : String
  pub environment_from_name : String → Result E
  pub new_service_principal_token : TokenProviderConfiguration E → Result S

-- The fields of an AADSASCredential that NewAADSASCredential sets.
pub record AadSasCredential (E S : Type 0) : Type 0 where
  pub aad_token_provider : S
  pub env : Option E
  pub subscription_id : String
  pub resource_group : String
  pub account_name : String
  pub container_name : String

module _ {E S : Type 0} (setting : Setting E S) where
  unfoldable pub azure_env_from_environment : Result E
  azure_env_from_environment =
      let env_name = setting.getenv "AZURE_ENVIRONMENT" in
      if env_name == "" then ok setting.public_cloud else setting.environment_from_name env_name

  -- The environment is looked up only where the configuration has none.
  unfoldable pub keep_env : Call (TokenProviderConfiguration E) (Unit {0})
  unfolding azure_env_from_environment
  keep_env config = elim config.env [
    | some e ↦ (ok tt, config)
    | none ↦ elim azure_env_from_environment [
      | err x ↦ (err x, config)
      | ok e ↦ (ok tt, record config { env = some e })
    ]
  ]

  unfoldable pub aad_sas_credential_with_environment_vars :
      Call (TokenProviderConfiguration E) (Unit {0})
  unfolding keep_env
  aad_sas_credential_with_environment_vars config = keep_env (record config {
    tenant_id = setting.getenv "AZURE_TENANT_ID";
    client_id = setting.getenv "AZURE_CLIENT_ID";
    client_secret = setting.getenv "AZURE_CLIENT_SECRET";
    certificate_path = setting.getenv "AZURE_CERTIFICATE_PATH";
    certificate_password = setting.getenv "AZURE_CERTIFICATE_PASSWORD";
  })

  -- The loop over the options.
  unfoldable pub apply_options :
      List (Call (TokenProviderConfiguration E) (Unit {0}))
      → Call (TokenProviderConfiguration E) (Unit {0})
  apply_options [] = lift (ok tt)
  apply_options (o ∷ os) = o >> apply_options os

  unfoldable pub new_aad_sas_credential :
      String
      → String
      → String
      → String
      → List (Call (TokenProviderConfiguration E) (Unit {0}))
      → Result (AadSasCredential E S)
  unfolding apply_options
  new_aad_sas_credential subscription group account container options =
      let (r, config) = apply_options options (record {
        tenant_id = "";
        client_id = "";
        client_secret = "";
        certificate_path = "";
        certificate_password = "";
        resource_uri = setting.public_endpoint;
        env = some setting.public_cloud;
      }) in
      elim r [
        | err e ↦ err e
        | ok u ↦ elim (setting.new_service_principal_token config) [
          | err e ↦ err e
          | ok s ↦ ok (record {
            aad_token_provider = s;
            env = config.env;
            subscription_id = subscription;
            resource_group = group;
            account_name = account;
            container_name = container;
          })
        ]
      ]

  -- A credential that is made with the variables of the process's environment is for the public
  -- cloud, whatever AZURE_ENVIRONMENT names.
  pub new_aad_sas_credential-public :
      (subscription group account container : String) (cred : AadSasCredential E S)
      → new_aad_sas_credential subscription group account container
          (aad_sas_credential_with_environment_vars ∷ [])
        ≡ ok cred
      → cred.env ≡ some setting.public_cloud
  unfolding new_aad_sas_credential apply_options aad_sas_credential_with_environment_vars keep_env
  new_aad_sas_credential-public subscription group account container cred e =
      let config : TokenProviderConfiguration E = record {
        tenant_id = setting.getenv "AZURE_TENANT_ID";
        client_id = setting.getenv "AZURE_CLIENT_ID";
        client_secret = setting.getenv "AZURE_CLIENT_SECRET";
        certificate_path = setting.getenv "AZURE_CERTIFICATE_PATH";
        certificate_password = setting.getenv "AZURE_CERTIFICATE_PASSWORD";
        resource_uri = setting.public_endpoint;
        env = some setting.public_cloud;
      } in
      elim (Result-cases (setting.new_service_principal_token config)) [
        | inl (s, f) ↦ ground arith
        | inr (x, f) ↦ absurd (ground arith)
      ]

-- eph.DefaultLeaseDuration
abbrev pub default_lease_duration : ℕ
default_lease_duration = 60 * second

-- `parse_url` is url.Parse; the service and the container are addressed by the blob service that the
-- methods take. The processor is what SetEventHostProcessor sets before any other method is called.
unfoldable pub new_storage_leaser_checkpointer :
    {C U W : Type 0}
    → (String → Result U)
    → String
    → String
    → String
    → Processor
    → W
    → Result (LeaserCheckpointer C W)
new_storage_leaser_checkpointer parse_url account container endpoint_suffix processor w =
    elim (parse_url ("https://" ++ (account ++ (".blob." ++ endpoint_suffix)))) [
      | err e ↦ err e
      | ok u ↦ ok (record {
        leases = [];
        processor = processor;
        lease_duration = default_lease_duration;
        container_name = container;
        dirty_partitions = [];
        persisting = false;
        world = w;
      })
    ]

unfoldable pub set_event_host_processor :
    {C W : Type 0} → Processor → LeaserCheckpointer C W → LeaserCheckpointer C W
set_event_host_processor p sl = record sl { processor = p; persisting = true }
