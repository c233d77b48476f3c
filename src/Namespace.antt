-- ===== src/Namespace.antt =====
-- namespace.go: a namespace, the options that configure it and its addresses. P is the type of
-- token providers; conn.ParsedConnectionFromStr, package sas and the calls of packages amqp and cbs
-- are parameters. Of azure.Environment the code reads ServiceBusEndpointSuffix.
pub mod Addresses
use Prim.Native.String.{◌++◌}
use azure_event_hubs_go.Base.{String, Option, none, some, List, [], ◌∷◌}
use azure_event_hubs_go.Go.{Result, ok, err, Call, then_call, lift, ◌>>=◌, ◌>>◌}
use azure_event_hubs_go.Go.Text.{replace_once}
use azure_event_hubs_go.Dict.{Dict}

pub record Namespace (P : Type 0) : Type 0 where
  pub name : String
  pub token_provider : Option P
  pub host : String

-- The fields of conn.ParsedConn that the code reads.
pub record ParsedConnection : Type 0 where
  pub namespace : String
  pub host : String
  pub hub_name : String
  pub key_name : String
  pub key : String

pub record Environment : Type 0 where
  pub service_bus_endpoint_suffix : String

-- The version and the user agent of hub.go
abbrev pub version : String
version = "0.4.0"

abbrev pub root_user_agent : String
root_user_agent = "/golang-event-hubs"

unfoldable pub environment_host : String → Environment → String
environment_host name env = "amqps://" ++ (name ++ "." ++ env.service_bus_endpoint_suffix)

module _ {P : Type 0} where
  abbrev pub update_namespace : (Namespace P → Namespace P) → Call (Namespace P) (Unit {0})
  update_namespace f ns = (ok tt, f ns)

  -- `parse` is conn.ParsedConnectionFromStr, and `with_key` is sas.NewTokenProvider with
  -- sas.TokenProviderWithKey.
  unfoldable pub namespace_with_connection_string :
      (String → Result ParsedConnection)
      → (String → String → Result P)
      → String
      → Call (Namespace P) (Unit {0})
  namespace_with_connection_string parse with_key s = do
    parsed ← lift (parse s)
    update_namespace (λ ns. record ns { name = parsed.namespace; host = parsed.host })
    provider ← lift (with_key parsed.key_name parsed.key)
    update_namespace (λ ns. record ns { token_provider = some provider })

  unfoldable pub namespace_with_azure_environment :
      String → P → Environment → Call (Namespace P) (Unit {0})
  unfolding environment_host
  namespace_with_azure_environment name provider env ns = (
    ok tt,
    record { name = name; token_provider = some provider; host = environment_host name env },
  )

  unfoldable pub apply_namespace_options :
      List (Call (Namespace P) (Unit {0})) → Call (Namespace P) (Unit {0})
  apply_namespace_options [] = lift (ok tt)
  apply_namespace_options (o ∷ os) = o >> apply_namespace_options os

  unfoldable pub new_namespace : List (Call (Namespace P) (Unit {0})) → Result (Namespace P)
  unfolding apply_namespace_options
  new_namespace os =
      let (r, ns) =
        apply_namespace_options os (record { name = ""; token_provider = none; host = "" }) in
      elim r [ err e ↦ err e | ok u ↦ ok ns ]

  unfoldable pub get_amqps_host_uri : Namespace P → String
  get_amqps_host_uri ns = ns.host ++ "/"

  unfoldable pub get_amqp_host_uri : Namespace P → String
  unfolding get_amqps_host_uri replace_once
  get_amqp_host_uri ns = replace_once (get_amqps_host_uri ns) "amqps" "amqp"

  unfoldable pub get_entity_audience : Namespace P → String → String
  unfolding get_amqps_host_uri
  get_entity_audience ns path = get_amqps_host_uri ns ++ path

  unfoldable pub get_https_host_uri : Namespace P → String
  unfolding get_amqps_host_uri replace_once
  get_https_host_uri ns = replace_once (get_amqps_host_uri ns) "amqps" "https"

  -- `dial` is amqp.Dial, by the host and the properties of the connection; `goos` and `runtime` are
  -- runtime.GOOS and runtime.Version().
  unfoldable pub new_connection :
      {K W : Type 0} → (String → Dict String → Call W K) → String → String → Namespace P → Call W K
  unfolding get_amqps_host_uri
  new_connection dial goos runtime ns = dial (get_amqps_host_uri ns) (
      ("product", "MSGolangClient")
      ∷ ("version", version)
      ∷ ("platform", goos)
      ∷ ("framework", runtime)
      ∷ ("user-agent", root_user_agent)
      ∷ [])

  -- `negotiate` is cbs.NegotiateClaim.
  unfoldable pub negotiate_claim :
      {K W : Type 0}
      → (String → K → Option P → Call W (Unit {0}))
      → Namespace P
      → K
      → String
      → Call W (Unit {0})
  unfolding get_entity_audience
  negotiate_claim negotiate ns k path = negotiate (get_entity_audience ns path) k ns.token_provider
