-- ===== src/Management.antt =====
-- amqp_mgmt.go: the client of the management node. Packages amqp, rpc and mapstructure and the
-- token providers are services that act on the world; spans are left out. T is the type of
-- time.Time, V that of map[string]interface{}.
pub mod Asking
pub mod Http
pub mod Texts
use Prim.Native.String.{◌++◌}
use azure_event_hubs_go.Base.{ℕ, String, Option, none, some, List, [], ◌∷◌}
use azure_event_hubs_go.Go.{
  second, Error, errors_new, Result, ok, err, Call, then_call, ◌>>=◌, ◌>>◌, lift,
}
use azure_event_hubs_go.Dict.{Dict, insert}
use azure_event_hubs_go.Namespace.{Namespace, get_amqp_host_uri}

pub record HubRuntimeInformation (T : Type 0) : Type 0 where
  pub path : String
  pub created_at : T
  pub partition_count : ℕ
  pub partition_ids : List String

pub record HubPartitionRuntimeInformation (T : Type 0) : Type 0 where
  pub hub_path : String
  pub partition_id : String
  pub beginning_sequence_number : ℕ
  pub last_sequence_number : ℕ
  pub last_enqueued_offset : String
  pub last_enqueued_time_utc : T

-- rpc.NewLink, RetryableRPC of a link with its number of times and its delay, the Token of GetToken,
-- the assertion msg.Value.(map[string]interface{}), and mapstructure.Decode into the two records. A
-- message that is sent is given by its application properties; M is that of an answer. GetToken of
-- a nil provider panics, but the constructors of a namespace that are in use set one.
pub record Services (K R M V T P W : Type 0) : Type 0 where
  pub new_link : K → String → Call W R
  pub retryable_rpc : R → ℕ → ℕ → Dict String → Call W M
  pub get_token : Option P → String → Call W String
  pub as_map : M → Option V
  pub decode : V → Result (HubRuntimeInformation T)
  pub decode_partition : V → Result (HubPartitionRuntimeInformation T)

pub record Client (P : Type 0) : Type 0 where
  pub namespace : Namespace P
  pub hub_name : String

abbrev pub address : String
address = "$management"

abbrev pub security_token_key : String
security_token_key = "security_token"

abbrev pub hub_request : String → Dict String
hub_request name = ("operation", "READ") ∷ ("type", "com.microsoft:eventhub") ∷ ("name", name) ∷ []

abbrev pub partition_request : String → String → Dict String
partition_request name partition_id =
    ("operation", "READ")
    ∷ ("type", "com.microsoft:partition")
    ∷ ("name", name)
    ∷ ("partition", partition_id)
    ∷ []

-- The error of an answer that holds no map; what is printed there is the nil map that the failed
-- assertion gives.
abbrev pub not_a_map : Error
not_a_map = errors_new "values were not map[string]interface{}, it was: map[]"

unfoldable pub new_client : {P : Type 0} → Namespace P → String → Client P
new_client ns name = record { namespace = ns; hub_name = name }

module _ {K R M V T P W : Type 0} (services : Services K R M V T P W) where
  unfoldable pub get_token_audience : Client P → String
  unfolding get_amqp_host_uri
  get_token_audience c = get_amqp_host_uri c.namespace ++ c.hub_name

  unfoldable pub add_security_token : Client P → Dict String → Call W (Dict String)
  unfolding get_token_audience
  add_security_token c properties = do
    token ← services.get_token c.namespace.token_provider (get_token_audience c)
    lift (ok (insert security_token_key token properties))

  unfoldable pub new_hub_runtime_information : M → Result (HubRuntimeInformation T)
  new_hub_runtime_information m = elim (services.as_map m) [
    | none ↦ err not_a_map
    | some v ↦ services.decode v
  ]

  unfoldable pub new_hub_partition_runtime_information :
      M → Result (HubPartitionRuntimeInformation T)
  new_hub_partition_runtime_information m = elim (services.as_map m) [
    | none ↦ err not_a_map
    | some v ↦ services.decode_partition v
  ]

  unfoldable pub get_hub_runtime_information : Client P → K → Call W (HubRuntimeInformation T)
  unfolding add_security_token new_hub_runtime_information
  get_hub_runtime_information c connection = do
    link ← services.new_link connection address
    msg ← add_security_token c (hub_request c.hub_name)
    res ← services.retryable_rpc link 3 second msg
    lift (new_hub_runtime_information res)

  unfoldable pub get_hub_partition_runtime_information :
      Client P → K → String → Call W (HubPartitionRuntimeInformation T)
  unfolding add_security_token new_hub_partition_runtime_information
  get_hub_partition_runtime_information c connection partition_id = do
    link ← services.new_link connection address
    msg ← add_security_token c (partition_request c.hub_name partition_id)
    res ← services.retryable_rpc link 3 second msg
    lift (new_hub_partition_runtime_information res)
