-- ===== src/Hub.antt =====
-- hub.go: an Event Hub client, its options and the ways to make one. Packages amqp, cbs, sas, aad,
-- conn and persist are services that act on the world; the mutexes, spans and logs are left out.

pub mod Client
pub mod Closing
pub mod Delivery
pub mod Handles
pub mod Held
pub mod Information
pub mod Kept
pub mod Manager
pub mod Options
pub mod Reachable
pub mod Sending
pub mod Urls
use Prim.Native.String.{len, ◌++◌}
use azure_event_hubs_go.Base.{
  ℕ, String, Option, none, some, List, [], ◌∷◌, ltb, ◌==◌, if◌then◌else◌,
}
use azure_event_hubs_go.Go.{Error, errors_new, Result, ok, err, Call, then_call, ◌>>=◌, ◌>>◌, lift}
use azure_event_hubs_go.Go.Text.{join}
use azure_event_hubs_go.Dict.{Dict}
use azure_event_hubs_go.Receiver.{Receiver, LinkOptions, Session}
use azure_event_hubs_go.Sender.{Sender}
use azure_event_hubs_go.Namespace.{
  Namespace, ParsedConnection, Environment, environment_host, root_user_agent, new_namespace,
  namespace_with_azure_environment, namespace_with_connection_string,
}

-- maxUserAgentLen
abbrev pub max_user_agent_len : ℕ
max_user_agent_len = 128

-- O is the type of offset persisters. A receiver, and a sender, is kept without the world, which
-- all of them share.
pub record Hub (K N L S P O W : Type 0) : Type 0 where
  pub name : String
  pub namespace : Namespace P
  pub receivers : Dict (Receiver K N L (Unit {0}))
  pub sender : Option (Sender K N S (Unit {0}))
  pub sender_partition_id : Option String
  pub offset_persister : O
  pub user_agent : String
  pub world : W

-- What the code outside the repository does to make a hub: conn.ParsedConnectionFromStr,
-- sas.NewTokenProvider with a key and with the environment's variables, aad.NewJWTProvider,
-- os.Getenv, persist.NewMemoryPersister, the message of fmt.Errorf on two errors, and
-- azure.PublicCloud.
pub record Setting (P O W : Type 0) : Type 0 where
  pub parse : String → Result ParsedConnection
  pub with_key : String → String → Result P
  pub sas_environment : Call W P
  pub aad_environment : Call W P
  pub getenv : String → String
  pub memory_persister : W → O × W
  pub no_provider : Error → Error → Error
  pub public_cloud : Environment

-- The texts of the errors.
abbrev pub long_agent : Error
long_agent = errors_new "user agent string has surpassed the max length of 128"

abbrev pub empty_variable : String → Error
empty_variable v = errors_new ("environment var " ++ v ++ " must not be empty")

module _ {K N L S P O W : Type 0} where
  abbrev pub update_hub :
      (Hub K N L S P O W → Hub K N L S P O W) → Call (Hub K N L S P O W) (Unit {0})
  update_hub f h = (ok tt, f h)

  unfoldable pub append_agent : String → Call (Hub K N L S P O W) (Unit {0})
  unfolding join
  append_agent agent h =
      let ua = join h.user_agent agent in
      if ltb max_user_agent_len (len ua)
      then (err long_agent, h)
      else (ok tt, record h { user_agent = ua })

  unfoldable pub hub_with_partitioned_sender : String → Call (Hub K N L S P O W) (Unit {0})
  hub_with_partitioned_sender p = update_hub (λ h. record h { sender_partition_id = some p })

  unfoldable pub hub_with_offset_persistence : O → Call (Hub K N L S P O W) (Unit {0})
  hub_with_offset_persistence o = update_hub (λ h. record h { offset_persister = o })

  unfoldable pub hub_with_user_agent : String → Call (Hub K N L S P O W) (Unit {0})
  unfolding append_agent
  hub_with_user_agent agent = append_agent agent

  unfoldable pub hub_with_environment : Environment → Call (Hub K N L S P O W) (Unit {0})
  unfolding environment_host
  hub_with_environment env = update_hub (λ h.
      let ns = h.namespace in
      record h { namespace = record ns { host = environment_host ns.name env } })

  -- The loop over the options.
  unfoldable pub apply_options :
      List (Call (Hub K N L S P O W) (Unit {0})) → Call (Hub K N L S P O W) (Unit {0})
  apply_options [] = lift (ok tt)
  apply_options (o ∷ os) = o >> apply_options os

  -- What the constructors do with a namespace and the name of a hub.
  unfoldable pub hub_of : Setting P O W → Namespace P → String → W → Hub K N L S P O W
  hub_of setting ns name w =
      let (o, w') = setting.memory_persister w in
      record {
        name = name;
        namespace = ns;
        receivers = [];
        sender = none;
        sender_partition_id = none;
        offset_persister = o;
        user_agent = root_user_agent;
        world = w';
      }

  unfoldable pub configure :
      List (Call (Hub K N L S P O W) (Unit {0}))
      → Hub K N L S P O W
      → Result (Hub K N L S P O W) × W
  unfolding apply_options
  configure os h =
      let (r, h') = apply_options os h in
      elim r [ err e ↦ (err e, h'.world) | ok u ↦ (ok h', h'.world) ]

  unfoldable pub new_hub :
      Setting P O W
      → String
      → String
      → P
      → List (Call (Hub K N L S P O W) (Unit {0}))
      → Call W (Hub K N L S P O W)
  unfolding new_namespace namespace_with_azure_environment hub_of configure
  new_hub setting namespace name provider os w =
      elim (new_namespace
        (namespace_with_azure_environment namespace provider setting.public_cloud ∷ [])) [
          | err e ↦ (err e, w)
          | ok ns ↦ configure os (hub_of setting ns name w)
        ]

  unfoldable pub new_hub_from_connection_string :
      Setting P O W
      → String
      → List (Call (Hub K N L S P O W) (Unit {0}))
      → Call W (Hub K N L S P O W)
  unfolding new_namespace namespace_with_connection_string hub_of configure
  new_hub_from_connection_string setting s os w = elim (setting.parse s) [
    | err e ↦ (err e, w)
    | ok parsed ↦
        elim (new_namespace
          (namespace_with_connection_string setting.parse setting.with_key s ∷ [])) [
            | err e ↦ (err e, w)
            | ok ns ↦ configure os (hub_of setting ns parsed.hub_name w)
          ]
  ]

  unfoldable pub new_hub_with_namespace_name_and_environment :
      Setting P O W
      → String
      → String
      → List (Call (Hub K N L S P O W) (Unit {0}))
      → Call W (Hub K N L S P O W)
  unfolding new_hub
  new_hub_with_namespace_name_and_environment setting namespace name os w =
      let (sas, w1) = setting.sas_environment w in
      elim sas [
        | ok provider ↦ new_hub setting namespace name provider os w1
        | err sas_error ↦
            let (aad, w2) = setting.aad_environment w1 in
            elim aad [
              | ok provider ↦ new_hub setting namespace name provider os w2
              | err aad_error ↦ (err (setting.no_provider aad_error sas_error), w2)
            ]
      ]

  unfoldable pub new_hub_from_environment :
      Setting P O W → List (Call (Hub K N L S P O W) (Unit {0})) → Call W (Hub K N L S P O W)
  unfolding new_hub_with_namespace_name_and_environment
  new_hub_from_environment setting os w =
      let namespace = setting.getenv "EVENTHUB_NAMESPACE" in
      let name = setting.getenv "EVENTHUB_NAME" in
      if namespace == ""
      then (err (empty_variable "EVENTHUB_NAMESPACE"), w)
      else if name == ""
      then (err (empty_variable "EVENTHUB_NAME"), w)
      else new_hub_with_namespace_name_and_environment setting namespace name os w
