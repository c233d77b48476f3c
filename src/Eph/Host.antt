-- ===== src/Eph/Host.antt =====
-- eph/eph.go: the Event Processor Host. It acts through its leaser, its checkpointer, its scheduler
-- and the hub that it makes; the goroutine that Start and StartNonBlocking run is the scheduler's
-- Run. The mutexes, spans, logs and the banner are left out.
pub mod Composite
pub mod InMemory
pub mod New
pub mod Running
pub mod Scheduled
pub mod Setup
pub mod Stored
use azure_event_hubs_go.Base.{
  ℕ, String, Bool, true, false, Option, none, some, List, [], ◌∷◌, ◌++◌, map,
}
use azure_event_hubs_go.Go.{
  Outcome, returned, panicked, Error, errors_new, Result, ok, err, Call, then_call, ◌>>=◌, ◌>>◌,
  lift,
}
use azure_event_hubs_go.Dict.{Dict, insert, delete, keys}
use azure_event_hubs_go.Event.{Event}
use azure_event_hubs_go.Namespace.{Environment, ParsedConnection}
use azure_event_hubs_go.Hub.{
  Hub, Setting, new_hub, new_hub_from_connection_string, hub_with_offset_persistence,
  hub_with_environment,
}
use azure_event_hubs_go.Hub.Client.{Amqp}
use azure_event_hubs_go.Hub
use azure_event_hubs_go.Hub.Information.{get_runtime_information}
use azure_event_hubs_go.Management.{Services}

-- The methods of a Checkpointer that the host calls, with what UpdateCheckpoint and
-- EnsureCheckpoint take and give. A context that times out shows as an error of the call.
pub record Checkpointer (C W : Type 0) : Type 0 where
  pub set_event_host_processor : String → List String → W → W
  pub ensure_store : Call W (Unit {0})
  pub ensure_checkpoint : String → W → Outcome (Result C) × W
  pub update_checkpoint : String → C → Call W (Unit {0})
  pub close : W → W

-- The methods of a Leaser that the host calls; of the lease that EnsureLease gives it reads nothing,
-- and it drops its error.
pub record Leaser (W : Type 0) : Type 0 where
  pub set_event_host_processor : String → List String → W → W
  pub ensure_store : Call W (Unit {0})
  pub ensure_lease : String → W → Outcome (Unit {0}) × W
  pub close : W → W

-- A scheduler S of a host with the name: newScheduler, Stop, and the partitions of its receivers.
pub record Scheduling (S W : Type 0) : Type 0 where
  pub new_scheduler : String → S
  pub stop : S → W → Option Error × (S × W)
  pub get_partition_ids : S → List String

-- F is the type of handlers, Q that of schedulers, H that of clients. The client has the world that
-- the host has when it calls it.
pub record EventProcessorHost (F H P Q W : Type 0) : Type 0 where
  pub namespace : String
  pub hub_name : String
  pub name : String
  pub token_provider : P
  pub client : Option H
  pub scheduler : Option Q
  pub handlers : Dict F
  pub partition_ids : List String
  pub no_banner : Bool
  pub env : Option Environment
  -- whether the goroutine of the scheduler's Run has been started
  pub started : Bool
  pub world : W

-- WithNoBanner and WithEnvironment
module _ {F H P Q W : Type 0} where
  unfoldable pub with_no_banner : Call (EventProcessorHost F H P Q W) (Unit {0})
  with_no_banner h = (ok tt, record h { no_banner = true })

  unfoldable pub with_environment : Environment → Call (EventProcessorHost F H P Q W) (Unit {0})
  with_environment env h = (ok tt, record h { env = some env })

  -- The loop over the options.
  unfoldable pub apply_options :
      List (Call (EventProcessorHost F H P Q W) (Unit {0}))
      → Call (EventProcessorHost F H P Q W) (Unit {0})
  apply_options [] = lift (ok tt)
  apply_options (o ∷ os) = o >> apply_options os

  -- RegisteredHandlerIDs, in the order of the range.
  unfoldable pub registered_handler_ids : EventProcessorHost F H P Q W → List String
  registered_handler_ids h = keys h.handlers

  -- `new_uuid` gives the text of a new UUID.
  unfoldable pub register_handler : Call W String → F → Call (EventProcessorHost F H P Q W) String
  register_handler new_uuid f h =
      let (id, w) = new_uuid h.world in
      elim id [
        | err e ↦ (err e, record h { world = w })
        | ok i ↦ (ok i, record h { handlers = insert i f h.handlers; world = w })
      ]

  -- What the constructors make before their options.
  abbrev pub host_of : String → String → String → P → W → EventProcessorHost F H P Q W
  host_of namespace hub_name name provider w = record {
    namespace = namespace;
    hub_name = hub_name;
    name = name;
    token_provider = provider;
    client = none;
    scheduler = none;
    handlers = [];
    partition_ids = [];
    no_banner = false;
    env = none;
    started = false;
    world = w;
  }

-- The options of the hub of a host. The offset persister is made of the host's checkpointer.
unfoldable pub hub_options :
    {K N L S P O W : Type 0} → O → Option Environment → List (Call (Hub K N L S P O W) (Unit {0}))
unfolding hub_with_offset_persistence hub_with_environment
hub_options persister env =
    hub_with_offset_persistence persister
    ∷ (elim env [ none ↦ [] | some e ↦ hub_with_environment e ∷ [] ])

module _ {C W : Type 0} (checkpointer : Checkpointer C W) where
  -- Write and Read of checkpointPersister.
  unfoldable pub write : String → String → String → String → C → Call W (Unit {0})
  write namespace name consumer_group partition_id checkpoint =
      checkpointer.update_checkpoint partition_id checkpoint

  unfoldable pub read : String → String → String → String → W → Outcome (Result C) × W
  read namespace name consumer_group partition_id = checkpointer.ensure_checkpoint partition_id

-- GetName and GetPartitionIDs
unfoldable pub get_name : {F H P Q W : Type 0} → EventProcessorHost F H P Q W → String
get_name h = h.name

unfoldable pub get_partition_ids : {F H P Q W : Type 0} → EventProcessorHost F H P Q W → List String
get_partition_ids h = h.partition_ids
