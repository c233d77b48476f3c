-- ===== src/Batching/Main.antt =====
-- _examples/batchprocessing/main.go: where the program finds its partition and its consumer group,
-- and how it gives the batchWriter to a receiver, as its handler and as its offset persister.
use Prim.Native.Char.{code}
use azure_event_hubs_go.Base.{
  String, Option, none, some, List, [], ◌∷◌, num_eq, if◌then◌else◌, ◌==◌, ℕ,
}
use azure_event_hubs_go.Go.{Error, ok, err, Call, errors_new, Method}
use azure_event_hubs_go.Go.Text.{prepend}
use azure_event_hubs_go.Event.{Message, Event}
use azure_event_hubs_go.Receiver.{Service, receive_with_consumer_group, receive_with_prefetch_count}
use azure_event_hubs_go.Batching.{BatchWriter, Output, handle_event, new_batch_writer, Result}
use azure_event_hubs_go.Hub.{Hub, Setting, new_hub_from_environment, hub_with_offset_persistence}
use azure_event_hubs_go.Hub.Client.{Amqp, receive, receiver_service}
use azure_event_hubs_go.Batching

-- strings.SplitN(s, "-", 2)
unfoldable pub split_once : String → List String
split_once String.[] = "" ∷ []
split_once (String.◌∷◌ c s) =
    let rest = split_once s in if num_eq (code c) b'-' then "" ∷ s ∷ [] else prepend c rest

-- The partition; `none` where the program prints that the variable must be set, and exits.
unfoldable pub partition_id : (String → String) → Option String
unfolding split_once
partition_id getenv =
    let id = getenv "EVENTHUB_PARTITIONID" in
    if id == ""
    then elim (split_once (getenv "HOSTNAME")) [
      | [] ↦ none
      | a ∷ [] ↦ none
      | a ∷ b ∷ [] ↦ some b
      | a ∷ b ∷ c ∷ ps ↦ none
    ]
    else some id

unfoldable pub consumer_group : (String → String) → String
consumer_group getenv =
    let group = getenv "EVENTHUB_CONSUMERGROUP" in if group == "" then "$Default" else group

-- How the program ends, or that it receives and waits for a signal.
pub data Ended (H : Type 0) : Type 0 where
  exited : Error → Ended H
  waiting : H → Ended H

abbrev pub no_partition : Error
no_partition = errors_new "EVENTHUB_PARTITIONID environment variable must be set"

abbrev pub prefetch_count : ℕ
prefetch_count = 20000

-- F is the type of file persisters. The batchWriter is the world that the hub acts on, and
-- `output` is the name it has as an offset persister.
module _ {K N L S M C P O F W : Type 0} (setting : Setting P O (BatchWriter C W))
    (amqp : Amqp K N L S M C P O (BatchWriter C W)) (decimal : ℕ → String)
    (start_of_stream : String) (new_file_persister : String → Call W F) (output : F → O) where
  -- From the call of Receive on.
  unfoldable pub main_receive :
      String → Hub K N L S P O (BatchWriter C W) → Ended (Hub K N L S P O (BatchWriter C W))
  unfolding consumer_group receive receive_with_consumer_group receive_with_prefetch_count
  main_receive p h =
      let service = receiver_service amqp h in
      let group = receive_with_consumer_group service (consumer_group setting.getenv) in
      let prefetch = receive_with_prefetch_count service prefetch_count in
      let (received, h') = receive amqp decimal start_of_stream p (group ∷ prefetch ∷ []) h in
      elim received [ err e ↦ exited e | ok handle ↦ waiting h' ]

  unfoldable pub main : W → Ended (Hub K N L S P O (BatchWriter C W))
  unfolding main_receive partition_id new_hub_from_environment hub_with_offset_persistence
      new_batch_writer
  main w =
      let (persister, w') =
        new_file_persister (setting.getenv "EVENTHUB_FILEPERSIST_DIRECTORY") w in
      elim persister [
        | err e ↦ exited e
        | ok fp ↦
            let (hub, w'') =
              new_hub_from_environment setting (hub_with_offset_persistence (output fp) ∷ [])
                (new_batch_writer w') in
            elim hub [
              | err e ↦ exited e
              | ok h ↦ elim (partition_id setting.getenv) [
                | none ↦ exited no_partition
                | some p ↦ main_receive p h
              ]
            ]
      ]

-- A call of the world below.
abbrev below : {A C W : Type 0} → Call W A → Call (BatchWriter C W) A
below m w = let (r, v) = m w.world in (r, record w { world = v })

module _ {B T K N L C W : Type 0} (output : Output C W) where
  -- The service of a receiver whose offset persister is the batchWriter.
  abbrev pub batching_service :
      Service K N L (Message B T) C W → Service K N L (Message B T) C (BatchWriter C W)
  batching_service service = record {
    hub_name = service.hub_name;
    namespace_name = service.namespace_name;
    offset = service.offset;
    new_connection = below service.new_connection;
    negotiate_claim = λ k a. below (service.negotiate_claim k a);
    new_session = λ k. below (service.new_session k);
    new_uuid = below service.new_uuid;
    new_receiver = λ n o. below (service.new_receiver n o);
    close_connection = λ k. below (service.close_connection k);
    receive = λ l. below (service.receive l);
    accept = λ m w. record w { world = service.accept m w.world };
    modify = λ m w. record w { world = service.modify m w.world };
    read = Batching.read output;
    write = Batching.write output;
  }

module _ {B T C W : Type 0} (output : Output C W) (text : B → String) where
  -- output.HandleEvent, where `text` is string(event.Data).
  abbrev pub batching_handler : Event B T → Method (BatchWriter C W) (Result (Unit {0}))
  batching_handler event w = handle_event output (text event.payload) w
