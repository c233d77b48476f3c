-- ===== src/Receiver/Handling.antt =====
-- receiver.go: the handling of the messages of a receiver.
use azure_event_hubs_go.Base.{ℕ, String, List, [], ◌∷◌}
use azure_event_hubs_go.Go.{Outcome, returned, panicked, ok, err, Method, Result}
use azure_event_hubs_go.Event.{Message, Event, event_from_msg, get_checkpoint}
use azure_event_hubs_go.Receiver.{Service, Receiver, store_last_received_offset}

module _ {B T K N L C W : Type 0} (service : Service K N L (Message B T) C W) (zero_time : T)
    (new_checkpoint : String → ℕ → T → C) (handler : Event B T → Method W (Result (Unit {0}))) where
  -- handleMessage; a panic of the handler is one of its caller, and an error of the persister is
  -- dropped.
  unfoldable pub handle_message :
      Message B T → Receiver K N L W → Outcome (Unit {0}) × Receiver K N L W
  unfolding event_from_msg get_checkpoint store_last_received_offset
  handle_message msg r = elim (event_from_msg msg) [
    | panicked ↦ (panicked, r)
    | returned event ↦
        let (result, w) = handler event r.world in
        elim result [
          | panicked ↦ (panicked, record r { world = w })
          | returned (err e) ↦ (returned tt, record r { world = service.modify msg w })
          | returned (ok u) ↦
              let accepted = record r { world = service.accept msg w } in
              elim (get_checkpoint zero_time new_checkpoint event) [
                | panicked ↦ (panicked, accepted)
                | returned c ↦ (returned tt, (store_last_received_offset service c accepted).1)
              ]
        ]
  ]

  -- handleMessages, over the messages that its channel gives until the context ends.
  unfoldable pub handle_messages :
      List (Message B T) → Receiver K N L W → Outcome (Unit {0}) × Receiver K N L W
  unfolding handle_message
  handle_messages [] r = (returned tt, r)
  handle_messages (m ∷ ms) r =
      let (o, r') = handle_message m r in
      elim o [ panicked ↦ (panicked, r') | returned u ↦ handle_messages ms r' ]
