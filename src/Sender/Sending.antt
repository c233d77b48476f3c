-- ===== src/Sender/Sending.antt =====
-- sender.go: Send of an event, from its options to trySend.
use azure_event_hubs_go.Base.{ℕ, Option, some, List}
use azure_event_hubs_go.Go.{Outcome, returned, Result, ok, err, Call, then_call}
use azure_event_hubs_go.Event.{Event, Message, to_msg}
use azure_event_hubs_go.Sender.{Service, Sender, prepare, try_send}

-- `new_message` is amqp.NewMessage. `inject` is the Inject of the global tracer, which may set
-- properties of the event.
module _ {B T K N L W : Type 0} (service : Service K N L (Message B T) W)
    (new_message : B → Message B T) (inject : Event B T → Call W (Event B T)) where
  -- For at most so many rounds of trySend, as there.
  unfoldable pub send :
      ℕ
      → List (Event B T → Result (Event B T))
      → Event B T
      → Sender K N L W
      → Option (Outcome (Result (Unit {0}))) × Sender K N L W
  unfolding prepare to_msg try_send
  send rounds options e s =
      let (prepared, w) = then_call (prepare service.new_uuid options e s.world) inject in
      elim prepared [
        | err x ↦ (some (returned (err x)), record s { world = w })
        | ok e' ↦ try_send service rounds (to_msg new_message e').0 (record s { world = w })
      ]
