-- ===== src/Hub/Sending.antt =====
-- hub.go: Send and SendBatch.
use azure_event_hubs_go.Base.{ℕ, Option, some, List}
use azure_event_hubs_go.Go.{Outcome, returned, panicked, Result, ok, err, Call}
use azure_event_hubs_go.Event.{Event, EventBatch, Message, to_event}
use azure_event_hubs_go.Sender.{Sender}
use azure_event_hubs_go.Sender.Sending
use azure_event_hubs_go.Hub.{Hub}
use azure_event_hubs_go.Hub.Client.{Amqp, get_sender, sender_service, sender_alone}

module _ {B T K N L S C P O W : Type 0} (amqp : Amqp K N L S (Message B T) C P O W)
    (new_message : B → Message B T) (inject : Event B T → Call W (Event B T)) where
  -- Send of the sender that get_sender has returned; the hub keeps a pointer to it.
  unfoldable pub send_by :
      ℕ
      → List (Event B T → Result (Event B T))
      → Event B T
      → Sender K N S W
      → Hub K N L S P O W
      → Option (Outcome (Result (Unit {0}))) × Hub K N L S P O W
  unfolding sender_service Sending.send
  send_by rounds options e s h =
      let (answer, s') =
        Sending.send (sender_service amqp h) new_message inject rounds options e s in
      (answer, record h { sender = some (sender_alone s'); world = s'.world })

  unfoldable pub send :
      ℕ
      → List (Event B T → Result (Event B T))
      → Event B T
      → Hub K N L S P O W
      → Option (Outcome (Result (Unit {0}))) × Hub K N L S P O W
  unfolding get_sender send_by
  send rounds options e h =
      let (got, h') = get_sender amqp h in
      elim got [ err x ↦ (some (returned (err x)), h') | ok s ↦ send_by rounds options e s h' ]

  -- `marshal` is MarshalBinary of a message.
  unfoldable pub send_batch :
      (Message B T → Result B)
      → ℕ
      → List (Event B T → Result (Event B T))
      → EventBatch B T
      → Hub K N L S P O W
      → Option (Outcome (Result (Unit {0}))) × Hub K N L S P O W
  unfolding get_sender to_event send_by
  send_batch marshal rounds options batch h =
      let (got, h') = get_sender amqp h in
      elim got [
        | err x ↦ (some (returned (err x)), h')
        | ok s ↦ elim (to_event new_message marshal batch) [
          | panicked ↦ (some panicked, h')
          | returned made ↦ elim made [
            | err x ↦ (some (returned (err x)), h')
            | ok e ↦ send_by rounds options e s h'
          ]
        ]
      ]
