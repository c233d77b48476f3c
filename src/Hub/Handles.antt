-- ===== src/Hub/Handles.antt =====
-- The identifiers and the closing of what hub.go hands out, of receiver.go and sender.go.
use azure_event_hubs_go.Base.{ℕ, String, none, some}
use azure_event_hubs_go.Go.{Result, ok, Call}
use azure_event_hubs_go.Namespace.{get_entity_audience}
use azure_event_hubs_go.Receiver.{Receiver}
use azure_event_hubs_go.Receiver
use azure_event_hubs_go.Sender.{Sender}
use azure_event_hubs_go.Sender
use azure_event_hubs_go.Hub.{Hub}
use azure_event_hubs_go.Hub.Client.{Amqp, receiver_service, sender_service, close_receiver}

module _ {K N L S M C P O W : Type 0} (amqp : Amqp K N L S M C P O W) where
  -- getFullIdentifier, of a receiver and of the sender.
  unfoldable pub receiver_full_identifier :
      (ℕ → String) → Receiver K N L W → Hub K N L S P O W → String
  unfolding receiver_service Receiver.get_identifier get_entity_audience
  receiver_full_identifier decimal r h =
      get_entity_audience h.namespace (Receiver.get_identifier (receiver_service amqp h) decimal r)

  unfoldable pub sender_full_identifier : Sender K N S W → Hub K N L S P O W → String
  unfolding sender_service Sender.get_address get_entity_audience
  sender_full_identifier s h =
      get_entity_audience h.namespace (Sender.get_address (sender_service amqp h) s.partition_id)

  -- Close of the handle that Receive returns, which is that of its receiver.
  unfoldable pub close_handle : String → Call (Hub K N L S P O W) (Unit {0})
  unfolding close_receiver
  close_handle key h = close_receiver amqp key h

  -- Close of the sender, which the hub does not call. A sender of newSender has a connection.
  unfoldable pub close_sender : Sender K N S W → W → Result (Unit {0}) × W
  close_sender s w = elim s.connection [ none ↦ (ok tt, w) | some k ↦ amqp.close_connection k w ]
