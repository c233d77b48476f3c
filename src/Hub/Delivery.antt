-- ===== src/Hub/Delivery.antt =====
-- That Send of hub.go gets an event through when the failures of the service end.
use azure_event_hubs_go.Base.{ℕ, suc, ◌≡◌, ◌∙◌, some, [], arith, inl, inr, ◌==◌, Bool-cases}
use azure_event_hubs_go.Go.{returned, ok, Call, then_call}
use azure_event_hubs_go.Event.{Event, Message, to_msg}
use azure_event_hubs_go.Sender.{Service, Sender, prepare}
use azure_event_hubs_go.Sender.Delivery.{HasFailures, IsReady, try_send-delivers}
use azure_event_hubs_go.Sender.Sending
use azure_event_hubs_go.Hub.{Hub}
use azure_event_hubs_go.Hub.Client.{Amqp, get_sender, sender_service}
use azure_event_hubs_go.Hub.Sending.{send, send_by}

module _ {B T K N L W : Type 0} (service : Service K N L (Message B T) W)
    (new_message : B → Message B T) (inject : Event B T → Call W (Event B T)) (left : W → ℕ) where
  -- Inject of the tracer succeeds, and has nothing to do with the failures that are to come.
  abbrev pub IsInjecting : Type 0
  IsInjecting =
      (e : Event B T) (w : W)
      → (e' : Event B T) × (w' : W) × (inject e w ≡ (ok e', w')) × (left w' ≡ left w)

  prepare-ready :
      (e : Event B T) (w : W)
      → HasFailures service left
      → IsInjecting
      → (e' : Event B T) × (w' : W) × (then_call (prepare service.new_uuid [] e w) inject
          ≡ (ok e', w'))
        × (left w' ≡ left w)
  unfolding prepare
  prepare-ready e w f i = elim (Bool-cases (e.id == "")) [
    | inr named ↦ let (e', w', o, same) = i e w in (e', w', ground (arith, o), same)
    | inl unnamed ↦
        let (id, w1, drawn, same) = f.draws w in
        let (e', w', o, same') = i (record e { id = id }) w1 in
        (e', w', ground (arith, o, drawn), same' ∙ same)
  ]

  pub send_lem :
      (n : ℕ) (e : Event B T) (s : Sender K N L W)
      → HasFailures service left
      → IsInjecting
      → IsReady service left n s
      → (Sending.send service new_message inject (suc n) [] e s).0 ≡ some (returned (ok tt))
  unfolding Sending.send
  send_lem n e s f i ready =
      let (e', w', o, same) = prepare-ready e s.world f i in
      let s' : Sender K N L W = record s { world = w' } in
      let sent = try_send-delivers service left n (to_msg new_message e').0 s' f (record {
        counted = same ∙ ready.counted;
        linked = ready.linked;
        in_session = ready.in_session;
        connected = ready.connected;
      }) in
      ground (arith, o, sent)

module _ {B T K N L S C P O W : Type 0} (amqp : Amqp K N L S (Message B T) C P O W)
    (new_message : B → Message B T) (inject : Event B T → Call W (Event B T)) (left : W → ℕ) where
  -- If a hub has a sender or can make one, with its link, session and connection, the next n sends
  -- fail with errors of package amqp and the one after them does not, no other call changes this,
  -- the context goes on, uuid.NewV4 and the tracer return no errors, then Send of an event without
  -- options succeeds in at most n + 1 rounds of trySend.
  pub send-delivers :
      (n : ℕ) (e : Event B T) (h h' : Hub K N L S P O W) (s : Sender K N S W)
      → get_sender amqp h ≡ (ok s, h')
      → HasFailures (sender_service amqp h') left
      → IsInjecting (sender_service amqp h') new_message inject left
      → IsReady (sender_service amqp h') left n s
      → (send amqp new_message inject (suc n) [] e h).0 ≡ some (returned (ok tt))
  unfolding send send_by
  send-delivers n e h h' s got f i ready =
      ground (arith, got, send_lem (sender_service amqp h') new_message inject left n e s f i ready)
