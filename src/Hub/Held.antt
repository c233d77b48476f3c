-- ===== src/Hub/Held.antt =====
-- What Close and Receive of hub.go keep of a hub.

use azure_event_hubs_go.Base.{
  ℕ, String, ◌≡◌, refl, ◌∙◌, ap, inl, inr, Option, some, List, [], ◌∷◌, arith, ◌==◌, eq_iff,
  Option-cases, Bool-cases, subst,
}
use azure_event_hubs_go.Go.{ok, err, Call, Result-cases, Error}
use azure_event_hubs_go.Dict.{lookup, insert, lookup-insert}
use azure_event_hubs_go.Receiver.{Receiver}
use azure_event_hubs_go.Receiver
use azure_event_hubs_go.Hub.{Hub}
use azure_event_hubs_go.Receiver.Listening
use azure_event_hubs_go.Receiver.Linked.{new_session_and_link-opens}
use azure_event_hubs_go.Hub.Closing.{ended, close_receiver-same, lookup-close_receiver}
use azure_event_hubs_go.Hub.Kept.{IsHub, identifier-same, identifier-named, at_receivers}
use azure_event_hubs_go.Hub.Client.{
  Amqp, receiver_in, receiver_service, close_receiver, receive, close_all, receiver_alone,
}

module _ {K N L S M C P O W : Type 0} (amqp : Amqp K N L S M C P O W) (decimal : ℕ → String)
    (start_of_stream : String) where
  identifier-ended :
      (h : Hub K N L S P O W) (r : Receiver K N L (Unit {0}))
      → Receiver.get_identifier (receiver_service amqp h) decimal (receiver_in h.world (ended r))
        ≡ Receiver.get_identifier (receiver_service amqp h) decimal (receiver_in h.world r)
  unfolding Receiver.get_identifier Receiver.get_address
  identifier-ended h r = refl

  close_receiver-keeps :
      (key : String) (h : Hub K N L S P O W)
      → IsHub amqp decimal h
      → IsHub amqp decimal (close_receiver amqp key h).1
  close_receiver-keeps key h i =
      let h' = (close_receiver amqp key h).1 in
      let (name, sender, bound, _, _) = close_receiver-same amqp key h in
      record {
        short = rw bound i.short;
        keyed = λ other r e. elim (Bool-cases (key == other)) [
          | inr differs ↦
              let (is, has) =
                i.keyed other r (ground (arith, lookup-close_receiver amqp key other h)) in
              (identifier-same amqp decimal h h' r name ∙ is, has)
          | inl same ↦ elim (Option-cases (lookup other h.receivers)) [
            | inl missing ↦ absurd (ground (arith, lookup-close_receiver amqp key other h))
            | inr (old, held) ↦
                let (is, has) = i.keyed other old held in
                let changed : r ≡ ended old =
                  ground (arith, lookup-close_receiver amqp key other h) in
                (
                  identifier-same amqp decimal h h' r name
                      ∙ (ap
                            (λ x.
                              Receiver.get_identifier (receiver_service amqp h) decimal
                                (receiver_in h.world x))
                            changed
                          ∙ (identifier-ended h old ∙ is)),
                  (has.0, ap (λ x. x.connection) changed ∙ has.1),
                )
          ]
        ];
      }

  pub close_all-keeps :
      (last : Option Error) (rest : List String) (h : Hub K N L S P O W)
      → IsHub amqp decimal h
      → IsHub amqp decimal (close_all amqp last rest h).1
  unfolding close_all
  close_all-keeps last [] h i = i
  close_all-keeps last (k ∷ rest) h i =
      close_all-keeps (elim (close_receiver amqp k h).0 [ err e ↦ some e | ok u ↦ last ]) rest
        (close_receiver amqp k h).1 (close_receiver-keeps k h i)

  new_receiver-connected :
      (h : Hub K N L S P O W) (p : String) (options : List (Call (Receiver K N L W) (Unit {0})))
      (r : Receiver K N L W)
      → (Receiver.new_receiver (receiver_service amqp h) start_of_stream options p h.world).0 ≡ ok r
      → (k : K) × (r.connection ≡ some k)
  unfolding Receiver.new_receiver
  new_receiver-connected h p options r e =
      let service = receiver_service amqp h in
      let start = Receiver.apply_options service options (Receiver.receiver_of p h.world) in
      elim (Result-cases start.0) [
        | inr (x, f) ↦ absurd (ground arith)
        | inl (_, f) ↦
            let opened = Receiver.new_session_and_link service start_of_stream start.1 in
            elim (Result-cases opened.0) [
              | inr (x, g) ↦ absurd (ground arith)
              | inl (_, g) ↦
                  let (k, s, l, connected, in_session, linked, rest) =
                    new_session_and_link-opens service start_of_stream start.1 g in
                  (k, ground arith)
            ]
      ]

  identifier-listen :
      (h : Hub K N L S P O W) (r : Receiver K N L W)
      → Receiver.get_identifier
          (receiver_service amqp h)
          decimal
          (receiver_in h.world (receiver_alone (Listening.listen r)))
        ≡ Receiver.get_identifier (receiver_service amqp h) decimal r
  unfolding Receiver.get_identifier Receiver.get_address Listening.listen
  identifier-listen h r = refl

  new-connection :
      (r : Receiver K N L W) → (receiver_alone (Listening.listen r)).connection ≡ r.connection
  unfolding Listening.listen
  new-connection r = refl

  -- The receiver that Receive puts under its identifier.
  add-keeps :
      (key : String) (r : Receiver K N L W) (k : K) (h : Hub K N L S P O W)
      → Receiver.get_identifier (receiver_service amqp h) decimal r ≡ key
      → r.connection ≡ some k
      → IsHub amqp decimal h
      → IsHub amqp decimal
          (record h { receivers = insert key (receiver_alone (Listening.listen r)) h.receivers })
  add-keeps key r k h is has i =
      let new = receiver_alone (Listening.listen r) in
      let h' : Hub K N L S P O W = record h { receivers = insert key new h.receivers } in
      record {
        short = i.short;
        keyed = λ other r' e. elim (Bool-cases (key == other)) [
          | inr differs ↦
              let (at, connected) =
                i.keyed other r' (ground (arith, lookup-insert key other new h.receivers)) in
              (identifier-same amqp decimal h h' r' refl ∙ at, connected)
          | inl same ↦
              let changed : r' ≡ new = ground (arith, lookup-insert key other new h.receivers) in
              (
                identifier-same amqp decimal h h' r' refl
                    ∙ (ap
                          (λ x.
                            Receiver.get_identifier (receiver_service amqp h) decimal
                              (receiver_in h.world x))
                          changed
                        ∙ (identifier-listen h r ∙ (is ∙ ground (arith, eq_iff key other)))),
                (k, ap (λ x. x.connection) changed ∙ (new-connection r ∙ has)),
              )
        ];
      }

  pub receive-keeps :
      (p : String) (options : List (Call (Receiver K N L W) (Unit {0}))) (h : Hub K N L S P O W)
      → IsHub amqp decimal h
      → IsHub amqp decimal (receive amqp decimal start_of_stream p options h).1
  unfolding receive
  receive-keeps p options h i =
      let made =
        Receiver.new_receiver (receiver_service amqp h) start_of_stream options p h.world in
      let h0 : Hub K N L S P O W = record h { world = made.1 } in
      let i0 : IsHub amqp decimal h0 = at_receivers amqp decimal h h0 i refl refl i.short in
      elim (Result-cases made.0) [
        | inr (x, e) ↦ subst (IsHub amqp decimal) (ground arith) i0
        | inl (r, e) ↦
            let key = Receiver.get_identifier (receiver_service amqp h) decimal r in
            let h1 = (close_receiver amqp key h0).1 in
            let (k, has) = new_receiver-connected h p options r e in
            subst (IsHub amqp decimal) (ground arith) (
              add-keeps key r k h1
                (identifier-named amqp decimal h h1 r (close_receiver-same amqp key h0).0) has
                (close_receiver-keeps key h0 i0))
      ]
