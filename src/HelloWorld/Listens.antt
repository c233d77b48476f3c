-- ===== src/HelloWorld/Listens.antt =====
-- To which partitions consumer/main.go listens.
use Prim.Native.String.{◌++◌}
use text.Mathlib.TextLemmas.{append_cancel_left}
use azure_event_hubs_go.Base.{
  ℕ, String, ◌≡◌, ◌≢◌, refl, sym, ◌∙◌, ap, ◌⊎◌, inl, inr, some, true, List, [], ◌∷◌, All, arith,
  eq_iff,
}
use azure_event_hubs_go.Go.{Error, ok, err, Result-cases, Call}
use azure_event_hubs_go.Dict.{lookup, insert, lookup-insert}
use azure_event_hubs_go.Receiver.{
  Receiver, Service, receive_with_latest_offset, receive_from, receiver_of,
  store_last_received_offset,
}
use azure_event_hubs_go.Receiver
use azure_event_hubs_go.Receiver.Linked.{new_session_and_link-same}
use azure_event_hubs_go.Receiver.Listening.{listen}
use azure_event_hubs_go.Hub.{Hub}
use azure_event_hubs_go.Hub.Client.{Amqp, receive, receiver_service, receiver_alone, close_receiver}
use azure_event_hubs_go.Hub.Closing.{lookup-close_receiver, close_receiver-same}
use azure_event_hubs_go.HelloWorld.Consumer.{receive_latest, receive_all}

abbrev pub Distinct : List String → Type 0
Distinct [] = Unit
Distinct (p ∷ ps) = All (λ q. p ≢ q) ps × Distinct ps

-- The identifier of a receiver of the consumer on a partition.
abbrev pub identifier : String → String → String
identifier hub p = hub ++ "/ConsumerGroups/" ++ "$Default" ++ "/Partitions/" ++ p

identifier-differ : (hub p q : String) → p ≢ q → identifier hub p ≢ identifier hub q
identifier-differ hub p q h e = h (
    append_cancel_left "/Partitions/" p q (
      append_cancel_left "$Default" _ _
        (append_cancel_left "/ConsumerGroups/" _ _ (append_cancel_left hub _ _ e))))

module _ {K N L M C W : Type 0} (service : Service K N L M C W) (start_of_stream : String)
    (latest : C) where
  new_receiver-default :
      (decimal : ℕ → String) (p : String) (w : W) (r : Receiver K N L W)
      → (Receiver.new_receiver service start_of_stream
          (receive_with_latest_offset service latest ∷ [])
          p
          w).0
        ≡ ok r
      → (r.partition_id ≡ p)
        × (Receiver.get_identifier service decimal r ≡ identifier service.hub_name p)
  unfolding Receiver.new_receiver Receiver.apply_options receive_with_latest_offset receive_from
      store_last_received_offset Receiver.get_identifier Receiver.get_address
  new_receiver-default decimal p w r h =
      let start : Receiver K N L W =
        (store_last_received_offset service latest (receiver_of p w)).1 in
      elim (Result-cases (Receiver.new_session_and_link service start_of_stream start).0) [
        | inr (e, x) ↦ absurd (ground arith)
        | inl (_, x) ↦
            let (a, b, c, d) = new_session_and_link-same service start_of_stream start x in
            let same : (Receiver.new_session_and_link service start_of_stream start).1 ≡ r =
              ground arith in
            (ground arith, ground arith)
      ]

module _ {K N L S M C P O W : Type 0} (amqp : Amqp K N L S M C P O W) (decimal : ℕ → String)
    (start_of_stream : String) (latest : C) where
  -- The hub has a receiver of the partition, which listens.
  abbrev pub Listens : String → Hub K N L S P O W → Type 0
  Listens p h =
      (r : Receiver K N L (Unit {0})) × (lookup (identifier h.name p) h.receivers ≡ some r)
      × (r.partition_id ≡ p)
      × (r.listening ≡ some true)

  -- The call of Receive for the partition, on the hub as it is then, with the latest offset.
  abbrev pub attempt : String → Call (Hub K N L S P O W) String
  attempt p h =
      receive amqp decimal start_of_stream p
        (receive_with_latest_offset (receiver_service amqp h) latest ∷ []) h

  -- That call returns an error.
  abbrev pub Fails : String → Hub K N L S P O W → Type 0
  Fails p h = (e : Error) × ((attempt p h).0 ≡ err e)

  -- Of the calls for the partitions, one after the other from h on, each fails or its partition is
  -- listened to at the end.
  abbrev pub Attempts : List String → Hub K N L S P O W → Hub K N L S P O W → Type 0
  Attempts [] h end_ = Unit
  Attempts (p ∷ ps) h end_ = (Fails p h ⊎ Listens p end_) × Attempts ps (attempt p h).1 end_

  receive_latest-Listens :
      (p : String) (h : Hub K N L S P O W)
      → let h' = (receive_latest amqp decimal start_of_stream latest p h).1 in
        (h'.name ≡ h.name)
        × ((q : String)
            → p ≢ q
            → lookup (identifier h.name q) h'.receivers ≡ lookup (identifier h.name q) h.receivers)
        × (Fails p h ⊎ Listens p h')
  unfolding receive_latest receive listen receiver_service
  receive_latest-Listens p h =
      let service = receiver_service amqp h in
      let made =
        Receiver.new_receiver service start_of_stream
          (receive_with_latest_offset service latest ∷ []) p h.world in
      elim (Result-cases made.0) [
        | inr (x, e) ↦ (ground arith, λ q other. ground arith, inl (x, ground arith))
        | inl (r, e) ↦
            let (at, is) =
              new_receiver-default service start_of_stream latest decimal p h.world r e in
            let key = Receiver.get_identifier service decimal r in
            let h0 : Hub K N L S P O W = record h { world = made.1 } in
            let closed = (close_receiver amqp key h0).1 in
            let (name, _, _, _, _) = close_receiver-same amqp key h0 in
            let new = receiver_alone (listen r) in
            let h' : Hub K N L S P O W = record closed {
              receivers = insert key new closed.receivers;
            } in
            let same : (receive_latest amqp decimal start_of_stream latest p h).1 ≡ h' =
              ground arith in
            (
              ground arith,
              λ q other. ground (
                arith,
                identifier-differ h.name p q other,
                lookup-insert key (identifier h.name q) new closed.receivers,
                lookup-close_receiver amqp key (identifier h.name q) h0,
                eq_iff key (identifier h.name q),
              ),
              inr (
                new,
                ground (
                  arith,
                  lookup-insert key (identifier h.name p) new closed.receivers,
                  eq_iff key (identifier h.name p),
                ),
                at,
                refl,
              ),
            )
      ]

  receive_all-keeps :
      (ps : List String) (h : Hub K N L S P O W) (q : String)
      → All (λ p. q ≢ p) ps
      → let h' = receive_all amqp decimal start_of_stream latest ps h in
        (h'.name ≡ h.name)
        × (lookup (identifier h.name q) h'.receivers ≡ lookup (identifier h.name q) h.receivers)
  unfolding receive_all
  receive_all-keeps [] h q others = (refl, refl)
  receive_all-keeps (p ∷ ps) h q (other, others) =
      let (name, keeps, _) = receive_latest-Listens p h in
      let h1 = (receive_latest amqp decimal start_of_stream latest p h).1 in
      let (name', keeps') = receive_all-keeps ps h1 q others in
      (
        name' ∙ name,
        ap
              (λ n.
                lookup (identifier n q)
                  (receive_all amqp decimal start_of_stream latest ps h1).receivers)
              (sym name)
            ∙ keeps'
            ∙ ap (λ n. lookup (identifier n q) h1.receivers) name
            ∙ keeps q (λ e. other (sym e)),
      )

  -- Where the partitions are all different, the hub has, after the loop of the consumer, a
  -- listening receiver of each of them whose call of Receive in that loop has returned no error.
  pub receive_all-Listens :
      (ps : List String) (h : Hub K N L S P O W)
      → Distinct ps
      → Attempts ps h (receive_all amqp decimal start_of_stream latest ps h)
  unfolding receive_all receive_latest
  receive_all-Listens [] h d = tt
  receive_all-Listens (p ∷ ps) h (others, d) =
      let (name, _, now) = receive_latest-Listens p h in
      let h1 = (receive_latest amqp decimal start_of_stream latest p h).1 in
      let (name', keeps) = receive_all-keeps ps h1 p others in
      (
        elim now [
          | inl fails ↦ inl fails
          | inr (r, at, of, on) ↦ inr (
            r,
            ap
                  (λ n.
                    lookup (identifier n p)
                      (receive_all amqp decimal start_of_stream latest ps h1).receivers)
                  name'
                ∙ keeps
                ∙ at,
            of,
            on,
          )
        ],
        receive_all-Listens ps h1 d,
      )
