-- ===== src/Hub/Closing.antt =====
-- What Close of hub.go does to the receivers of a hub.
use azure_event_hubs_go.Base.{
  String, ◌≡◌, refl, ◌⊎◌, inl, inr, Option, none, some, List, [], ◌∷◌, Memᴰ, arith, false, ◌==◌,
  eq_iff, Option-cases, if◌then◌else◌, Bool-cases, ◌∙◌, ap,
}
use azure_event_hubs_go.Go.{Error, ok, err}
use azure_event_hubs_go.Dict.{lookup, insert, keys, lookup-insert, Dict}
use azure_event_hubs_go.Receiver.{Receiver}
use azure_event_hubs_go.Receiver
use azure_event_hubs_go.Hub.{Hub}
use azure_event_hubs_go.Hub.Client.{Amqp, receiver_service, close_receiver, close_all, close}

module _ {K N L : Type 0} where
  -- A receiver whose context, if it has one, has ended.
  abbrev pub IsEnded : Receiver K N L (Unit {0}) → Type 0
  IsEnded r = (r.listening ≡ none) ⊎ (r.listening ≡ some false)

  -- Another goroutine's view of a receiver on which Close has been called.
  abbrev pub ended : Receiver K N L (Unit {0}) → Receiver K N L (Unit {0})
  ended r = record r { listening = elim r.listening [ none ↦ none | some b ↦ some false ] }

  ended-IsEnded : (r : Receiver K N L (Unit {0})) → IsEnded (ended r)
  ended-IsEnded r = elim (Option-cases r.listening) [
    | inl e ↦ inl (rw e refl)
    | inr (b, e) ↦ inr (rw e refl)
  ]

  -- The same, for the receiver that a map has or does not have.
  abbrev pub ended_of : Option (Receiver K N L (Unit {0})) → Option (Receiver K N L (Unit {0}))
  ended_of none = none
  ended_of (some r) = some (ended r)

  ended_of-ended_of : (o : Option (Receiver K N L (Unit {0}))) → ended_of (ended_of o) ≡ ended_of o
  ended_of-ended_of none = refl
  ended_of-ended_of (some r) = elim (Option-cases r.listening) [
    | inl e ↦ ground arith
    | inr (b, e) ↦ ground arith
  ]

module _ {K N L S M C P O W : Type 0} (amqp : Amqp K N L S M C P O W) where
  pub close_receiver-held :
      (key : String) (h : Hub K N L S P O W) (r : Receiver K N L (Unit {0}))
      → lookup key h.receivers ≡ some r
      → (close_receiver amqp key h).1.receivers ≡ insert key (ended r) h.receivers
  unfolding close_receiver Receiver.close Receiver.close_connection receiver_service
  close_receiver-held key h r e = elim (Option-cases r.connection) [
    | inl c ↦ ground arith
    | inr (k, c) ↦ ground arith
  ]

  pub close_receiver-missing :
      (key : String) (h : Hub K N L S P O W)
      → lookup key h.receivers ≡ none
      → (close_receiver amqp key h).1 ≡ h
  unfolding close_receiver
  close_receiver-missing key h e = ground arith

  pub lookup-close_receiver :
      (key other : String) (h : Hub K N L S P O W)
      → lookup other (close_receiver amqp key h).1.receivers
        ≡ (if key == other then ended_of (lookup other h.receivers) else lookup other h.receivers)
  lookup-close_receiver key other h = elim (Option-cases (lookup key h.receivers)) [
    | inl e ↦ ground (arith, close_receiver-missing key h e, eq_iff key other)
    | inr (r, e) ↦ ground (
      arith,
      close_receiver-held key h r e,
      lookup-insert key other (ended r) h.receivers,
      eq_iff key other,
    )
  ]

  -- The last error after one more receiver is closed.
  abbrev last_error : String → Hub K N L S P O W → Option Error → Option Error
  last_error key h last = elim (close_receiver amqp key h).0 [ err e ↦ some e | ok u ↦ last ]

  close_all-keeps_ended :
      (last : Option Error) (key : String) (rest : List String) (h : Hub K N L S P O W)
      (o : Option (Receiver K N L (Unit {0})))
      → lookup key h.receivers ≡ ended_of o
      → lookup key (close_all amqp last rest h).1.receivers ≡ ended_of o
  unfolding close_all
  close_all-keeps_ended last key [] h o e = e
  close_all-keeps_ended last key (k ∷ rest) h o e =
      close_all-keeps_ended (last_error k h last) key rest (close_receiver amqp k h).1 o
        (ground (arith, lookup-close_receiver k key h, ended_of-ended_of o))

  lookup-close_all :
      (last : Option Error) (key : String) (rest : List String) (h : Hub K N L S P O W)
      → Memᴰ key rest
      → lookup key (close_all amqp last rest h).1.receivers ≡ ended_of (lookup key h.receivers)
  unfolding close_all
  lookup-close_all last key [] h i = elim i [ ]
  lookup-close_all last key (k ∷ rest) h (Memᴰ.head e) =
      close_all-keeps_ended (last_error k h last) key rest (close_receiver amqp k h).1
        (lookup key h.receivers) (ground (arith, lookup-close_receiver k key h, eq_iff k key))
  lookup-close_all last key (k ∷ rest) h (Memᴰ.tail i) = elim (Bool-cases (k == key)) [
    | inl same ↦
        close_all-keeps_ended (last_error k h last) key rest (close_receiver amqp k h).1
          (lookup key h.receivers) (ground (arith, lookup-close_receiver k key h))
    | inr other ↦ ground (
      arith,
      lookup-close_all (last_error k h last) key rest (close_receiver amqp k h).1 i,
      lookup-close_receiver k key h,
    )
  ]

  -- Close of receivers touches nothing else of the hub.
  pub close_receiver-same :
      (key : String) (h : Hub K N L S P O W)
      → let h' = (close_receiver amqp key h).1 in
        (h'.name ≡ h.name)
        × (h'.sender ≡ h.sender)
        × (h'.user_agent ≡ h.user_agent)
        × (h'.namespace ≡ h.namespace)
        × (h'.offset_persister ≡ h.offset_persister)
  unfolding close_receiver
  close_receiver-same key h = elim (Option-cases (lookup key h.receivers)) [
    | inl e ↦ ground (arith, close_receiver-missing key h e)
    | inr (r, e) ↦ (ground arith, ground arith, ground arith, ground arith, ground arith)
  ]

  pub close_all-same :
      (last : Option Error) (rest : List String) (h : Hub K N L S P O W)
      → let h' = (close_all amqp last rest h).1 in
        (h'.name ≡ h.name)
        × (h'.sender ≡ h.sender)
        × (h'.user_agent ≡ h.user_agent)
        × (h'.namespace ≡ h.namespace)
        × (h'.offset_persister ≡ h.offset_persister)
  unfolding close_all
  close_all-same last [] h = (refl, refl, refl, refl, refl)
  close_all-same last (k ∷ rest) h =
      let (a, b, c, d, e) = close_receiver-same k h in
      let (a', b', c', d', e') =
        close_all-same (last_error k h last) rest (close_receiver amqp k h).1 in
      (a' ∙ a, b' ∙ b, c' ∙ c, d' ∙ d, e' ∙ e)

  key-mem :
      (key : String) (r : Receiver K N L (Unit {0})) (m : Dict (Receiver K N L (Unit {0})))
      → lookup key m ≡ some r
      → Memᴰ key (keys m)
  unfolding lookup
  key-mem key r [] e = absurd (cc)
  key-mem key r ((k, v) ∷ m) e = elim (Bool-cases (k == key)) [
    | inl same ↦ Memᴰ.head (ground (arith, eq_iff k key))
    | inr other ↦ Memᴰ.tail (key-mem key r m (ground arith))
  ]

  abbrev pub connection_of : String → Dict (Receiver K N L (Unit {0})) → Option K
  connection_of key m = elim (lookup key m) [ none ↦ none | some r ↦ r.connection ]

  abbrev pub closed : Option K → W → W
  closed o w = elim o [ none ↦ w | some k ↦ (amqp.close_connection k w).1 ]

  -- The world after the connections of the receivers under the keys have been closed, in the order
  -- of the keys, and nothing else has been done.
  abbrev pub closings : List String → Dict (Receiver K N L (Unit {0})) → W → W
  closings [] m w = w
  closings (key ∷ rest) m w = closings rest m (closed (connection_of key m) w)

  closings-same :
      (rest : List String) (m m' : Dict (Receiver K N L (Unit {0}))) (w : W)
      → ((key : String) → connection_of key m ≡ connection_of key m')
      → closings rest m w ≡ closings rest m' w
  closings-same [] m m' w same = refl
  closings-same (key ∷ rest) m m' w same =
      ap (λ o. closings rest m (closed o w)) (same key)
      ∙ closings-same rest m m' (closed (connection_of key m') w) same

  close_receiver-world :
      (key : String) (h : Hub K N L S P O W)
      → (close_receiver amqp key h).1.world ≡ closings (key ∷ []) h.receivers h.world
  unfolding close_receiver Receiver.close Receiver.close_connection receiver_service
  close_receiver-world key h = elim (Option-cases (lookup key h.receivers)) [
    | inl e ↦ ground arith
    | inr (r, e) ↦ elim (Option-cases r.connection) [
      | inl c ↦ ground arith
      | inr (k, c) ↦ ground arith
    ]
  ]

  close_receiver-connection :
      (key other : String) (h : Hub K N L S P O W)
      → connection_of other (close_receiver amqp key h).1.receivers
        ≡ connection_of other h.receivers
  close_receiver-connection key other h = elim (Option-cases (lookup other h.receivers)) [
    | inl e ↦ ground (arith, lookup-close_receiver key other h)
    | inr (r, e) ↦ ground (arith, lookup-close_receiver key other h)
  ]

  close_all-world :
      (last : Option Error) (rest : List String) (h : Hub K N L S P O W)
      → (close_all amqp last rest h).1.world ≡ closings rest h.receivers h.world
  unfolding close_all
  close_all-world last [] h = refl
  close_all-world last (k ∷ rest) h =
      let h' = (close_receiver amqp k h).1 in
      close_all-world (last_error k h last) rest h'
      ∙ closings-same rest h'.receivers h.receivers h'.world
          (λ key. close_receiver-connection k key h)
      ∙ ap (closings rest h.receivers) (close_receiver-world k h)

  -- Close ends the context of every receiver of the hub, also where closing some of their
  -- connections fails, and in whichever order Go ranges over them, as long as it visits every key;
  -- it leaves their other fields and the keys as they are. Outside it closes the connections of the
  -- receivers, in that order, and does nothing else: neither the fields nor the connection of the
  -- sender are touched.
  pub close-ends :
      (range : List String → List String) (h : Hub K N L S P O W)
      → ((key : String) (ks : List String) → Memᴰ key ks → Memᴰ key (range ks))
      → ((key : String)
          → lookup key (close amqp range h).1.receivers ≡ ended_of (lookup key h.receivers))
        × ((close amqp range h).1.sender ≡ h.sender)
        × ((close amqp range h).1.world ≡ closings (range (keys h.receivers)) h.receivers h.world)
  unfolding close
  close-ends range h all = (
    λ key. elim (Option-cases (lookup key h.receivers)) [
      | inl e ↦ ground (arith, close_all-keeps_ended none key (range (keys h.receivers)) h none e)
      | inr (r, e) ↦
          lookup-close_all none key (range (keys h.receivers)) h
            (all key (keys h.receivers) (key-mem key r h.receivers e))
    ],
    (close_all-same none (range (keys h.receivers)) h).1,
    close_all-world none (range (keys h.receivers)) h,
  )
