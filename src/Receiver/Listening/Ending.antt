-- ===== src/Receiver/Listening/Ending.antt =====
-- How the loop of listenForMessages ends.
use azure_event_hubs_go.Base.{
  ◌≡◌, refl, ℕ, String, Bool, true, false, Option, some, List, [], ◌∷◌, arith, inl, inr, Bool-cases,
  Option-cases, ◌⊎◌,
}
use azure_event_hubs_go.Go.{Error, ok, err, Result-cases}
use azure_event_hubs_go.Receiver.{Service, Receiver, close, recover, new_session_and_link, link_on}
use azure_event_hubs_go.Receiver.Listening.{
  Attempt, Retry, running, stopped, try_recover, after_error, listen_round, listen_for_messages,
  end_context,
}

-- One round in which nobody ends the context for each message, and one more.
abbrev pub rounds_for : {M : Type 0} → List M → List Bool
rounds_for [] = false ∷ []
rounds_for (m ∷ ms) = false ∷ rounds_for ms

module _ {K N L M C W : Type 0} (service : Service K N L M C W) (start_of_stream : String)
    (stolen : Error → Bool) (context_error : Error) (retry : Retry (Receiver K N L W)) where
  -- The link gives the messages of `coming` one by one, and is stolen after the last.
  pub record IsStream (coming : W → List M) : Type 0 where
    pub gives :
        (l : L) (w : W) (m : M) (ms : List M)
        → coming w ≡ m ∷ ms
        → ((service.receive l w).0 ≡ ok m) × (coming (service.receive l w).1 ≡ ms)
    pub ends :
        (l : L) (w : W)
        → coming w ≡ []
        → (e : Error) × ((service.receive l w).0 ≡ err e) × (stolen e ≡ true)

  -- On a link that gives some messages and is then stolen by a higher epoch, while nobody else ends
  -- the context, the loop puts exactly those messages into its channel, in order, and stops after
  -- one more round, with its context ended and its lastError as it was.
  pub listen_for_messages-delivers :
      (coming : W → List M) (ms : List M) (r : Receiver K N L W) (l : L)
      → IsStream coming
      → coming r.world ≡ ms
      → r.link ≡ some l
      → r.listening ≡ some true
      → let (out, (status, r')) =
          listen_for_messages service start_of_stream stolen context_error retry
            (rounds_for ms)
            r in
        (out ≡ ms)
        × (status ≡ stopped)
        × (r'.listening ≡ some false)
        × (r'.last_error ≡ r.last_error)
  unfolding listen_for_messages listen_round after_error close
  listen_for_messages-delivers coming [] r l s e has on =
      let (x, failed, by_epoch) = s.ends l r.world e in
      elim (Option-cases r.connection) [ inl c ↦ ground arith | inr (k, c) ↦ ground arith ]
  listen_for_messages-delivers coming (m ∷ ms) r l s e has on =
      let (given, left) = s.gives l r.world m ms e in
      let r' : Receiver K N L W = record r { world = (service.receive l r.world).1 } in
      let ih = listen_for_messages-delivers coming ms r' l s left has on in ground (arith, ih)

  -- common.Retry does nothing to its receiver but by calls of its function.
  pub record IsRetry : Type 1 where
    pub only_calls :
        (P : Receiver K N L W → Type 0) (f : Receiver K N L W → Attempt × Receiver K N L W)
        → ((r : Receiver K N L W) → P r → P (f r).1)
        → (n : ℕ) (r : Receiver K N L W) → P r
        → P (retry n f r).1

  recover-listening :
      (r : Receiver K N L W) → (recover service start_of_stream r).1.listening ≡ r.listening
  unfolding recover new_session_and_link link_on
  recover-listening r = ground arith

  try_recover-listening :
      (b : Option Bool) (r : Receiver K N L W)
      → r.listening ≡ b
      → (try_recover service start_of_stream stolen context_error retry r).1.listening ≡ b
  unfolding try_recover
  try_recover-listening b r h = ground (arith, recover-listening r)

  close-listening :
      (b : Bool) (r : Receiver K N L W)
      → r.listening ≡ some b
      → (close service r).1.listening ≡ some false
  unfolding close
  close-listening b r h = elim (Option-cases r.connection) [
    | inl c ↦ ground arith
    | inr (k, c) ↦ ground arith
  ]

  after_error-cases :
      (e : Error) (r : Receiver K N L W) (b : Bool)
      → IsRetry
      → r.listening ≡ some b
      → let (status, r') = after_error service start_of_stream stolen context_error retry e r in
        ((status ≡ running) × (r'.listening ≡ some true))
        ⊎ ((status ≡ stopped) × (r'.listening ≡ some false))
  unfolding after_error
  after_error-cases e r false k h = inr (ground arith)
  after_error-cases e r true k h =
      let f = try_recover service start_of_stream stolen context_error retry in
      let again : (retry 10 f r).1.listening ≡ some true =
        k.only_calls (λ s. s.listening ≡ some true) f (λ s p. try_recover-listening (some true) s p)
          10 r h in
      let r' = (retry 10 f r).1 in
      elim (Bool-cases (stolen e)) [
        | inl s ↦ inr (ground (arith, close-listening true r h))
        | inr s ↦ elim (Result-cases (retry 10 f r).0) [
          | inl (u, o) ↦ inl (ground arith)
          | inr (x, o) ↦
              inr (ground (arith, close-listening true (record r' { last_error = some x }) again))
        ]
      ]

  end_context-listening :
      (ends b : Bool) (r : Receiver K N L W)
      → r.listening ≡ some b
      → (b' : Bool) × ((end_context ends r).listening ≡ some b')
  end_context-listening true b r h = (false, refl)
  end_context-listening false b r h = (b, h)

  -- Whenever the loop of a receiver whose context exists has stopped, its context has ended.
  pub listen_for_messages-stopped :
      (rounds : List Bool) (r : Receiver K N L W) (b : Bool)
      → IsRetry
      → r.listening ≡ some b
      → (listen_for_messages service start_of_stream stolen context_error retry rounds r).1.0
        ≡ stopped
      → (listen_for_messages service start_of_stream stolen context_error retry rounds
          r).1.1.listening
        ≡ some false
  unfolding listen_for_messages listen_round
  listen_for_messages-stopped [] r b k h e = absurd (cc)
  listen_for_messages-stopped (x ∷ rounds) r b k h e = elim (Option-cases r.link) [
    | inl none_ ↦ absurd (ground arith)
    | inr (l, some_) ↦
        let w = (service.receive l r.world).1 in
        let r1 = end_context x (record r { world = w }) in
        let (b', on) = end_context-listening x b (record r { world = w }) h in
        elim (Result-cases (service.receive l r.world).0) [
          | inl (m, o) ↦
              let ih = listen_for_messages-stopped rounds r1 b' k on in ground (arith, ih)
          | inr (err_, o) ↦
              let r2 = (after_error service start_of_stream stolen context_error retry err_ r1).1 in
              elim (after_error-cases err_ r1 b' k on) [
                | inl (goes, on') ↦
                    let ih = listen_for_messages-stopped rounds r2 true k on' in ground (arith, ih)
                | inr (stops, off) ↦ ground arith
              ]
        ]
  ]
