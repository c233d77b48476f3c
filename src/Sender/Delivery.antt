-- ===== src/Sender/Delivery.antt =====
-- That trySend gets a message through when the failures of the service end.
use azure_event_hubs_go.Base.{
  ℕ, zero, suc, ◌≡◌, ◌∙◌, String, true, none, some, arith, refl, inl, inr, subst, sym,
}
use azure_event_hubs_go.Go.{returned, Error, Result, ok, err, Call, then_call, Result-cases}
use azure_event_hubs_go.Receiver.{Session}
use azure_event_hubs_go.Sender.{
  get_address, Service, Sender, new_session_and_link, recover, after_failure, try_send, on_world,
  open_session, make_link, keep_link,
}

module _ {K N L M W : Type 0} (service : Service K N L M W) (left : W → ℕ) where
  -- `left` counts the failures of package amqp that are to come: a send fails in that way until
  -- there are none, and nothing else uses them up. The context goes on, and new UUIDs are there.
  pub record HasFailures : Type 0 where
    pub alive : (w : W) → service.context_done w ≡ none
    pub sends : (l : L) (m : M) (w : W) → left w ≡ 0 → (service.send l m w).0 ≡ ok tt
    pub fails :
        (l : L) (m : M) (w : W) (n : ℕ)
        → left w ≡ suc n
        → (e : Error) × ((service.send l m w).0 ≡ err e)
          × (service.is_amqp e ≡ true)
          × (left (service.send l m w).1 ≡ n)
    pub connects : (w : W) → left (service.new_connection w).1 ≡ left w
    pub claims : (k : K) (a : String) (w : W) → left (service.negotiate_claim k a w).1 ≡ left w
    pub makes_session : (k : K) (w : W) → left (service.new_session k w).1 ≡ left w
    pub makes_sender : (n : N) (a : String) (w : W) → left (service.new_sender n a w).1 ≡ left w
    pub draws :
        (w : W) → (id : String) × (w' : W) × (service.new_uuid w ≡ (ok id, w')) × (left w' ≡ left w)
    pub closes_link : (l : L) (w : W) → left (service.close_link l w) ≡ left w
    pub closes_session : (n : N) (w : W) → left (service.close_session n w) ≡ left w
    pub closes_connection : (k : K) (w : W) → left (service.close_connection k w) ≡ left w
    pub delays : (w : W) → left (service.delay w) ≡ left w
    pub resets : (w : W) → left (service.reset w) ≡ left w

  -- A sender that newSender has returned, with n failures to come.
  pub record IsReady (n : ℕ) (s : Sender K N L W) : Type 0 where
    pub counted : left s.world ≡ n
    pub linked : (l : L) × (s.link ≡ some l)
    pub in_session : (x : Session N) × (s.session ≡ some x)
    pub connected : (k : K) × (s.connection ≡ some k)

  then_call-keeps :
      {A B : Type 0} (n : ℕ) (r : Result A × Sender K N L W) (f : A → Call (Sender K N L W) B)
      → IsReady n r.1
      → ((a : A) (s : Sender K N L W) → IsReady n s → IsReady n (f a s).1)
      → IsReady n (then_call r f).1
  then_call-keeps n (ok a, s) f h go = go a s h
  then_call-keeps n (err e, s) f h go = h

  -- A call that does not use up a failure keeps the sender ready.
  at_world :
      (n : ℕ) (s : Sender K N L W) (w : W)
      → IsReady n s
      → left w ≡ left s.world
      → IsReady n (record s { world = w })
  at_world n s w h same = record {
    counted = same ∙ h.counted;
    linked = h.linked;
    in_session = h.in_session;
    connected = h.connected;
  }

  keep_link-keeps :
      (n : ℕ) (x : N) (l : L) (s : Sender K N L W)
      → HasFailures
      → IsReady n s
      → IsReady n (keep_link service x l s).1
  unfolding keep_link
  keep_link-keeps n x l s f h =
      let (id, w, e, same) = f.draws s.world in
      record {
        counted = ground (arith, e, same, h.counted);
        linked = (l, ground (arith, e));
        in_session = (record { session = x; session_id = id }, ground (arith, e));
        connected = (h.connected.0, ground (arith, e, h.connected.1));
      }

  make_link-keeps :
      (n : ℕ) (x : N) (s : Sender K N L W)
      → HasFailures
      → IsReady n s
      → IsReady n (make_link service x s).1
  unfolding make_link
  make_link-keeps n x s f h =
      let a = get_address service s.partition_id in
      then_call-keeps n (on_world (service.new_sender x a) s) (keep_link service x)
        (at_world n s _ h (f.makes_sender x a s.world)) (λ l s' h'. keep_link-keeps n x l s' f h')

  open_session-keeps :
      (n : ℕ) (k : K) (s : Sender K N L W)
      → HasFailures
      → IsReady n s
      → IsReady n (open_session service k s).1
  unfolding open_session
  open_session-keeps n k s f h =
      let a = get_address service s.partition_id in
      then_call-keeps n (on_world (service.negotiate_claim k a) s)
        (λ _ s'. then_call (on_world (service.new_session k) s') (make_link service))
        (at_world n s _ h (f.claims k a s.world))
        (λ _ s' h'.
          then_call-keeps n (on_world (service.new_session k) s') (make_link service)
            (at_world n s' _ h' (f.makes_session k s'.world))
            (λ x s'' h''. make_link-keeps n x s'' f h''))

  new_session_and_link-keeps :
      (n : ℕ) (s : Sender K N L W)
      → HasFailures
      → IsReady n s
      → IsReady n (new_session_and_link service s).1
  unfolding new_session_and_link
  new_session_and_link-keeps n s f h =
      then_call-keeps n (on_world service.new_connection s)
        (λ k s'. open_session service k (record s' { connection = some k }))
        (at_world n s _ h (f.connects s.world))
        (λ k s' h'.
          open_session-keeps n k (record s' { connection = some k }) f
            (record {
              counted = h'.counted;
              linked = h'.linked;
              in_session = h'.in_session;
              connected = (k, refl);
            }))

  recover-keeps :
      (n : ℕ) (s : Sender K N L W)
      → HasFailures
      → IsReady n s
      → ((r : Result (Unit {0})) × ((recover service s).0 ≡ returned r))
        × IsReady n (recover service s).1
  unfolding recover
  recover-keeps n s f h =
      let (l, has_link) = h.linked in
      let (x, has_session) = h.in_session in
      let (k, has_connection) = h.connected in
      let w1 = service.close_link l s.world in
      let w2 = service.close_session x.session w1 in
      let s' : Sender K N L W = record {
        connection = some k;
        session = some x;
        link = some l;
        partition_id = s.partition_id;
        world = service.close_connection k w2;
      } in
      let ready : IsReady n s' = record {
        counted =
            f.closes_connection k w2
            ∙ (f.closes_session x.session w1 ∙ (f.closes_link l s.world ∙ h.counted));
        linked = (l, refl);
        in_session = (x, refl);
        connected = (k, refl);
      } in
      rw (has_link, has_session, has_connection)
        (((new_session_and_link service s').0, refl), new_session_and_link-keeps n s' f ready)

  after_failure-keeps :
      (n : ℕ) (s : Sender K N L W)
      → HasFailures
      → IsReady n s
      → ((after_failure service s).0 ≡ returned tt) × IsReady n (after_failure service s).1
  unfolding after_failure
  after_failure-keeps n s f h =
      let s1 : Sender K N L W = record s { world = service.delay s.world } in
      let (answer, ready) = recover-keeps n s1 f (at_world n s _ h (f.delays s.world)) in
      let (r, o) = answer in
      let s2 = (recover service s1).1 in
      elim (Result-cases r) [
        | inl (_, e) ↦
            let goes : (after_failure service s).1 ≡ record s2 { world = service.reset s2.world } =
              ground (arith, o, e) in
            (
              ground (arith, o, e),
              subst (λ z. IsReady n z) (sym goes) (at_world n s2 _ ready (f.resets s2.world)),
            )
        | inr (_, e) ↦
            let goes : (after_failure service s).1 ≡ s2 = ground (arith, o, e) in
            (ground (arith, o, e), subst (λ z. IsReady n z) (sym goes) ready)
      ]

  -- If the next n sends fail with errors of package amqp and the one after them does not, no
  -- other call changes this, the context goes on, and uuid.NewV4 returns no error, then trySend,
  -- on a sender with its link, session and connection, succeeds in at most n + 1 rounds,
  -- whichever of its attempts to recover fail.
  pub try_send-delivers :
      (n : ℕ) (m : M) (s : Sender K N L W)
      → HasFailures
      → IsReady n s
      → (try_send service (suc n) m s).0 ≡ some (returned (ok tt))
  unfolding try_send
  try_send-delivers zero m s f h =
      let (l, has_link) = h.linked in ground (arith, f.alive s.world, f.sends l m s.world h.counted)
  try_send-delivers (suc n) m s f h =
      let (l, has_link) = h.linked in
      let (e, failed_, amqp, fewer) = f.fails l m s.world n h.counted in
      let s1 : Sender K N L W = record s { world = (service.send l m s.world).1 } in
      let ready : IsReady n s1 = record {
        counted = fewer;
        linked = h.linked;
        in_session = h.in_session;
        connected = h.connected;
      } in
      let (done, ready') = after_failure-keeps n s1 f ready in
      let rest = try_send-delivers n m (after_failure service s1).1 f ready' in
      ground (arith, f.alive s.world, done, rest, has_link, failed_, amqp)
