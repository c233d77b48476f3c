-- ===== src/Eph/Scheduler/Running.antt =====
-- The schedulers of eph/scheduler.go that scans and renewals lead to, until Stop.
use azure_event_hubs_go.Base.{
  ℕ, String, Memᴰ, inl, inr, List, [], ◌∷◌, arith, Option-cases, Bool-cases, true, leb, length,
}
use azure_event_hubs_go.Go.{Result-cases, Outcome-cases}
use azure_event_hubs_go.Dict.{Dict}
use azure_event_hubs_go.Eph.Lease.{Lease}
use azure_event_hubs_go.Eph.Scheduler.Services.{Leaser, Client, Attempt-cases}
use azure_event_hubs_go.Eph.Scheduler.Expired.{Acquired, greed, acquire_expired_leases}
use azure_event_hubs_go.Eph.Scheduler.Receivers.{
  LeasedReceiver, Scheduler, start_receiver, stop_receiver, renew_round, start_renewal,
  new_scheduler,
}
use azure_event_hubs_go.Eph.Scheduler.Scan.{
  start_all, steal, serve, rebalance, scan, candidate, shuffle,
}
use azure_event_hubs_go.Eph.Scheduler.Serving.{IsServing-empty}
use azure_event_hubs_go.Eph.Scheduler.Served.{
  Serves, Current, Renews, start_receiver-Serves, stop_receiver-Serves, renew_round-Serves, carry,
}

module _ {H W : Type 0} (leaser : Leaser W) (client : Client H W) where
  start_all-Serves :
      (ls : List Lease) (s : Scheduler H W) → Serves s → Serves (start_all leaser client ls s).1
  unfolding start_all
  start_all-Serves [] s i = i
  start_all-Serves (l ∷ ls) s i =
      let next = start_receiver-Serves leaser client l s i in
      let (e, s') = start_receiver leaser client l s in
      elim (Option-cases e) [
        | inl n ↦
            carry (start_all leaser client ls s').1 (start_all leaser client (l ∷ ls) s).1
              (start_all-Serves ls s' next) (ground arith)
        | inr (x, n) ↦
            carry (record s' { world = leaser.release_lease l.partition_id s'.world })
              (start_all leaser client (l ∷ ls) s).1 next (ground arith)
      ]

  steal-Serves : (l : Lease) (s : Scheduler H W) → Serves s → Serves (steal leaser client l s)
  unfolding steal
  steal-Serves l s i =
      let (t, w) = leaser.acquire_lease l.partition_id s.world in
      let s' : Scheduler H W = record s { world = w } in
      elim (Attempt-cases t) [
        | inr (inl e) ↦ carry s' (steal leaser client l s) i (ground arith)
        | inr (inr (x, e)) ↦ carry s' (steal leaser client l s) i (ground arith)
        | inl (stolen, e) ↦
            let next = start_receiver-Serves leaser client stolen s' i in
            let (n, s'') = start_receiver leaser client stolen s' in
            elim (Option-cases n) [
              | inl q ↦ carry s'' (steal leaser client l s) next (ground arith)
              | inr (x, q) ↦
                  carry
                    (record s'' { world = leaser.release_lease_cancelled l.partition_id s''.world })
                    (steal leaser client l s) next (ground arith)
            ]
      ]

  module _ (perm : ℕ → List ℕ) (range range' : Dict (List Lease) → Dict (List Lease))
      (name : String) (intn : ℕ → ℕ) where
    rebalance-Serves :
        (a : Acquired) (s : Scheduler H W)
        → Serves s
        → Serves (rebalance leaser client perm range range' name intn a s).1
    unfolding rebalance
    rebalance-Serves a s i = elim (Outcome-cases (candidate range range' name intn a)) [
      | inr e ↦ carry s (rebalance leaser client perm range range' name intn a s).1 i (ground arith)
      | inl (o, e) ↦ elim (Option-cases o) [
        | inl n ↦
            carry s (rebalance leaser client perm range range' name intn a s).1 i (ground arith)
        | inr (l, n) ↦
            carry (steal leaser client l s)
              (rebalance leaser client perm range range' name intn a s).1 (steal-Serves l s i)
              (ground arith)
      ]
    ]

    serve-Serves :
        (a : Acquired) (s : Scheduler H W)
        → Serves s
        → Serves (serve leaser client perm range range' name intn a s).1
    unfolding serve
    serve-Serves a s i =
        let next = start_all-Serves a.acquired s i in
        let (started, s') = start_all leaser client a.acquired s in
        let result = (serve leaser client perm range range' name intn a s).1 in
        elim (Bool-cases started) [
          | inr e ↦ carry s' result next (ground arith)
          | inl e ↦ elim (Bool-cases (leb greed (length a.acquired))) [
            | inl f ↦ carry s' result next (ground arith)
            | inr f ↦
                carry (rebalance leaser client perm range range' name intn a s').1 result
                  (rebalance-Serves a s' next) (ground arith)
          ]
        ]

    pub scan-Serves :
        (s : Scheduler H W) → Serves s → Serves (scan leaser client perm range range' name intn s).1
    unfolding scan
    scan-Serves s i =
        let (r, w) = leaser.get_leases s.world in
        let result = (scan leaser client perm range range' name intn s).1 in
        let s' : Scheduler H W = record s { world = w } in
        elim (Result-cases r) [
          | inr (x, e) ↦ carry s' result i (ground arith)
          | inl (all, e) ↦ elim (Option-cases (shuffle (perm (length all)) all)) [
            | inl n ↦ carry s' result i (ground arith)
            | inr (leases, n) ↦
                let (r', w') = acquire_expired_leases leaser leases w in
                let s'' : Scheduler H W = record s { world = w' } in
                elim (Result-cases r') [
                  | inr (x, f) ↦ carry s'' result i (ground arith)
                  | inl (a, f) ↦
                      carry (serve leaser client perm range range' name intn a s'').1 result
                        (serve-Serves a s'' i) (ground arith)
                ]
          ]
        ]

    -- What the goroutines of a scheduler do to it: the loop scans; the goroutine of a receiver sets
    -- lr.done and goes through rounds; listenForClose of a receiver stops the receiver of its
    -- partition; handles end and other hosts act, which changes the world.
    pub data Step : Scheduler H W → Scheduler H W → Type 0 where
      scanned : (s : Scheduler H W) → Step s (scan leaser client perm range range' name intn s).1
      renewed :
          (lr : LeasedReceiver H) (s : Scheduler H W)
          → Current lr s
          → Step s (renew_round leaser client lr s).1
      begun :
          (n : ℕ) (s : Scheduler H W) → Memᴰ n s.renewing → Step s (start_renewal leaser client n s)
      ended : (l : Lease) (s : Scheduler H W) → Step s (stop_receiver leaser client l s).1
      elsewhere : (w : W) (s : Scheduler H W) → Step s (record s { world = w })

    pub data Reached : Scheduler H W → Type 0 where
      started : (w : W) → Reached (record (new_scheduler w) { running = true; has_done = true })
      stepped : (s s' : Scheduler H W) → Reached s → Step s s' → Reached s'

    Step-Serves : Renews leaser client → (s s' : Scheduler H W) → Step s s' → Serves s → Serves s'
    unfolding start_renewal
    Step-Serves h s s' (scanned t) i = scan-Serves s i
    Step-Serves h s s' (renewed lr t c) i = renew_round-Serves leaser client h lr s i c
    Step-Serves h s s' (begun n t m) i = i
    Step-Serves h s s' (ended l t) i = stop_receiver-Serves leaser client l s i
    Step-Serves h s s' (elsewhere w t) i = i

    -- Where the leaser renews the lease it is asked for, a scheduler that has not been stopped
    -- keeps its receivers in order, after any scans, rounds of renewal, ends of handles and changes
    -- of the world: each partition of its map has a receiver on a lease of that partition, whose
    -- handle is set (though it may have ended) and whose renewal goroutine runs, and no receiver
    -- stands there twice.
    pub Reached-Serves : Renews leaser client → (s : Scheduler H W) → Reached s → Serves s
    unfolding new_scheduler
    Reached-Serves h s (started w) = IsServing-empty
    Reached-Serves h s (stepped t s' r step) = Step-Serves h t s' step (Reached-Serves h t r)
