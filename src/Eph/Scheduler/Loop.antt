-- ===== src/Eph/Scheduler/Loop.antt =====
-- eph/scheduler.go: the loop of Run, with what stops it.
use azure_event_hubs_go.Base.{ℕ, String, ◌≡◌, refl, true, false, List, [], ◌∷◌, arith}
use azure_event_hubs_go.Go.{Outcome, returned, panicked}
use azure_event_hubs_go.Dict.{Dict}
use azure_event_hubs_go.Eph.Lease.{Lease}
use azure_event_hubs_go.Eph.Scheduler.Services.{Leaser, Client}
use azure_event_hubs_go.Eph.Scheduler.Receivers.{Scheduler, LeasedReceiver, stop}
use azure_event_hubs_go.Eph.Scheduler.Scan.{scan}
use azure_event_hubs_go.Eph.Scheduler.Lifecycle.{stop-running}

module _ {H W : Type 0} (leaser : Leaser W) (client : Client H W) (perm : ℕ → List ℕ)
    (range range' : Dict (List Lease) → Dict (List Lease)) (name : String) (intn : ℕ → ℕ) where
  -- The loop, for at most as many rounds as the list has entries; each entry is what the other
  -- goroutines of the host do while the loop sleeps after the round.
  unfoldable pub run_rounds :
      List (Scheduler H W → Scheduler H W) → Scheduler H W → Outcome (Unit {0}) × Scheduler H W
  unfolding scan
  run_rounds [] s = (returned tt, s)
  run_rounds (meanwhile ∷ rest) s = elim s.running [
    | false ↦ (returned tt, s)
    | true ↦
        let (o, s') = scan leaser client perm range range' name intn s in
        elim o [ panicked ↦ (panicked, s') | returned u ↦ run_rounds rest (meanwhile s') ]
  ]

  -- A new context, whose end is s.done.
  unfoldable pub run :
      List (Scheduler H W → Scheduler H W) → Scheduler H W → Outcome (Unit {0}) × Scheduler H W
  unfolding run_rounds
  run rounds s = run_rounds rounds (record s { running = true; has_done = true })

  run_rounds-stopped :
      (rest : List (Scheduler H W → Scheduler H W)) (s : Scheduler H W)
      → s.running ≡ false
      → run_rounds rest s ≡ (returned tt, s)
  unfolding run_rounds
  run_rounds-stopped [] s e = refl
  run_rounds-stopped (f ∷ fs) s e = rw e refl

  -- Where Stop is called while the loop sleeps after its first round, which has not panicked and
  -- has left s.done set, the loop does nothing more, however long it could go on.
  pub run-stop :
      (order : Dict (LeasedReceiver H) → Dict (LeasedReceiver H))
      (rest : List (Scheduler H W → Scheduler H W)) (s : Scheduler H W)
      → let (o, s') =
          scan leaser client perm range range' name intn
            (record s { running = true; has_done = true }) in
        o ≡ returned tt
        → s'.has_done ≡ true
        → run ((λ t. (stop leaser client order t).1) ∷ rest) s
          ≡ (returned tt, (stop leaser client order s').1)
  unfolding run run_rounds
  run-stop order rest s h set =
      let s' =
        (scan leaser client perm range range' name intn
          (record s { running = true; has_done = true })).1 in
      ground (
        arith,
        run_rounds-stopped rest (stop leaser client order s').1
            (stop-running leaser client order s' set),
      )
