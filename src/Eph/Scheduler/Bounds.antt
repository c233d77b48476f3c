-- ===== src/Eph/Scheduler/Bounds.antt =====
-- How many receivers one scan of eph/scheduler.go can add.
use azure_event_hubs_go.Base.{
  refl, ℕ, ◌+◌, ◌≤◌, String, ◌≡◌, Option, none, some, List, [], ◌∷◌, arith, length, inl, inr, ◌⊎◌,
  Option-cases,
}
use azure_event_hubs_go.Go.{Outcome, returned, panicked, Result-cases}
use azure_event_hubs_go.Dict.{Dict}
use azure_event_hubs_go.Dict.Entries.{length-insert, length-delete}
use azure_event_hubs_go.Eph.Lease.{Lease}
use azure_event_hubs_go.Eph.Scheduler.Services.{Leaser, Client, Attempt-cases}
use azure_event_hubs_go.Eph.Scheduler.Expired.{
  Acquired, greed, acquire_expired_leases-le-greed, acquire_expired_leases,
}
use azure_event_hubs_go.Eph.Scheduler.Receivers.{
  Scheduler, LeasedReceiver, close, evict, start_receiver,
}
use azure_event_hubs_go.Eph.Scheduler.Scan.{
  start_all, steal, candidate, rebalance, serve, scan, shuffle,
}

candidate-cases :
    (c : Outcome (Option Lease))
    → ((l : Lease) × (c ≡ returned (some l))) ⊎ ((c ≡ returned none) ⊎ (c ≡ panicked))
candidate-cases (returned (some l)) = inl (l, refl)
candidate-cases (returned none) = inr (inl refl)
candidate-cases panicked = inr (inr refl)

module _ {H W : Type 0} (leaser : Leaser W) (client : Client H W) where
  abbrev pub count : Scheduler H W → ℕ
  count s = length s.receivers

  count-close :
      (lr : LeasedReceiver H) (s : Scheduler H W)
      → (close leaser client lr s).1.receivers ≡ s.receivers
  unfolding close
  count-close lr s = ground arith

  count-evict : (p : String) (s : Scheduler H W) → count (evict leaser client p s) ≤ count s
  unfolding evict
  count-evict p s = ground (arith, length-delete p s.receivers)

  count-start_receiver :
      (l : Lease) (s : Scheduler H W) → count (start_receiver leaser client l s).1 ≤ count s + 1
  unfolding start_receiver
  count-start_receiver l s =
      let s' = evict leaser client l.partition_id s in
      elim (Result-cases (client.receive l.partition_id l.epoch s'.world).0) [
        | inl (h, e) ↦ ground (
          arith,
          count-evict l.partition_id s,
          length-insert l.partition_id (record { id = s'.made; lease = l; handle = some h })
              s'.receivers,
        )
        | inr (x, e) ↦ ground (arith, count-evict l.partition_id s)
      ]

  count-start_all :
      (ls : List Lease) (s : Scheduler H W)
      → count (start_all leaser client ls s).1 ≤ count s + length ls
  unfolding start_all
  count-start_all [] s = omega arith
  count-start_all (l ∷ ls) s =
      ground
        (arith, count-start_receiver l s, count-start_all ls (start_receiver leaser client l s).1)

  count-steal : (l : Lease) (s : Scheduler H W) → count (steal leaser client l s) ≤ count s + 1
  unfolding steal
  count-steal l s =
      let t = leaser.acquire_lease l.partition_id s.world in
      elim (Attempt-cases t.0) [
        | inl (got_, e) ↦ ground (arith, count-start_receiver got_ (record s { world = t.1 }))
        | inr other ↦ ground arith
      ]

  module _ (perm : ℕ → List ℕ) (range range' : Dict (List Lease) → Dict (List Lease))
      (name : String) (intn : ℕ → ℕ) where
    count-rebalance :
        (a : Acquired) (s : Scheduler H W)
        → count (rebalance leaser client perm range range' name intn a s).1 ≤ count s + 1
    unfolding rebalance
    count-rebalance a s = elim (candidate-cases (candidate range range' name intn a)) [
      | inl (l, e) ↦ ground (arith, count-steal l s)
      | inr other ↦ ground arith
    ]

    count-serve :
        (a : Acquired) (s : Scheduler H W)
        → length a.acquired ≤ greed
        → count (serve leaser client perm range range' name intn a s).1 ≤ count s + greed
    unfolding serve
    count-serve a s few =
        let s' = (start_all leaser client a.acquired s).1 in
        ground (arith, count-start_all a.acquired s, count-rebalance a s')

    -- One scan adds at most greed, that is 15, receivers, by expired leases and by stealing together.
    pub count-scan :
        (s : Scheduler H W)
        → count (scan leaser client perm range range' name intn s).1 ≤ count s + greed
    unfolding scan
    count-scan s = elim (Result-cases (leaser.get_leases s.world).0) [
      | inr (x, e) ↦ ground arith
      | inl (all, e) ↦ elim (Option-cases (shuffle (perm (length all)) all)) [
        | inl none_ ↦ ground arith
        | inr (ls, shuffled) ↦
            let w = (leaser.get_leases s.world).1 in
            let r = acquire_expired_leases leaser ls w in
            elim (Result-cases r.0) [
              | inr (x, e') ↦ ground arith
              | inl (a, e') ↦ ground (
                arith,
                count-serve a (record s { world = r.1 })
                    (acquire_expired_leases-le-greed leaser ls w a e'),
              )
            ]
      ]
    ]
