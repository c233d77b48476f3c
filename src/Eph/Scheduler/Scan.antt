-- ===== src/Eph/Scheduler/Scan.antt =====
-- eph/scheduler.go: one scan. `perm` and `intn` are rand.Perm and rand.Intn; `range` is the order in
-- which Go ranges over a map when the scan gathers the other owners' leases, `range'` that order in
-- ownerWithMostLeases. Errors are logged and end the scan, which itself returns nothing.
use azure_event_hubs_go.Base.{
  ℕ, ◌+◌, String, Bool, true, false, not, Option, none, some, List, [], ◌∷◌, ◌++◌, map, leb, ◌==◌,
  if◌then◌else◌, length, set,
}
use azure_event_hubs_go.Go.{Outcome, returned, panicked, ok, err}
use azure_event_hubs_go.Dict.{Dict, lookup}
use azure_event_hubs_go.Eph.Lease.{Lease}
use azure_event_hubs_go.Eph.Scheduler.Balance.{leases_by_owner, lease_to_steal}
use azure_event_hubs_go.Eph.Scheduler.Services.{Leaser, Client, got, refused, broken}
use azure_event_hubs_go.Eph.Scheduler.Expired.{Acquired, greed, acquire_expired_leases}
use azure_event_hubs_go.Eph.Scheduler.Receivers.{Scheduler, start_receiver}

-- randomLeases[v] = allLeases[i], over the places v of perm.
unfoldable pub scatter : List ℕ → List Lease → List (Option Lease) → List (Option Lease)
scatter [] ls out = out
scatter (v ∷ vs) [] out = out
scatter (v ∷ vs) (l ∷ ls) out = scatter vs ls (set out v (some l))

-- `none` if an interface of the list is nil, which panics when it is used.
unfoldable pub no_nil : List (Option Lease) → Option (List Lease)
no_nil [] = some []
no_nil (none ∷ ls) = none
no_nil (some l ∷ ls) = elim (no_nil ls) [ none ↦ none | some r ↦ some (l ∷ r) ]

unfoldable pub shuffle : List ℕ → List Lease → Option (List Lease)
unfolding scatter no_nil
shuffle perm ls = no_nil (scatter perm ls (map (λ _. none) ls))

-- The values of the keys that are not this host's name.
unfoldable pub owned_by_others : String → Dict (List Lease) → List Lease
owned_by_others name [] = []
owned_by_others name ((key, value) ∷ m) =
    let rest = owned_by_others name m in if not (key == name) then value ++ rest else rest

unfoldable pub owned_by_me : String → Acquired → ℕ
unfolding leases_by_owner
owned_by_me name a =
    elim (lookup name (leases_by_owner a.not_acquired)) [ none ↦ 0 | some val ↦ length val ]
    + length a.acquired

module _ (range range' : Dict (List Lease) → Dict (List Lease)) (name : String) (intn : ℕ → ℕ) where
  -- The lease that the scan tries to steal, if any.
  unfoldable pub candidate : Acquired → Outcome (Option Lease)
  unfolding owned_by_me owned_by_others
  candidate a =
      lease_to_steal range' name intn
        (owned_by_others name (range (leases_by_owner a.not_acquired))) (owned_by_me name a)

module _ {H W : Type 0} (leaser : Leaser W) (client : Client H W) where
  -- The loop that starts the receivers of the acquired leases; false if one of them has failed.
  unfoldable pub start_all : List Lease → Scheduler H W → Bool × Scheduler H W
  start_all [] s = (true, s)
  start_all (l ∷ ls) s =
      let (e, s') = start_receiver leaser client l s in
      elim e [
        | none ↦ start_all ls s'
        | some x ↦ (false, record s' { world = leaser.release_lease l.partition_id s'.world })
      ]

  -- The lease is given back under the context of its AcquireLease, which is cancelled by then.
  unfoldable pub steal : Lease → Scheduler H W → Scheduler H W
  steal l s =
      let (attempt, w) = leaser.acquire_lease l.partition_id s.world in
      let s' = record s { world = w } in
      elim attempt [
        | broken e ↦ s'
        | refused ↦ s'
        | got stolen ↦
            let (e, s'') = start_receiver leaser client stolen s' in
            elim e [
              | none ↦ s''
              | some x ↦ record s'' {
                world = leaser.release_lease_cancelled l.partition_id s''.world;
              }
            ]
      ]

  module _ (perm : ℕ → List ℕ) (range range' : Dict (List Lease) → Dict (List Lease))
      (name : String) (intn : ℕ → ℕ) where
    unfoldable pub rebalance : Acquired → Scheduler H W → Outcome (Unit {0}) × Scheduler H W
    rebalance a s = elim (candidate range range' name intn a) [
      | panicked ↦ (panicked, s)
      | returned none ↦ (returned tt, s)
      | returned (some l) ↦ (returned tt, steal l s)
    ]

    unfoldable pub serve : Acquired → Scheduler H W → Outcome (Unit {0}) × Scheduler H W
    serve a s =
        let (started, s') = start_all a.acquired s in
        if not started
        then (returned tt, s')
        else if leb greed (length a.acquired)
        then (returned tt, s')
        else rebalance a s'

    unfoldable pub scan : Scheduler H W → Outcome (Unit {0}) × Scheduler H W
    scan s =
        let (r, w) = leaser.get_leases s.world in
        elim r [
          | err e ↦ (returned tt, record s { world = w })
          | ok all ↦ elim (shuffle (perm (length all)) all) [
            | none ↦ (panicked, record s { world = w })
            | some leases ↦
                let (r', w') = acquire_expired_leases leaser leases w in
                elim r' [
                  | err e ↦ (returned tt, record s { world = w' })
                  | ok a ↦ serve a (record s { world = w' })
                ]
          ]
        ]
