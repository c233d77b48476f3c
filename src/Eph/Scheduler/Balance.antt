-- ===== src/Eph/Scheduler/Balance.antt =====
-- eph/scheduler.go: leaseToSteal and what it counts. Of a LeaseMarker the scheduler reads the
-- fields of the embedded Lease.
use azure_event_hubs_go.Base.{
  ℕ, ◌+◌, String, true, not, ◌&&◌, Option, none, some, List, [], ◌∷◌, ◌++◌, leb, ltb, ◌==◌,
  if◌then◌else◌, length, get_elem?,
}
use azure_event_hubs_go.Go.{Outcome, returned, panicked}
use azure_event_hubs_go.Dict.{Dict, lookup, insert}
use azure_event_hubs_go.Eph.Lease.{Lease}

pub record OwnerCount : Type 0 where
  pub owner : String
  pub leases : List Lease

unfoldable pub add_candidate : Dict (List Lease) → Lease → Dict (List Lease)
add_candidate by_owner c = elim (lookup c.owner by_owner) [
  | some val ↦ insert c.owner (val ++ c ∷ []) by_owner
  | none ↦ insert c.owner (c ∷ []) by_owner
]

-- The loop of leasesByOwner over the candidates that are left.
unfoldable pub group : Dict (List Lease) → List Lease → Dict (List Lease)
unfolding add_candidate
group by_owner [] = by_owner
group by_owner (c ∷ cs) = group (add_candidate by_owner c) cs

unfoldable pub leases_by_owner : List Lease → Dict (List Lease)
unfolding group
leases_by_owner cs = group [] cs

-- The loop of ownerWithMostLeases over the entries that are left.
unfoldable pub largest_of : Option OwnerCount → Dict (List Lease) → Option OwnerCount
largest_of largest [] = largest
largest_of largest ((key, value) ∷ m) =
    largest_of
      (if elim largest [ none ↦ true | some w ↦ ltb (length w.leases) (length value) ]
        then some (record { owner = key; leases = value })
        else largest)
      m

-- `range` is the order in which Go ranges over a map.
module _ (range : Dict (List Lease) → Dict (List Lease)) where
  unfoldable pub owner_with_most_leases : List Lease → Option OwnerCount
  unfolding leases_by_owner largest_of
  owner_with_most_leases cs = largest_of none (range (leases_by_owner cs))

  -- `intn` is rand.Intn. The difference of two lengths, len(biggestOwner.Leases) - myLeaseCount, is
  -- at least 2 where my_count + 2 is at most the first. An index out of range panics.
  unfoldable pub lease_to_steal : String → (ℕ → ℕ) → List Lease → ℕ → Outcome (Option Lease)
  unfolding owner_with_most_leases
  lease_to_steal name intn cs my_count = elim (owner_with_most_leases cs) [
    | none ↦ returned none
    | some biggest ↦
        if not (name == biggest.owner)
        then elim (lookup biggest.owner (leases_by_owner cs)) [
          | none ↦ returned none
          | some ls ↦
              if leb (my_count + 2) (length biggest.leases) && leb 1 (length ls)
              then elim (get_elem? ls (intn (length ls))) [
                | none ↦ panicked
                | some l ↦ returned (some l)
              ]
              else returned none
        ]
        else returned none
  ]
