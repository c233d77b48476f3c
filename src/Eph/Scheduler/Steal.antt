-- ===== src/Eph/Scheduler/Steal.antt =====
-- What leaseToSteal of eph/scheduler.go promises, for every order in which Go ranges over the map
-- and every choice that rand.Intn makes.
use azure_event_hubs_go.Base.{
  ℕ, ◌+◌, ◌≤◌, ◌<◌, String, ◌≡◌, ◌≢◌, Bool, true, false, Option, none, some, List, [], arith, leb,
  not, ◌&&◌, ◌==◌, eq_iff, eq-false, if◌then◌else◌, length, Memᴰ, Option-cases, inl, inr, get_elem?,
  sym, ◌∙◌, ap,
}
use azure_event_hubs_go.Go.{Outcome, returned, panicked}
use azure_event_hubs_go.Dict.{Dict}
use azure_event_hubs_go.Eph.Lease.{Lease}
use azure_event_hubs_go.Eph.Scheduler.Balance.{OwnerCount, owner_with_most_leases, lease_to_steal}
use azure_event_hubs_go.Eph.Scheduler.Groups.{owned_by, lookup-leases_by_owner}
use azure_event_hubs_go.Eph.Scheduler.Largest.{
  Ranges, owner_with_most_leases-largest, owner_with_most_leases-owned, size, mem-owned_by,
  get_elem?-mem, get_elem?-in_range,
}

abbrev pick : (ℕ → ℕ) → List Lease → Outcome (Option Lease)
pick intn ls = elim (get_elem? ls (intn (length ls))) [
  | none ↦ panicked
  | some l ↦ returned (some l)
]

picked : (intn : ℕ → ℕ) (ls : List Lease) (l : Lease) → pick intn ls ≡ returned (some l) → Memᴰ l ls
picked intn ls l e = get_elem?-mem ls (intn (length ls)) l (ground arith)

passed :
    (b : Bool) (x : Outcome (Option Lease)) (l : Lease)
    → (if b then x else returned none) ≡ returned (some l)
    → (b ≡ true) × (x ≡ returned (some l))
passed b x l e = ground arith

module _ (range : Dict (List Lease) → Dict (List Lease)) (ranges : Ranges range) where
  lease_to_steal-none :
      (name : String) (intn : ℕ → ℕ) (cs : List Lease) (my_count : ℕ)
      → owner_with_most_leases range cs ≡ none
      → lease_to_steal range name intn cs my_count ≡ returned none
  unfolding lease_to_steal
  lease_to_steal-none name intn cs my_count e = ground arith

  lease_to_steal-some :
      (name : String) (intn : ℕ → ℕ) (cs : List Lease) (my_count : ℕ) (w : OwnerCount)
      → owner_with_most_leases range cs ≡ some w
      → lease_to_steal range name intn cs my_count ≡ (
          if not (name == w.owner) && leb (my_count + 2) (length (owned_by w.owner cs))
          then pick intn (owned_by w.owner cs)
          else returned none)
  lease_to_steal-some name intn cs my_count w e =
      let owned = owner_with_most_leases-owned range ranges cs w e in
      unfold lease_to_steal in ground (arith, owned, lookup-leases_by_owner w.owner cs)

  lease_to_steal-chosen :
      (name : String) (intn : ℕ → ℕ) (cs : List Lease) (my_count : ℕ) (l : Lease) (w : OwnerCount)
      → owner_with_most_leases range cs ≡ some w
      → lease_to_steal range name intn cs my_count ≡ returned (some l)
      → Memᴰ l (owned_by w.owner cs)
        × (w.owner ≢ name)
        × (my_count + 2 ≤ length (owned_by w.owner cs))
  lease_to_steal-chosen name intn cs my_count l w most e =
      let test = not (name == w.owner) && leb (my_count + 2) (length (owned_by w.owner cs)) in
      let (enough, chosen) =
        passed test (pick intn (owned_by w.owner cs)) l
          (sym (lease_to_steal-some name intn cs my_count w most) ∙ e) in
      (
        picked intn (owned_by w.owner cs) l chosen,
        ground (arith, eq_iff name w.owner),
        ground arith,
      )

  -- If ranging over a map meets exactly its entries, a lease that leaseToSteal returns is one of
  -- the candidates and belongs to somebody else who has at least two more than this host has,
  -- and nobody has more.
  pub lease_to_steal_sound :
      (name : String) (intn : ℕ → ℕ) (cs : List Lease) (my_count : ℕ) (l : Lease)
      → lease_to_steal range name intn cs my_count ≡ returned (some l)
      → Memᴰ l cs
        × (l.owner ≢ name)
        × (my_count + 2 ≤ length (owned_by l.owner cs))
        × ((o : String) → length (owned_by o cs) ≤ length (owned_by l.owner cs))
  lease_to_steal_sound name intn cs my_count l e =
      elim (Option-cases (owner_with_most_leases range cs)) [
        | inl empty ↦ absurd (ground (arith, lease_to_steal-none name intn cs my_count empty))
        | inr (w, most) ↦
            let (i, other, enough) = lease_to_steal-chosen name intn cs my_count l w most e in
            let (j, named) = mem-owned_by w.owner l cs i in
            (
              j,
              rw named other,
              rw named enough,
              λ o. rw named (
                  most_of w (owner_with_most_leases-owned range ranges cs w most).0 (ap size most)
                    (owner_with_most_leases-largest range ranges cs o)),
            )
      ]
    where
      most_of :
          (w : OwnerCount) {n : ℕ} {s : ℕ}
          → w.leases ≡ owned_by w.owner cs
          → s ≡ length w.leases
          → n ≤ s
          → n ≤ length (owned_by w.owner cs)
      most_of w same found bound = omega (arith, ap length same)

  lease_to_steal-picks :
      (name : String) (intn : ℕ → ℕ) (cs : List Lease) (my_count : ℕ) (w : OwnerCount)
      → ((n : ℕ) → 0 < n → intn n < n)
      → owner_with_most_leases range cs ≡ some w
      → (l : Lease) × (lease_to_steal range name intn cs my_count ≡ (
          if not (name == w.owner) && leb (my_count + 2) (length (owned_by w.owner cs))
          then returned (some l)
          else returned none))
  lease_to_steal-picks name intn cs my_count w below most =
      let owned = owner_with_most_leases-owned range ranges cs w most in
      let ls = owned_by w.owner cs in
      let count : 1 ≤ length ls = omega (arith, owned.1, ap length owned.0) in
      let found = get_elem?-in_range ls (intn (length ls)) (below (length ls) count) in
      (found.0, lease_to_steal-some name intn cs my_count w most ∙ ground (arith, found.1))

  -- If ranging over a map meets exactly its entries and rand.Intn(n) is below n, leaseToSteal
  -- does not panic.
  pub lease_to_steal-returns :
      (name : String) (intn : ℕ → ℕ) (cs : List Lease) (my_count : ℕ)
      → ((n : ℕ) → 0 < n → intn n < n)
      → lease_to_steal range name intn cs my_count ≢ panicked
  lease_to_steal-returns name intn cs my_count below e =
      elim (Option-cases (owner_with_most_leases range cs)) [
        | inl empty ↦ ground (arith, lease_to_steal-none name intn cs my_count empty)
        | inr (w, most) ↦
            let closed = lease_to_steal-picks name intn cs my_count w below most in
            ground (arith, closed.1)
      ]

  -- If ranging over a map meets exactly its entries, rand.Intn(n) is below n, no candidate is
  -- this host's own, and somebody has at least two more than this host, then leaseToSteal
  -- returns a lease.
  pub lease_to_steal_complete :
      (name : String) (intn : ℕ → ℕ) (cs : List Lease) (my_count : ℕ) (o : String)
      → ((n : ℕ) → 0 < n → intn n < n)
      → owned_by name cs ≡ []
      → my_count + 2 ≤ length (owned_by o cs)
      → (l : Lease) × (lease_to_steal range name intn cs my_count ≡ returned (some l))
  lease_to_steal_complete name intn cs my_count o below mine enough =
      let bound = owner_with_most_leases-largest range ranges cs o in
      elim (Option-cases (owner_with_most_leases range cs)) [
        | inl empty ↦ absurd (omega (arith, ap size empty))
        | inr (w, most) ↦
            let closed = lease_to_steal-picks name intn cs my_count w below most in
            let owned = owner_with_most_leases-owned range ranges cs w most in
            let many : my_count + 2 ≤ length (owned_by w.owner cs) =
              omega (arith, ap size most, ap length owned.0) in
            let other : (name == w.owner) ≡ false = eq-false name w.owner (λ e.
              absurd (omega (arith, many, ap length mine, ap (λ o'. length (owned_by o' cs)) e))) in
            (closed.0, closed.1 ∙ rw other (ground arith))
      ]
