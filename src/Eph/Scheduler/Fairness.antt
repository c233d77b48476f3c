-- ===== src/Eph/Scheduler/Fairness.antt =====
-- From whom a scan of eph/scheduler.go steals: the counts on which the scan decides are those of
-- the leases that it has seen, for every order in which Go ranges over the maps.
use mathlib.Core.List.{append-nil}
use mathlib.Core.List.Memᴰ.{append_cases}
use azure_event_hubs_go.Base.{
  ℕ, ◌+◌, ◌≤◌, String, ◌≡◌, ◌≢◌, refl, sym, ◌∙◌, inl, inr, false, Option, none, some, List, [], ◌∷◌,
  ◌++◌, arith, ◌==◌, eq_iff, eq-false, if◌then◌else◌, length, Memᴰ, Bool-cases, Option-cases,
}
use azure_event_hubs_go.Go.{returned}
use azure_event_hubs_go.Dict.{Dict, lookup}
use azure_event_hubs_go.Dict.Entries.{IsMap, lookup-mem, mem-lookup}
use azure_event_hubs_go.Eph.Lease.{Lease}
use azure_event_hubs_go.Eph.Scheduler.Balance.{leases_by_owner}
use azure_event_hubs_go.Eph.Scheduler.Groups.{
  owned_by, nonempty, lookup-leases_by_owner, leases_by_owner-IsMap, entry-owned,
}
use azure_event_hubs_go.Eph.Scheduler.Largest.{Ranges, mem-owned_by}
use azure_event_hubs_go.Eph.Scheduler.Steal.{lease_to_steal_sound}
use azure_event_hubs_go.Eph.Scheduler.Expired.{Acquired}
use azure_event_hubs_go.Eph.Scheduler.Scan.{owned_by_others, owned_by_me, candidate}

owned_by-append :
    (o : String) (xs ys : List Lease) → owned_by o (xs ++ ys) ≡ owned_by o xs ++ owned_by o ys
owned_by-append o [] ys = refl
owned_by-append o (x ∷ xs) ys = ground (arith, owned_by-append o xs ys)

owned_by-owned_by :
    (o k : String) (cs : List Lease)
    → owned_by o (owned_by k cs) ≡ (if k == o then owned_by k cs else [])
owned_by-owned_by o k [] = ground arith
owned_by-owned_by o k (c ∷ cs) =
    ground (arith, eq_iff c.owner k, eq_iff c.owner o, eq_iff k o, owned_by-owned_by o k cs)

-- The leases of an entry all name its key.
abbrev IsGrouped : Dict (List Lease) → Type 0
IsGrouped m =
    (o k : String) (v : List Lease) → Memᴰ (k, v) m → owned_by o v ≡ (if k == o then v else [])

abbrev or_empty : Option (List Lease) → List Lease
or_empty none = []
or_empty (some ls) = ls

owned_by-others :
    (name o : String) (m : Dict (List Lease))
    → IsMap m
    → IsGrouped m
    → owned_by o (owned_by_others name m) ≡ (if name == o then [] else or_empty (lookup o m))
unfolding owned_by_others lookup
owned_by-others name o [] h g = ground arith
owned_by-others name o ((k, v) ∷ m) h g =
    let ih = owned_by-others name o m h.1 (λ o' k' v' i. g o' k' v' (Memᴰ.tail i)) in
    ground (
      arith,
      ih,
      g o k v (Memᴰ.head refl),
      eq_iff k name,
      eq_iff k o,
      eq_iff name o,
      owned_by-append o v (owned_by_others name m),
      append-nil v,
    )

-- Ranging over a map meets each entry once.
pub record RangesOnce (range : Dict (List Lease) → Dict (List Lease)) : Type 0 where
  pub all : Ranges range
  pub once : (m : Dict (List Lease)) → IsMap m → IsMap (range m)

lookup-range :
    (range : Dict (List Lease) → Dict (List Lease)) (r : RangesOnce range) (o : String)
    (m : Dict (List Lease))
    → IsMap m
    → lookup o (range m) ≡ lookup o m
lookup-range range r o m h = elim (Option-cases (lookup o m)) [
  | inr (v, e) ↦
      lookup-mem o v (range m) (r.once m h) ((r.all m (o, v)).1 (mem-lookup o v m e)) ∙ sym e
  | inl e ↦ elim (Option-cases (lookup o (range m))) [
    | inl e' ↦ e' ∙ sym e
    | inr (v, e') ↦
        let found = lookup-mem o v m h ((r.all m (o, v)).0 (mem-lookup o v (range m) e')) in
        absurd (ground arith)
  ]
]

or_empty-nonempty : (ls : List Lease) → or_empty (nonempty ls) ≡ ls
or_empty-nonempty [] = refl
or_empty-nonempty (l ∷ ls) = refl

mem-others :
    (name : String) (l : Lease) (cs : List Lease) (m : Dict (List Lease))
    → ((k : String) (v : List Lease) → Memᴰ (k, v) m → Memᴰ l v → Memᴰ l cs)
    → Memᴰ l (owned_by_others name m)
    → Memᴰ l cs
unfolding owned_by_others
mem-others name l cs [] h i = elim i [ ]
mem-others name l cs ((k, v) ∷ m) h i =
    let rest = mem-others name l cs m (λ k' v' j. h k' v' (Memᴰ.tail j)) in
    elim (Bool-cases (k == name)) [
      | inl e ↦ rest (rw e at i)
      | inr e ↦ elim (append_cases v (rw e at i)) [
        | inl j ↦ h k v (Memᴰ.head refl) j
        | inr j ↦ rest j
      ]
    ]

module _ (range : Dict (List Lease) → Dict (List Lease)) (r : RangesOnce range) (name : String)
    (a : Acquired) where
  abbrev others : List Lease
  others = owned_by_others name (range (leases_by_owner a.not_acquired))

  entry :
      (k : String) (v : List Lease)
      → Memᴰ (k, v) (range (leases_by_owner a.not_acquired))
      → v ≡ owned_by k a.not_acquired
  entry k v i = (entry-owned k v a.not_acquired ((r.all _ (k, v)).0 i)).0

  -- Of the other hosts' leases, an owner has those of the scan, and this host has none.
  owned_by-scan :
      (o : String) → owned_by o others ≡ (if name == o then [] else owned_by o a.not_acquired)
  owned_by-scan o =
      let m = leases_by_owner a.not_acquired in
      let map_ = leases_by_owner-IsMap a.not_acquired in
      let grouped : IsGrouped (range m) =
        λ o' k v i. rw (entry k v i) (owned_by-owned_by o' k a.not_acquired) in
      owned_by-others name o (range m) (r.once m map_) grouped
      ∙ rw (lookup-range range r o m map_) (
          rw (lookup-leases_by_owner o a.not_acquired)
            (rw (or_empty-nonempty (owned_by o a.not_acquired))))

  owned_by_me-count : owned_by_me name a ≡ length (owned_by name a.not_acquired) + length a.acquired
  unfolding owned_by_me
  owned_by_me-count = ground (arith, lookup-leases_by_owner name a.not_acquired)

  kept_owner :
      (o : String) → o ≢ name → length (owned_by o others) ≡ length (owned_by o a.not_acquired)
  kept_owner o other =
      let differs : (name == o) ≡ false = eq-false name o (λ e. other (sym e)) in
      rw (owned_by-scan o) (rw differs)

  -- If ranging over a map meets each entry once and nothing else, a scan steals a lease that it
  -- has seen and not acquired, from an owner that has at least two more than this host has with
  -- what it has just acquired, and no other host o has more than that owner.
  pub candidate-fair :
      (range' : Dict (List Lease) → Dict (List Lease)) (intn : ℕ → ℕ) (l : Lease) (o : String)
      → Ranges range'
      → candidate range range' name intn a ≡ returned (some l)
      → o ≢ name
      → Memᴰ l a.not_acquired
        × (l.owner ≢ name)
        × (length (owned_by name a.not_acquired) + length a.acquired + 2
            ≤ length (owned_by l.owner a.not_acquired))
        × (length (owned_by o a.not_acquired) ≤ length (owned_by l.owner a.not_acquired))
  candidate-fair range' intn l o all' e else_ =
      let sound =
        lease_to_steal_sound range' all' name intn others (owned_by_me name a) l
          (unfold candidate in e) in
      let theirs = kept_owner l.owner sound.1 in
      (
        mem-others name l a.not_acquired (range (leases_by_owner a.not_acquired))
            (λ k v j x. (mem-owned_by k l a.not_acquired (rw (entry k v j) at x)).0) sound.0,
        sound.1,
        omega (arith, sound.2, theirs, owned_by_me-count),
        omega (arith, sound.3 o, theirs, kept_owner o else_),
      )
