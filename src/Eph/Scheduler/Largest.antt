-- ===== src/Eph/Scheduler/Largest.antt =====
-- ownerWithMostLeases of eph/scheduler.go, for every order in which Go ranges over the map.
use azure_event_hubs_go.Base.{
  ℕ, zero, suc, ◌≤◌, ◌<◌, String, ◌≡◌, refl, true, Option, none, some, List, [], ◌∷◌, arith, ltb,
  ◌==◌, eq_iff, if◌then◌else◌, length, Memᴰ, Bool-cases, ◌⊎◌, inl, inr, ◌↔◌, get_elem?, ap, dec_lt,
}
use mathlib.Core.List.Memᴰ.{cases_cons}
use azure_event_hubs_go.Dict.{Dict}
use azure_event_hubs_go.Eph.Lease.{Lease}
use azure_event_hubs_go.Eph.Scheduler.Balance.{
  OwnerCount, leases_by_owner, largest_of, owner_with_most_leases,
}
use azure_event_hubs_go.Eph.Scheduler.Groups.{owned_by, entry-owned, owned-entry}

abbrev pub size : Option OwnerCount → ℕ
size none = 0
size (some w) = length w.leases

abbrev better : Option OwnerCount → String → List Lease → Option OwnerCount
better largest key value =
    if elim largest [ none ↦ true | some w ↦ ltb (length w.leases) (length value) ]
    then some (record { owner = key; leases = value })
    else largest

size-better :
    (largest : Option OwnerCount) (key : String) (value : List Lease)
    → (size largest ≤ size (better largest key value))
      × (length value ≤ size (better largest key value))
size-better none key value = omega arith
size-better (some w) key value = ground arith

largest_of-grows :
    (largest : Option OwnerCount) (m : Dict (List Lease))
    → size largest ≤ size (largest_of largest m)
unfolding largest_of
largest_of-grows largest [] = omega arith
largest_of-grows largest ((k, v) ∷ m) =
    omega (arith, size-better largest k v, largest_of-grows (better largest k v) m)

largest_of-bounds :
    (largest : Option OwnerCount) (m : Dict (List Lease)) (k : String) (v : List Lease)
    → Memᴰ (k, v) m
    → length v ≤ size (largest_of largest m)
unfolding largest_of
largest_of-bounds largest [] k v i = elim i [ ]
largest_of-bounds largest ((j, w) ∷ m) k v (Memᴰ.head e) =
    let same : length v ≡ length w = ap (λ (x : String × List Lease). length x.1) e in
    omega (arith, same, size-better largest j w, largest_of-grows (better largest j w) m)
largest_of-bounds largest ((j, w) ∷ m) k v (Memᴰ.tail i) =
    largest_of-bounds (better largest j w) m k v i

better-source :
    (largest : Option OwnerCount) (j : String) (v : List Lease) (w : OwnerCount)
    → better largest j v ≡ some w
    → (largest ≡ some w) ⊎ ((w.owner ≡ j) × (w.leases ≡ v))
better-source none j v w e = inr (ground arith)
better-source (some u) j v w e = ground arith

largest_of-source :
    (largest : Option OwnerCount) (m : Dict (List Lease)) (w : OwnerCount)
    → largest_of largest m ≡ some w
    → (largest ≡ some w) ⊎ Memᴰ (w.owner, w.leases) m
unfolding largest_of
largest_of-source largest [] w e = inl e
largest_of-source largest ((j, v) ∷ m) w e = elim (largest_of-source (better largest j v) m w e) [
  | inr i ↦ inr (Memᴰ.tail i)
  | inl b ↦ elim (better-source largest j v w b) [
    | inl old ↦ inl old
    | inr (o, ls) ↦ inr (Memᴰ.head (λ i. (o i, ls i)))
  ]
]

-- An element of the owner's candidates is a candidate that names the owner.
pub mem-owned_by :
    (o : String) (l : Lease) (cs : List Lease) → Memᴰ l (owned_by o cs) → Memᴰ l cs × (l.owner ≡ o)
mem-owned_by o l [] i = elim i [ ]
mem-owned_by o l (c ∷ cs) i = elim (Bool-cases (c.owner == o)) [
  | inl e ↦ elim (cases_cons (rw e at i)) [
    | inl same ↦ (Memᴰ.head same, ground (arith, eq_iff c.owner o))
    | inr j ↦ let (k, named) = mem-owned_by o l cs j in (Memᴰ.tail k, named)
  ]
  | inr e ↦ let (j, named) = mem-owned_by o l cs (rw e at i) in (Memᴰ.tail j, named)
]

pub get_elem?-mem : (ls : List Lease) (n : ℕ) (l : Lease) → get_elem? ls n ≡ some l → Memᴰ l ls
get_elem?-mem [] n l e = absurd (cc)
get_elem?-mem (x ∷ ls) zero l e = Memᴰ.head (ground arith)
get_elem?-mem (x ∷ ls) (suc n) l e = Memᴰ.tail (get_elem?-mem ls n l e)

pub get_elem?-in_range :
    (ls : List Lease) (n : ℕ) → n < length ls → (l : Lease) × (get_elem? ls n ≡ some l)
get_elem?-in_range [] n h = elim h [ ]
get_elem?-in_range (x ∷ ls) zero h = (x, refl)
get_elem?-in_range (x ∷ ls) (suc n) h = get_elem?-in_range ls n (omega arith)

-- Ranging over a map meets its entries and nothing else.
abbrev pub Ranges : (Dict (List Lease) → Dict (List Lease)) → Type 0
Ranges range = (m : Dict (List Lease)) (x : String × List Lease) → Memᴰ x (range m) ↔ Memᴰ x m

module _ (range : Dict (List Lease) → Dict (List Lease)) (ranges : Ranges range) where
  -- If ranging over a map meets exactly its entries, no owner has more candidates than the one
  -- that ownerWithMostLeases returns, and none has any if it returns nothing.
  pub owner_with_most_leases-largest :
      (cs : List Lease) (o : String)
      → length (owned_by o cs) ≤ size (owner_with_most_leases range cs)
  unfolding owner_with_most_leases
  owner_with_most_leases-largest cs o = elim (dec_lt 0 (length (owned_by o cs))) [
    | no few ↦ omega arith
    | yes some_ ↦
        largest_of-bounds none (range (leases_by_owner cs)) o (owned_by o cs)
          ((ranges (leases_by_owner cs) _).1 (owned-entry o cs (omega arith)))
  ]

  -- The owner that it returns has exactly the candidates that name it, and at least one.
  pub owner_with_most_leases-owned :
      (cs : List Lease) (w : OwnerCount)
      → owner_with_most_leases range cs ≡ some w
      → (w.leases ≡ owned_by w.owner cs) × (1 ≤ length w.leases)
  unfolding owner_with_most_leases
  owner_with_most_leases-owned cs w e =
      elim (largest_of-source none (range (leases_by_owner cs)) w e) [
        | inl absurd_ ↦ absurd (cc)
        | inr i ↦ entry-owned w.owner w.leases cs ((ranges (leases_by_owner cs) _).0 i)
      ]
