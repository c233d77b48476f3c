-- ===== src/Eph/Scheduler/Groups.antt =====
-- leasesByOwner and ownerWithMostLeases of eph/scheduler.go against a direct description: the
-- leases of an owner are those candidates that name it.
use azure_event_hubs_go.Base.{
  ◌≤◌, String, ◌≡◌, refl, Option, none, some, List, [], ◌∷◌, ◌++◌, arith, ◌==◌, eq_iff,
  if◌then◌else◌, length, Memᴰ, Option-cases, inl, ◌∙◌, ap, Bool-cases, inr,
}
use azure_event_hubs_go.Dict.Entries.{IsMap, insert-IsMap, lookup-mem, mem-lookup}
use mathlib.Core.List.{append_assoc, append-nil}
use azure_event_hubs_go.Dict.{Dict, lookup, lookup-insert}
use azure_event_hubs_go.Eph.Lease.{Lease}
use azure_event_hubs_go.Eph.Scheduler.Balance.{add_candidate, group, leases_by_owner}

-- The candidates of an owner, in order.
abbrev pub owned_by : String → List Lease → List Lease
owned_by o [] = []
owned_by o (c ∷ cs) = if c.owner == o then c ∷ owned_by o cs else owned_by o cs

abbrev pub nonempty : List Lease → Option (List Lease)
nonempty [] = none
nonempty (c ∷ cs) = some (c ∷ cs)

abbrev extend : Option (List Lease) → List Lease → Option (List Lease)
extend none cs = nonempty cs
extend (some ls) cs = some (ls ++ cs)

abbrev or_empty : Option (List Lease) → List Lease
or_empty none = []
or_empty (some ls) = ls

lookup-add_candidate :
    (o : String) (m : Dict (List Lease)) (c : Lease)
    → lookup o (add_candidate m c)
      ≡ (if c.owner == o then some (or_empty (lookup o m) ++ c ∷ []) else lookup o m)
unfolding add_candidate
lookup-add_candidate o m c = elim (Option-cases (lookup c.owner m)) [
  | inl e ↦ ground (arith, eq_iff c.owner o, lookup-insert c.owner o (c ∷ []) m)
  | inr (ls, e) ↦ ground (arith, eq_iff c.owner o, lookup-insert c.owner o (ls ++ c ∷ []) m)
]

extend-snoc :
    (o : Option (List Lease)) (c : Lease) (cs : List Lease)
    → extend (some (or_empty o ++ c ∷ [])) cs ≡ extend o (c ∷ cs)
extend-snoc none c cs = refl
extend-snoc (some ls) c cs = ap (λ (x : List Lease). some x) (append_assoc ls (c ∷ []) cs)

lookup-group :
    (o : String) (m : Dict (List Lease)) (cs : List Lease)
    → lookup o (group m cs) ≡ extend (lookup o m) (owned_by o cs)
unfolding group
lookup-group o m [] = ground (arith, append-nil (or_empty (lookup o m)))
lookup-group o m (c ∷ cs) = rw (lookup-group o (add_candidate m c) cs) (
    rw (lookup-add_candidate o m c) (elim (Bool-cases (c.owner == o)) [
      | inl e ↦ rw e (extend-snoc (lookup o m) c (owned_by o cs))
      | inr e ↦ rw e
    ]))

-- leasesByOwner maps an owner to the candidates that name it, in their order, and no other text.
pub lookup-leases_by_owner :
    (o : String) (cs : List Lease) → lookup o (leases_by_owner cs) ≡ nonempty (owned_by o cs)
unfolding leases_by_owner lookup
lookup-leases_by_owner o cs = lookup-group o [] cs

group-IsMap : (m : Dict (List Lease)) (cs : List Lease) → IsMap m → IsMap (group m cs)
unfolding group
group-IsMap m [] h = h
group-IsMap m (c ∷ cs) h = group-IsMap (add_candidate m c) cs (added (lookup c.owner m) refl)
  where
    added : (o : Option (List Lease)) → lookup c.owner m ≡ o → IsMap (add_candidate m c)
    added none e = rw (e, add_candidate) (insert-IsMap c.owner _ m h)
    added (some ls) e = rw (e, add_candidate) (insert-IsMap c.owner _ m h)

pub leases_by_owner-IsMap : (cs : List Lease) → IsMap (leases_by_owner cs)
unfolding leases_by_owner
leases_by_owner-IsMap cs = group-IsMap [] cs tt

-- An entry of the map is an owner with all of its candidates, and at least one.
pub entry-owned :
    (o : String) (ls cs : List Lease)
    → Memᴰ (o, ls) (leases_by_owner cs)
    → (ls ≡ owned_by o cs) × (1 ≤ length ls)
entry-owned o ls cs i =
    let found = lookup-mem o ls (leases_by_owner cs) (leases_by_owner-IsMap cs) i in
    let listed = lookup-leases_by_owner o cs in ground arith

-- Each owner that a candidate names has an entry.
pub owned-entry :
    (o : String) (cs : List Lease)
    → 1 ≤ length (owned_by o cs)
    → Memᴰ (o, owned_by o cs) (leases_by_owner cs)
owned-entry o cs h =
    mem-lookup o (owned_by o cs) (leases_by_owner cs) (lookup-leases_by_owner o cs ∙ ground arith)
