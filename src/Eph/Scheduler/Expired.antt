-- ===== src/Eph/Scheduler/Expired.antt =====
-- eph/scheduler.go: acquireExpiredLeases.
use azure_event_hubs_go.Base.{
  ℕ, ◌≤◌, ◌<◌, String, ◌≡◌, refl, true, false, ◌&&◌, List, [], ◌∷◌, ◌++◌, arith, ltb, length,
  length-append, map, Bool-cases, inl, inr, subst,
}
use mathlib.Core.List.{
  Perm, append_assoc, append-nil, map-append, perm_middle, perm_append_singleton,
}
use mathlib.Core.List.Perm
use azure_event_hubs_go.Go.{Result, ok, err}
use azure_event_hubs_go.Eph.Lease.{Lease}
use azure_event_hubs_go.Eph.Scheduler.Services.{Leaser, got, refused, broken, Attempt-cases}

abbrev pub greed : ℕ
greed = 15

pub record Acquired : Type 0 where
  pub acquired : List Lease
  pub not_acquired : List Lease

abbrev pub nothing : Acquired
nothing = record { acquired = []; not_acquired = [] }

abbrev pub keep : Lease → Acquired → Acquired
keep l a = record a { not_acquired = a.not_acquired ++ l ∷ [] }

abbrev pub gain : Lease → Acquired → Acquired
gain l a = record a { acquired = a.acquired ++ l ∷ [] }

module _ {W : Type 0} (leaser : Leaser W) where
  -- The loop over the leases that are left.
  unfoldable pub acquire_from : Acquired → List Lease → W → Result Acquired × W
  acquire_from a [] w = (ok a, w)
  acquire_from a (l ∷ ls) w =
      let (expired, w') = leaser.is_expired l w in
      elim (expired && ltb (length a.acquired) greed) [
        | false ↦ acquire_from (keep l a) ls w'
        | true ↦
            let (attempt, w'') = leaser.acquire_lease l.partition_id w' in
            elim attempt [
              | got l' ↦ acquire_from (gain l' a) ls w''
              | refused ↦ acquire_from (keep l a) ls w''
              | broken e ↦ (err e, w'')
            ]
      ]

  unfoldable pub acquire_expired_leases : List Lease → W → Result Acquired × W
  unfolding acquire_from
  acquire_expired_leases = acquire_from nothing

  -- One round of the loop: the lease is kept, or it had expired, there was room, and the leaser has
  -- granted it.
  pub data Round (a : Acquired) (l : Lease) (a' : Acquired) : Type 0 where
    kept : a' ≡ keep l a → Round a l a'
    gained :
        (v : W) (l' : Lease)
        → (leaser.is_expired l v).0 ≡ true
        → (leaser.acquire_lease l.partition_id (leaser.is_expired l v).1).0 ≡ got l'
        → length a.acquired < greed
        → a' ≡ gain l' a
        → Round a l a'

  pub acquire_from-Round :
      (a b : Acquired) (l : Lease) (ls : List Lease) (w : W)
      → (acquire_from a (l ∷ ls) w).0 ≡ ok b
      → (a' : Acquired) × (w' : W) × Round a l a' × ((acquire_from a' ls w').0 ≡ ok b)
  unfolding acquire_from
  acquire_from-Round a b l ls w e =
      let expired = leaser.is_expired l w in
      let attempt = leaser.acquire_lease l.partition_id expired.1 in
      elim (Bool-cases (expired.0 && ltb (length a.acquired) greed)) [
        | inr passed_by ↦ (keep l a, expired.1, kept refl, ground arith)
        | inl tried ↦ elim (Attempt-cases attempt.0) [
          | inl (l', granted) ↦ (
            gain l' a,
            attempt.1,
            gained w l' (ground arith) granted (ground arith) refl,
            ground arith,
          )
          | inr (inl no_) ↦ (keep l a, attempt.1, kept refl, ground arith)
          | inr (inr (x, failed)) ↦ absurd (ground arith)
        ]
      ]

  Round-le-greed :
      {a a' : Acquired} {l : Lease}
      → Round a l a'
      → length a.acquired ≤ greed
      → length a'.acquired ≤ greed
  Round-le-greed {a} (kept e) h = rw e h
  Round-le-greed {a} (gained v l' x y room e) h =
      rw e (omega (arith, length-append a.acquired (l' ∷ [])))

  acquire_from-le-greed :
      (a b : Acquired) (ls : List Lease) (w : W)
      → (acquire_from a ls w).0 ≡ ok b
      → length a.acquired ≤ greed
      → length b.acquired ≤ greed
  acquire_from-le-greed a b [] w e h = unfold acquire_from in ground arith
  acquire_from-le-greed a b (l ∷ ls) w e h =
      let (a', w', round, rest) = acquire_from-Round a b l ls w e in
      acquire_from-le-greed a' b ls w' rest (Round-le-greed round h)

module _ {W : Type 0} (leaser : Leaser W) where
  pub acquire_expired_leases-le-greed :
      (ls : List Lease) (w : W) (b : Acquired)
      → (acquire_expired_leases leaser ls w).0 ≡ ok b
      → length b.acquired ≤ greed
  unfolding acquire_expired_leases
  acquire_expired_leases-le-greed ls w b e =
      acquire_from-le-greed leaser nothing b ls w e (omega arith)

abbrev pub id_of : Lease → String
id_of l = l.partition_id

abbrev pub ids : Acquired → List String
ids a = map id_of a.acquired ++ map id_of a.not_acquired

ids-keep : (l : Lease) (a : Acquired) → ids (keep l a) ≡ ids a ++ l.partition_id ∷ []
ids-keep l a = simp (map-append, append_assoc)

ids-gain :
    (l : Lease) (a : Acquired)
    → ids (gain l a) ≡ map id_of a.acquired ++ l.partition_id ∷ map id_of a.not_acquired
ids-gain l a = simp (map-append, append_assoc)

module _ {W : Type 0} (leaser : Leaser W)
    (same : (p : String) (w : W) (l : Lease)
      → (leaser.acquire_lease p w).0 ≡ got l
      → l.partition_id ≡ p) where
  Round-ids :
      {a a' : Acquired} {l : Lease} → Round leaser a l a' → Perm (ids a') (l.partition_id ∷ ids a)
  Round-ids {a} {a'} {l} (kept e) =
      rw e (rw (ids-keep l a) (perm_append_singleton l.partition_id (ids a)))
  Round-ids {a} {a'} {l} (gained v l' x y room e) = rw e (
      rw (ids-gain l' a)
        (rw (same l.partition_id (leaser.is_expired l v).1 l' y) (perm_middle _ _)))

  acquire_from-ids :
      (a b : Acquired) (ls : List Lease) (w : W)
      → (acquire_from leaser a ls w).0 ≡ ok b
      → Perm (ids b) (map id_of ls ++ ids a)
  acquire_from-ids a b [] w e =
      let done : a ≡ b = unfold acquire_from in ground arith in rw done (Perm.refl (ids b))
  acquire_from-ids a b (l ∷ ls) w e =
      let (a', w', round, rest) = acquire_from-Round leaser a b l ls w e in
      Perm.trans (acquire_from-ids a' b ls w' rest)
        (Perm.trans (Perm.append_left (map id_of ls) (Round-ids round)) (perm_middle _ _))

  -- If the leaser grants only leases of the partition that it is asked for, and
  -- acquireExpiredLeases returns without an error, then each partition of its leases is on one
  -- of its two lists, and at most greed leases are on the first.
  pub acquire_expired_leases-divides :
      (ls : List Lease) (w : W) (b : Acquired)
      → (acquire_expired_leases leaser ls w).0 ≡ ok b
      → Perm (map id_of b.acquired ++ map id_of b.not_acquired) (map id_of ls)
        × (length b.acquired ≤ greed)
  unfolding acquire_expired_leases
  acquire_expired_leases-divides ls w b e = (
    subst (λ x. Perm (ids b) x) (append-nil (map id_of ls)) (acquire_from-ids nothing b ls w e),
    acquire_expired_leases-le-greed leaser ls w b e,
  )
