-- ===== src/Eph/Memory/Carries.antt =====
-- Which leases, under which tokens, the calls of eph/memory.go leave in a host's own map.
use azure_event_hubs_go.Base.{
  ℕ, String, ◌≡◌, refl, ◌⊎◌, inl, inr, some, arith, ◌==◌, eq_iff, Option-cases, Bool-cases,
}
use azure_event_hubs_go.Dict.{Dict, lookup, insert, lookup-insert, lookup-delete}
use azure_event_hubs_go.Eph.Memory.Store.{MemoryLease}
use azure_event_hubs_go.Eph.Memory.Leaser.{
  MemoryLeaser, publish, ensure_lease, delete_lease, renew_lease, release_lease, update_lease,
}
use azure_event_hubs_go.Eph.Memory.Checkpointer.{ensure_checkpoint, set_checkpoint}

module _ {C : Type 0} where
  -- Each lease of the new map stands for one of the old map under the same key and token.
  abbrev pub Carries : Dict (MemoryLease C) → Dict (MemoryLease C) → Type 0
  Carries old new =
      (q : String) (l : MemoryLease C)
      → lookup q new ≡ some l
      → (k : MemoryLease C) × (lookup q old ≡ some k) × (l.token ≡ k.token)

  Carries-refl : (m : Dict (MemoryLease C)) → Carries m m
  Carries-refl m q l e = (l, e, refl)

  Carries-insert :
      (p : String) (k : MemoryLease C) (l : MemoryLease C) (m : Dict (MemoryLease C))
      → lookup p m ≡ some k
      → l.token ≡ k.token
      → Carries m (insert p l m)
  Carries-insert p k l m held same q j e = elim (Bool-cases (p == q)) [
    | inl here_ ↦ (k, ground (arith, eq_iff p q), ground (arith, lookup-insert p q l m))
    | inr other ↦ (j, ground (arith, lookup-insert p q l m), refl)
  ]

  pub renew_lease-Carries :
      (p : String) (now : ℕ) (ml : MemoryLeaser C)
      → Carries ml.leases (renew_lease p now ml).1.leases
  unfolding renew_lease
  renew_lease-Carries p now ml q l e = (l, ground arith, refl)

  pub release_lease-Carries :
      (p : String) (now : ℕ) (ml : MemoryLeaser C)
      → Carries ml.leases (release_lease p now ml).1.leases
  unfolding release_lease
  release_lease-Carries p now ml q l e = (l, ground (arith, lookup-delete p q ml.leases), refl)

  pub update_lease-Carries :
      (p : String) (now : ℕ) (ml : MemoryLeaser C)
      → Carries ml.leases (update_lease p now ml).1.leases
  unfolding update_lease
  update_lease-Carries p now ml q l e = (l, ground arith, refl)

  pub ensure_lease-Carries :
      (p : String) (ml : MemoryLeaser C) → Carries ml.leases (ensure_lease p ml).1.leases
  unfolding ensure_lease
  ensure_lease-Carries p ml q l e = (l, ground arith, refl)

  pub ensure_checkpoint-Carries :
      (p : String) (c : C) (ml : MemoryLeaser C)
      → Carries ml.leases (ensure_checkpoint c p ml).1.leases
  unfolding ensure_checkpoint
  ensure_checkpoint-Carries p c ml = elim (Option-cases (lookup p ml.leases)) [
    | inl e ↦ rw (e, ensure_checkpoint) (Carries-refl ml.leases)
    | inr (k, e) ↦ elim (Option-cases k.checkpoint) [
      | inl empty ↦
          rw (e, ensure_checkpoint)
            (rw (empty, ensure_checkpoint) (Carries-insert p k _ ml.leases e refl))
      | inr (d, full) ↦
          rw (e, ensure_checkpoint) (rw (full, ensure_checkpoint) (Carries-refl ml.leases))
    ]
  ]

  pub set_checkpoint-Carries :
      (p : String) (c : C) (refused : String) (ml : MemoryLeaser C)
      → Carries ml.leases (set_checkpoint p c refused ml).1.leases
  unfolding set_checkpoint
  set_checkpoint-Carries p c refused ml = elim (Option-cases (lookup p ml.leases)) [
    | inl e ↦ rw (e, set_checkpoint) (Carries-refl ml.leases)
    | inr (k, e) ↦ rw (e, set_checkpoint) (Carries-insert p k _ ml.leases e refl)
  ]

  pub delete_lease-Carries :
      (p : String) (ml : MemoryLeaser C) → Carries ml.leases (delete_lease p ml).leases
  unfolding delete_lease
  delete_lease-Carries p ml q l e = (l, e, refl)

  -- A lease that publish adds has the new token.
  pub publish-Carries :
      (p new : String) (k : MemoryLease C) (ml : MemoryLeaser C) (q : String) (l : MemoryLease C)
      → lookup q (publish p new k ml).1.leases ≡ some l
      → (lookup q ml.leases ≡ some l) ⊎ (l ≡ k)
  unfolding publish
  publish-Carries p new k ml q l e = ground (arith, lookup-insert p q k ml.leases)
