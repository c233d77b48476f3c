-- ===== src/Eph/Memory/Entry.antt =====
-- The store of eph/memory.go seen entry by entry: every method that writes is a compare-and-set of
-- the entry of its key.
use azure_event_hubs_go.Base.{
  ℕ, ◌+◌, ◌-◌, String, ◌≡◌, ◌⊎◌, inl, inr, Bool, true, false, none, some, arith, ◌==◌,
  if◌then◌else◌, Option-cases, Bool-cases,
}
use azure_event_hubs_go.Go.{second}
use azure_event_hubs_go.Dict.{lookup-insert, insert-insert}
use azure_event_hubs_go.Eph.Memory.Store.{
  SharedStore, StoreLease, MemoryLease, find, write, is_free, change_lease, release_lease,
  renew_lease, acquire_lease, store_lease,
}

module _ {C : Type 0} where
  pub find-write :
      (p j : String) (l old : StoreLease C) (s : SharedStore C)
      → find p s ≡ some old
      → find j (write p l s) ≡ (if p == j then some l else find j s)
  find-write p j l old s h = elim (Option-cases s.leases) [
    | inl e ↦ ground arith
    | inr (m, e) ↦ ground (arith, lookup-insert p j l m)
  ]

  pub write-write :
      (p : String) (l k : StoreLease C) (s : SharedStore C) → write p l (write p k s) ≡ write p l s
  write-write p l k s = elim (Option-cases s.leases) [
    | inl e ↦ ground arith
    | inr (m, e) ↦ ground (arith, insert-insert p l k m)
  ]

  -- The result r of the store s is that of setting the entry of p by f if it passes the test:
  -- either there is no such entry and nothing changes, or that entry alone does.
  pub data Sets (test : StoreLease C → Bool) (f : StoreLease C → StoreLease C) (p : String)
      (s : SharedStore C) (r : SharedStore C × Bool) : Type 0 where
    refused :
        find p s ≡ none ⊎ ((l : StoreLease C) × (find p s ≡ some l) × (test l ≡ false))
        → r ≡ (s, false)
        → Sets test f p s r
    changed :
        (l : StoreLease C)
        → find p s ≡ some l
        → test l ≡ true
        → r.1 ≡ true
        → ((j : String) → find j r.0 ≡ (if p == j then some (f l) else find j s))
        → Sets test f p s r

  sets_by :
      (test : StoreLease C → Bool) (f : StoreLease C → StoreLease C) (p : String)
      (s : SharedStore C)
      → Sets test f p s (elim (find p s) [
        | none ↦ (s, false)
        | some l ↦ if test l then (write p (f l) s, true) else (s, false)
      ])
  sets_by test f p s = elim (Option-cases (find p s)) [
    | inl e ↦ refused (inl e) (rw e)
    | inr (l, e) ↦ elim (Bool-cases (test l)) [
      | inl yes_ ↦
          changed l e yes_ (ground arith) (λ j. rw e (rw yes_ (find-write p j (f l) l s e)))
      | inr no_ ↦ refused (inr (l, e, no_)) (rw e (rw no_))
    ]
  ]

  -- changeLease, releaseLease, renewLease, acquireLease and storeLease are compare-and-sets of
  -- the entry of their key: if the entry is missing or fails the test (it has the token that is
  -- named; for acquireLease, it is free) the answer is false and the store is as before; else
  -- the answer is true and that entry alone is changed, in the way given.
  pub store-Sets :
      (p new old : String) (ml : MemoryLease C) (duration tested now : ℕ) (s : SharedStore C)
      → Sets
          (λ l. l.token == old)
          (λ l. record l { token = new; expiration = now + duration })
          p
          s
          (change_lease p new old duration now s)
        × Sets
            (λ l. l.token == old)
            (λ l. record l { token = ""; expiration = now - second })
            p
            s
            (release_lease p old now s)
        × Sets
            (λ l. l.token == old)
            (λ l. record l { expiration = now + duration })
            p
            s
            (renew_lease p old duration now s)
        × Sets
            (is_free tested)
            (λ l. record l { token = new; expiration = now + duration })
            p
            s
            (acquire_lease p new duration tested now s)
        × Sets (λ l. l.token == old) (λ l. record l { ml = some ml }) p s (store_lease p old ml s)
  unfolding change_lease release_lease renew_lease acquire_lease store_lease
  store-Sets p new old ml duration tested now s =
      (sets_by _ _ p s, sets_by _ _ p s, sets_by _ _ p s, sets_by _ _ p s, sets_by _ _ p s)
