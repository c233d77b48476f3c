-- ===== src/Eph/Memory/Acquire.antt =====
-- AcquireLease, RenewLease and ReleaseLease of eph/memory.go, each on all of its branches, and what
-- they mean for two hosts that share a store.
use azure_event_hubs_go.Base.{
  ℕ, ◌+◌, ◌-◌, String, ◌≡◌, ◌≢◌, refl, Bool, true, false, none, some, arith, ◌∙◌, ◌==◌, eq_iff,
  eq-false, if◌then◌else◌,
}
use azure_event_hubs_go.Go.{returned, errors_new, ok, second}
use azure_event_hubs_go.Dict.{lookup, insert, lookup-delete_self, lookup-insert_self}
use azure_event_hubs_go.Eph.Lease.{granted, failed}
use azure_event_hubs_go.Eph.Memory.Store.{StoreLease, MemoryLease, find, write, is_free, is_leased}
use azure_event_hubs_go.Eph.Memory.Entry.{find-write, write-write}
use azure_event_hubs_go.Eph.Memory.Leaser.{
  MemoryLeaser, Processor, Readings, seize, take_ownership, claim, acquire_lease, renew_lease,
  release_lease, update_lease, not_found,
}
use azure_event_hubs_go.Eph.Memory.Checkpointer.{update_checkpoint}

module _ {C : Type 0} (p new : String) (t : Readings) (ml : MemoryLeaser C) (e : StoreLease C)
    (l : MemoryLease C) (h : Processor) where
  -- Whether AcquireLease gets a lease whose entry of the store is e.
  abbrev pub wins : Bool
  wins = if is_free t.checked e then is_free t.tested e else (e.token == l.token)

  abbrev pub won : MemoryLeaser C
  won = record ml {
    store =
        write p
          (record {
            token = new;
            expiration = t.now + ml.lease_duration;
            ml = some (take_ownership new h.name l);
          })
          ml.store;
    leases = insert p (take_ownership new h.name l) ml.leases;
  }

  abbrev pub lost : String
  lost = if is_free t.checked e then "failed to acquire lease" else "failed to change lease"

  seize-cases :
      find p ml.store ≡ some e
      → seize p new l.token ml.lease_duration t ml.store ≡ (
          if wins
          then (
            write p (record e { token = new; expiration = t.now + ml.lease_duration }) ml.store,
            none,
          )
          else (ml.store, some (errors_new lost)))
  unfolding seize
  seize-cases held = ground arith

  -- From the drawing of the token on, whatever lease l was read before and whatever the store's
  -- entry holds by now.
  pub claim-cases :
      find p ml.store ≡ some e
      → ml.processor ≡ some h
      → claim p new l t ml ≡ (
          if wins
          then (returned (granted (take_ownership new h.name l)), won)
          else (returned (failed (errors_new lost)), ml))
  unfolding claim
  claim-cases held host =
      let taken = record e { token = new; expiration = t.now + ml.lease_duration } in
      ground (
        arith,
        find-write p p taken e ml.store held,
        write-write p (record taken { ml = some (take_ownership new h.name l) }) taken ml.store,
        eq_iff p p,
        eq_iff new new,
      )

  -- For an entry with a lease and a leaser with a processor, AcquireLease wins an entry that is
  -- free by its new token, and one that is leased by naming the token of the lease that it read;
  -- otherwise it fails with an error and changes nothing.
  pub acquire_lease-cases :
      find p ml.store ≡ some e
      → e.ml ≡ some l
      → ml.processor ≡ some h
      → acquire_lease p (ok new) t ml ≡ (
          if wins
          then (returned (granted (take_ownership new h.name l)), won)
          else (returned (failed (errors_new lost)), ml))
  unfolding acquire_lease
  acquire_lease-cases held has host = ground (arith, claim-cases held host)

module _ {C : Type 0} where
  -- A leaser whose own lease of p has another token than the entry of the store has lost the
  -- partition: it cannot renew, release or update the lease, and its checkpoints do not reach
  -- the store.
  pub stale-refused :
      (p : String) (now : ℕ) (c : C) (a : MemoryLeaser C) (e : StoreLease C) (l : MemoryLease C)
      → find p a.store ≡ some e
      → lookup p a.leases ≡ some l
      → e.token ≢ l.token
      → (renew_lease p now a ≡ (failed (errors_new "unable to renew lease"), a))
        × (release_lease p now a ≡ ((false, some (errors_new "could not release the lease")), a))
        × (update_lease p now a ≡ (failed (errors_new "unable to renew lease"), a))
        × ((update_checkpoint p c a).0
            ≡ some (errors_new "could not store lease on update of checkpoint"))
        × ((update_checkpoint p c a).1.store ≡ a.store)
  unfolding renew_lease release_lease update_lease update_checkpoint
  stale-refused p now c a e l held mine differ = ground (arith, eq-false e.token l.token differ)

  -- A leaser whose own lease has the token of the store's entry renews it for its duration from
  -- now, and the checkpoints that it writes reach the store.
  pub holder-renews :
      (p : String) (now : ℕ) (c : C) (a : MemoryLeaser C) (e : StoreLease C) (l : MemoryLease C)
      → find p a.store ≡ some e
      → lookup p a.leases ≡ some l
      → e.token ≡ l.token
      → ((renew_lease p now a).0 ≡ granted l)
        × (find p (renew_lease p now a).1.store
            ≡ some (record e { expiration = now + a.lease_duration }))
        × ((update_checkpoint p c a).0 ≡ none)
        × (find p (update_checkpoint p c a).1.store
            ≡ some (record e { ml = some (record l { checkpoint = some c }) }))
  unfolding renew_lease update_checkpoint
  holder-renews p now c a e l held mine same = ground (
    arith,
    eq_iff e.token l.token,
    find-write p p (record e { expiration = now + a.lease_duration }) e a.store held,
    find-write p p (record e { ml = some (record l { checkpoint = some c }) }) e a.store held,
    eq_iff p p,
  )

  -- ReleaseLease by the leaser whose lease has the token of the store's entry: it succeeds, the
  -- lease counts as not leased from then on, for every reading of the clock, and the leaser has
  -- forgotten it, so that it cannot renew it.
  pub release_lease-frees :
      (p : String) (now later : ℕ) (a : MemoryLeaser C) (e : StoreLease C) (l : MemoryLease C)
      → find p a.store ≡ some e
      → lookup p a.leases ≡ some l
      → e.token ≡ l.token
      → let (r, b) = release_lease p now a in
        (r ≡ (true, none))
        × (is_leased p later b.store ≡ false)
        × (lookup p b.leases ≡ none)
        × ((renew_lease p later b).0 ≡ failed not_found)
  unfolding release_lease renew_lease is_leased
  release_lease-frees p now later a e l held mine same = ground (
    arith,
    eq_iff e.token l.token,
    find-write p p (record e { token = ""; expiration = now - second }) e a.store held,
    eq_iff p p,
    eq_iff "" "",
    lookup-delete_self p a.leases,
  )

  -- When the entry of a partition is free, or has the token that host b has read, and b calls
  -- AcquireLease, a host a that shares the store and has a lease under another token than the
  -- new one has lost the partition: a cannot renew or release it and its checkpoints do not
  -- reach the store, while b can renew it.
  pub acquire_lease-revokes :
      (p new : String) (t : Readings) (later : ℕ) (c : C) (a b : MemoryLeaser C) (e : StoreLease C)
      (l mine : MemoryLease C) (h : Processor)
      → find p b.store ≡ some e
      → e.ml ≡ some l
      → b.processor ≡ some h
      → wins p new t b e l h ≡ true
      → lookup p a.leases ≡ some mine
      → new ≢ mine.token
      → let b' = (acquire_lease p (ok new) t b).1 in
        let a' = record a { store = b'.store } in
        (renew_lease p later a' ≡ (failed (errors_new "unable to renew lease"), a'))
        × (release_lease p later a'
            ≡ ((false, some (errors_new "could not release the lease")), a'))
        × ((update_checkpoint p c a').1.store ≡ b'.store)
        × ((renew_lease p later b').0 ≡ granted (take_ownership new h.name l))
  unfolding take_ownership
  acquire_lease-revokes p new t later c a b e l mine h held has host win own differ =
      rw (acquire_lease-cases p new t b e l h held has host) (
        rw win (
          let taken : StoreLease C = record {
            token = new;
            expiration = t.now + b.lease_duration;
            ml = some (take_ownership new h.name l);
          } in
          let b' = won p new t b e l h in
          let entry : find p b'.store ≡ some taken =
            find-write p p taken e b.store held ∙ ground (arith, eq_iff p p) in
          let lost_ =
            stale-refused p later c (record a { store = b'.store }) taken mine entry own differ in
          let kept =
            holder-renews p later c b' taken (take_ownership new h.name l) entry
              (lookup-insert_self p _ b.leases) refl in
          (lost_.0, lost_.1, lost_.4, kept.0)))
