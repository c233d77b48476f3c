-- ===== src/Eph/Memory/Leaser.antt =====
-- eph/memory.go: memoryLeaserCheckpointer as a Leaser. A method runs under the leaser's mutex.
-- Spans and logs are left out. The lease that a method returns is the one that the leaser keeps;
-- its clients read only fields that no later call writes, so it is returned by value.
use azure_event_hubs_go.Base.{
  ℕ, String, Bool, true, false, Option, none, some, List, [], ◌∷◌, if◌then◌else◌,
}
use azure_event_hubs_go.Go.{
  returned, panicked, Method, Error, errors_new, Result, ok, err, or_panic,
}
use azure_event_hubs_go.Dict.{Dict, lookup, insert, delete}
use azure_event_hubs_go.Eph.Lease.{increment_epoch, Reply, granted, failed}
use azure_event_hubs_go.Eph.Memory.Store
use azure_event_hubs_go.Eph.Memory.Store.{SharedStore, MemoryLease}

-- What the leaser reads of its EventProcessorHost.
pub record Processor : Type 0 where
  pub name : String
  pub partition_ids : List String

-- The store is the target of a pointer that the leasers of a process share.
pub record MemoryLeaser (C : Type 0) : Type 0 where
  pub store : SharedStore C
  pub processor : Option Processor
  pub lease_duration : ℕ
  pub leases : Dict (MemoryLease C)

-- The clock as AcquireLease reads it: in isLeased, in the test of acquireLease, and for the new
-- expiration.
pub record Readings : Type 0 where
  pub checked : ℕ
  pub tested : ℕ
  pub now : ℕ

abbrev pub not_found : Error
not_found = errors_new "lease was not found"

module _ {C : Type 0} where
  unfoldable pub new_memory_leaser_checkpointer : ℕ → SharedStore C → MemoryLeaser C
  new_memory_leaser_checkpointer duration s = record {
    store = s;
    processor = none;
    lease_duration = duration;
    leases = [];
  }

  unfoldable pub set_event_host_processor : Processor → MemoryLeaser C → MemoryLeaser C
  set_event_host_processor h ml = record ml { processor = some h }

  unfoldable pub store_exists : MemoryLeaser C → Bool
  unfolding Store.exists
  store_exists ml = Store.exists ml.store

  unfoldable pub ensure_store : MemoryLeaser C → MemoryLeaser C
  unfolding Store.ensure
  ensure_store ml = record ml { store = (Store.ensure ml.store).0 }

  unfoldable pub delete_store : MemoryLeaser C → MemoryLeaser C
  unfolding ensure_store
  delete_store ml = ensure_store ml

  -- The loop of GetLeases; `none` is its panic at a partition without a lease.
  unfoldable pub read_leases : List String → SharedStore C → Option (List (MemoryLease C))
  unfolding Store.get_lease
  read_leases [] s = some []
  read_leases (p ∷ ps) s = elim (Store.get_lease p s) [
    | none ↦ none
    | some l ↦ elim (read_leases ps s) [ none ↦ none | some ls ↦ some (l ∷ ls) ]
  ]

  unfoldable pub get_leases : Method (MemoryLeaser C) (List (MemoryLease C))
  get_leases ml = elim ml.processor [
    | none ↦ (panicked, ml)
    | some h ↦ elim (read_leases h.partition_ids ml.store) [
      | none ↦ (panicked, ml)
      | some ls ↦ (returned ls, ml)
    ]
  ]

  unfoldable pub ensure_lease : String → Method (MemoryLeaser C) (MemoryLease C)
  unfolding Store.create_or_get_lease
  ensure_lease p ml =
      let (l, s) = Store.create_or_get_lease p ml.store in or_panic l (record ml { store = s })

  unfoldable pub delete_lease : String → MemoryLeaser C → MemoryLeaser C
  unfolding Store.delete_lease
  delete_lease p ml = record ml { store = Store.delete_lease p ml.store }

  abbrev pub or_error : SharedStore C × Bool → String → SharedStore C × Option Error
  or_error (s, true) e = (s, none)
  or_error (s, false) e = (s, some (errors_new e))

  -- AcquireLease: the change of the token in the store, by either of two ways.
  unfoldable pub seize :
      String → String → String → ℕ → Readings → SharedStore C → SharedStore C × Option Error
  unfolding Store.is_leased Store.change_lease Store.acquire_lease
  seize p new_token old_token duration t s =
      if Store.is_leased p t.checked s
      then or_error (Store.change_lease p new_token old_token duration t.now s)
          "failed to change lease"
      else or_error (Store.acquire_lease p new_token duration t.tested t.now s)
          "failed to acquire lease"

  -- AcquireLease: the lease as its new owner has it.
  unfoldable pub take_ownership : String → String → MemoryLease C → MemoryLease C
  unfolding increment_epoch
  take_ownership new_token name l = record l {
    token = new_token;
    lease = increment_epoch (record l.lease { owner = name });
  }

  -- AcquireLease: the lease goes into the store and into the leaser's own map.
  unfoldable pub publish :
      String → String → MemoryLease C → Method (MemoryLeaser C) (Reply (MemoryLease C))
  unfolding Store.store_lease
  publish p new_token l ml =
      let (s, done) = Store.store_lease p new_token l ml.store in
      if done
      then (returned (granted l), record ml { store = s; leases = insert p l ml.leases })
      else (
        returned (failed (errors_new "failed to store lease after acquiring or changing")),
        record ml { store = s },
      )

  -- AcquireLease from the drawing of the new token on; reading the name of a nil processor panics.
  unfoldable pub claim :
      String → String → MemoryLease C → Readings → Method (MemoryLeaser C) (Reply (MemoryLease C))
  unfolding seize take_ownership publish
  claim p new_token l t ml =
      let (s, error) = seize p new_token l.token ml.lease_duration t ml.store in
      elim error [
        | some e ↦ (returned (failed e), record ml { store = s })
        | none ↦ elim ml.processor [
          | none ↦ (panicked, record ml { store = s })
          | some h ↦
              publish p new_token (take_ownership new_token h.name l) (record ml { store = s })
        ]
      ]

  -- `uuid` is what uuid.NewV4 returns.
  unfoldable pub acquire_lease :
      String → Result String → Readings → Method (MemoryLeaser C) (Reply (MemoryLease C))
  unfolding Store.get_lease
  acquire_lease p uuid t ml = elim (Store.get_lease p ml.store) [
    | none ↦ (panicked, ml)
    | some l ↦ elim uuid [
      | err e ↦ (returned (failed e), ml)
      | ok new_token ↦ claim p new_token l t ml
    ]
  ]

  unfoldable pub renew_lease : String → ℕ → MemoryLeaser C → Reply (MemoryLease C) × MemoryLeaser C
  unfolding Store.renew_lease
  renew_lease p now ml = elim (lookup p ml.leases) [
    | none ↦ (failed not_found, ml)
    | some l ↦
        let (s, done) = Store.renew_lease p l.token ml.lease_duration now ml.store in
        if done
        then (granted l, record ml { store = s })
        else (failed (errors_new "unable to renew lease"), record ml { store = s })
  ]

  unfoldable pub release_lease :
      String → ℕ → MemoryLeaser C → (Bool × Option Error) × MemoryLeaser C
  unfolding Store.release_lease
  release_lease p now ml = elim (lookup p ml.leases) [
    | none ↦ ((false, some not_found), ml)
    | some l ↦
        let (s, done) = Store.release_lease p l.token now ml.store in
        if done
        then ((true, none), record ml { store = s; leases = delete p ml.leases })
        else ((false, some (errors_new "could not release the lease")), record ml { store = s })
  ]

  unfoldable pub update_lease : String → ℕ → MemoryLeaser C → Reply (MemoryLease C) × MemoryLeaser C
  unfolding Store.renew_lease Store.store_lease
  update_lease p now ml = elim (lookup p ml.leases) [
    | none ↦ (failed not_found, ml)
    | some l ↦
        let (s, renewed) = Store.renew_lease p l.token ml.lease_duration now ml.store in
        let (s', stored) = Store.store_lease p l.token l s in
        if renewed
        then (if stored then (granted l, record ml { store = s' }) else (
          failed (errors_new "unable to store lease after renewal"),
          record ml { store = s' },
        ))
        else (failed (errors_new "unable to renew lease"), record ml { store = s })
  ]
