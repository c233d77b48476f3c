-- ===== src/Storage/Operations.antt =====
-- storage/storage.go: the Leaser's methods on the partitions, with the leaser's own map of leases.
use azure_event_hubs_go.Base.{String, Bool, true, false, Option, none, some, List, [], ◌∷◌, not}
use azure_event_hubs_go.Go.{Error, Result, ok, err, Call, ◌>>◌, lift}
use azure_event_hubs_go.Dict.{lookup, insert, delete}
use azure_event_hubs_go.Eph.Lease.{Reply, granted, failed, refused}
use azure_event_hubs_go.Storage.Blob.{StorageLease, is_leased, Service, Json}
use azure_event_hubs_go.Storage.Leaser.{
  LeaserCheckpointer, Event, not_found, get_lease, upload_lease, create_or_get_lease,
  collect_leases, claim,
}

-- A slice of so many nil pointers.
abbrev pub nils {ℓ} : {A : Type ℓ} → List String → List (Option A)
nils [] = []
nils (p ∷ ps) = none ∷ nils ps

module _ {C J W : Type 0} (service : Service J W) (json : Json C J) where
  unfoldable pub get_leases :
      List Event
      → LeaserCheckpointer C W
      → (List (Option (StorageLease C)) × Option Error) × LeaserCheckpointer C W
  unfolding collect_leases
  get_leases es sl =
      let (r, w) = collect_leases service json es 0 (nils sl.processor.partition_ids) sl.world in
      (r, record sl { world = w })

  unfoldable pub ensure_lease :
      String → LeaserCheckpointer C W → Result (StorageLease C) × LeaserCheckpointer C W
  unfolding create_or_get_lease
  ensure_lease p sl =
      let (r, w) = create_or_get_lease service json p sl.world in (r, record sl { world = w })

  unfoldable pub delete_lease :
      String → LeaserCheckpointer C W → Result (Unit {0}) × LeaserCheckpointer C W
  delete_lease p sl =
      let (r, w) = service.delete_blob p sl.world in
      (r, record sl { world = w; leases = delete p sl.leases })

  -- The end of AcquireLease: a lease that is claimed goes into the map.
  unfoldable pub keep_lease :
      String
      → Result (StorageLease C) × W
      → LeaserCheckpointer C W
      → Reply (StorageLease C) × LeaserCheckpointer C W
  keep_lease p (err e, w) sl = (failed e, record sl { world = w })
  keep_lease p (ok l, w) sl = (granted l, record sl { world = w; leases = insert p l sl.leases })

  -- `uuid` is what uuid.NewV4 returns. A lease that cannot be read is no error.
  unfoldable pub acquire_lease :
      String
      → Result String
      → LeaserCheckpointer C W
      → Reply (StorageLease C) × LeaserCheckpointer C W
  unfolding get_lease claim keep_lease
  acquire_lease p uuid sl =
      let (r, w) = get_lease service json p sl.world in
      elim r [
        | err e ↦ (refused, record sl { world = w })
        | ok l ↦ keep_lease p (claim service json p uuid sl.processor.name sl.lease_duration l w) sl
      ]

  unfoldable pub renew_lease :
      String → LeaserCheckpointer C W → Reply (StorageLease C) × LeaserCheckpointer C W
  renew_lease p sl = elim (lookup p sl.leases) [
    | none ↦ (failed not_found, sl)
    | some l ↦
        let (r, w) = service.renew_lease p l.token sl.world in
        elim r [
          | err e ↦ (failed e, record sl { world = w })
          | ok u ↦ (granted l, record sl { world = w })
        ]
  ]

  unfoldable pub release_lease :
      String → LeaserCheckpointer C W → (Bool × Option Error) × LeaserCheckpointer C W
  release_lease p sl = elim (lookup p sl.leases) [
    | none ↦ ((false, some not_found), sl)
    | some l ↦
        let (r, w) = service.release_lease p l.token sl.world in
        elim r [
          | err e ↦ ((false, some e), record sl { world = w })
          | ok u ↦ (
            (true, none),
            record sl {
              world = w;
              leases = delete p sl.leases;
              dirty_partitions = delete p sl.dirty_partitions;
            },
          )
        ]
  ]

  -- updateLease, on a lease of the map
  unfoldable pub renew_and_upload : String → StorageLease C → Call W (StorageLease C)
  unfolding upload_lease
  renew_and_upload p l = do service.renew_lease p l.token; upload_lease service json l; lift (ok l)

  unfoldable pub update_lease :
      String → LeaserCheckpointer C W → Reply (StorageLease C) × LeaserCheckpointer C W
  unfolding renew_and_upload
  update_lease p sl = elim (lookup p sl.leases) [
    | none ↦ (failed not_found, sl)
    | some l ↦
        let (r, w) = renew_and_upload p l sl.world in
        elim r [
          | err e ↦ (failed e, record sl { world = w })
          | ok l' ↦ (granted l', record sl { world = w })
        ]
  ]

  unfoldable pub is_expired : StorageLease C → Call W Bool
  unfolding get_lease
  is_expired l w =
      let (r, w') = get_lease service json l.partition_id w in
      elim r [ err e ↦ (ok false, w') | ok l' ↦ (ok (not (is_leased l'.state)), w') ]
