-- ===== src/Storage/Written.antt =====
-- How a checkpoint reaches its blob, and what a release of the lease forgets.
use azure_event_hubs_go.Base.{◌≡◌, inl, inr, String, none, some, true, arith, Option-cases}
use azure_event_hubs_go.Go.{ok, err, Result-cases}
use azure_event_hubs_go.Dict.{lookup, lookup-insert_self, lookup-delete_self}
use azure_event_hubs_go.Eph.Lease.{failed}
use azure_event_hubs_go.Storage.Blob.{StorageLease, Service, Json, lease_id}
use azure_event_hubs_go.Storage.Leaser.{LeaserCheckpointer, not_found, upload_lease}
use azure_event_hubs_go.Storage.Operations.{
  renew_and_upload, update_lease, release_lease, renew_lease,
}
use azure_event_hubs_go.Storage.Checkpointer.{update_checkpoint, persist_lease}

module _ {C J W : Type 0} (service : Service J W) (json : Json C J) where
  -- UpdateCheckpoint on a lease that is held marks its partition dirty and writes nothing outside;
  -- a persistLease of that partition after it renews the lease of the blob by the token, and where
  -- that succeeds it puts the lease with the new checkpoint, if it can be marshalled, under the
  -- condition of that token, and does nothing else outside.
  pub persist_lease-update_checkpoint :
      (p : String) (c : C) (id : String) (sl : LeaserCheckpointer C W) (l : StorageLease C)
      → lookup p sl.leases ≡ some l
      → let (renewed, w) = service.renew_lease p l.token sl.world in
        (lookup p (update_checkpoint p c (ok id) sl).1.dirty_partitions ≡ some id)
        × ((update_checkpoint p c (ok id) sl).1.world ≡ sl.world)
        × ((persist_lease service json p (update_checkpoint p c (ok id) sl).1).1.world
            ≡ elim renewed [
              | err e ↦ w
              | ok u ↦ elim (json.marshal (record l { checkpoint = some c })) [
                | err e ↦ w
                | ok body ↦ (service.put_blob l.lease.partition_id body (lease_id l.token) w).1
              ]
            ])
  unfolding update_checkpoint persist_lease update_lease renew_and_upload upload_lease
  persist_lease-update_checkpoint p c id sl l h =
      let l' : StorageLease C = record l { checkpoint = some c } in
      let held = lookup-insert_self p l' sl.leases in
      let (renewed, w) = service.renew_lease p l.token sl.world in
      let marks = lookup-insert_self p id sl.dirty_partitions in
      elim (Result-cases renewed) [
        | inr (e, m) ↦ (ground (arith, marks), ground arith, ground (arith, held))
        | inl (_, m) ↦ elim (Result-cases (json.marshal l')) [
          | inr (e, n) ↦ (ground (arith, marks), ground arith, ground (arith, held))
          | inl (body, n) ↦
              elim (Result-cases
                (service.put_blob l.lease.partition_id body (lease_id l.token) w).0) [
                  | inr (e, o) ↦ (ground (arith, marks), ground arith, ground (arith, held))
                  | inl (_, o) ↦ (ground (arith, marks), ground arith, ground (arith, held))
                ]
        ]
      ]

  -- A release that succeeds leaves the partition neither held nor dirty, so that a later renewal
  -- finds no lease.
  pub release_lease-forgets :
      (p : String) (sl : LeaserCheckpointer C W)
      → (release_lease service json p sl).0.0 ≡ true
      → (lookup p (release_lease service json p sl).1.leases ≡ none)
        × (lookup p (release_lease service json p sl).1.dirty_partitions ≡ none)
        × ((renew_lease service json p (release_lease service json p sl).1).0 ≡ failed not_found)
  unfolding release_lease renew_lease
  release_lease-forgets p sl h = elim (Option-cases (lookup p sl.leases)) [
    | inl n ↦ absurd (ground arith)
    | inr (l, n) ↦ elim (Result-cases (service.release_lease p l.token sl.world).0) [
      | inr (e, m) ↦ absurd (ground arith)
      | inl (u, m) ↦ (
        ground (arith, lookup-delete_self p sl.leases),
        ground (arith, lookup-delete_self p sl.dirty_partitions),
        ground (arith, lookup-delete_self p sl.leases),
      )
    ]
  ]
