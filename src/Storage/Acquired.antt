-- ===== src/Storage/Acquired.antt =====
-- What AcquireLease and UpdateCheckpoint of storage/storage.go do to the leaser's map.
use azure_event_hubs_go.Base.{
  ◌≡◌, refl, ◌⊎◌, inl, inr, ℕ, String, none, false, arith, ◌+◌, ◌%◌, ◌^◌,
}
use azure_event_hubs_go.Go.{Result, ok, err, Result-cases, Call, then_call, add_int64}
use azure_event_hubs_go.Dict.{insert}
use azure_event_hubs_go.Eph.Lease.{granted, increment_epoch}
use azure_event_hubs_go.Storage.Blob.{StorageLease, Service, Json}
use azure_event_hubs_go.Storage.Leaser.{
  LeaserCheckpointer, get_lease, claim, upload_lease, take_ownership, seize,
}
use azure_event_hubs_go.Storage.Operations.{acquire_lease, keep_lease}

-- A call that goes on after another returns a value only if both do.
pub then_call-ok :
    {A B W : Type 0} (r : Result A × W) (f : A → Call W B) (b : B)
    → (then_call r f).0 ≡ ok b
    → (a : A) × (r.0 ≡ ok a) × ((f a r.1).0 ≡ ok b)
then_call-ok (ok a, w) f b h = (a, refl, h)
then_call-ok (err e, w) f b h = absurd (cc)

module _ {C J W : Type 0} (service : Service J W) (json : Json C J) where
  pub claim-ok :
      (p : String) (uuid : Result String) (name : String) (d : ℕ) (l l' : StorageLease C) (w : W)
      → (claim service json p uuid name d l w).0 ≡ ok l'
      → (new : String) × (uuid ≡ ok new) × (l' ≡ take_ownership new name l)
  unfolding claim
  claim-ok p uuid name d l l' w h =
      let (state, _, h1) = then_call-ok (service.get_properties p w) _ l' h in
      let (new, e, h2) = then_call-ok (uuid, (service.get_properties p w).1) _ l' h1 in
      let (_, _, h3) = then_call-ok (seize service json p new d l state _) _ l' h2 in
      let (_, _, h4) =
        then_call-ok (upload_lease service json (take_ownership new name l) _) _ l' h3 in
      (new, e, cc)

  -- AcquireLease either gives no lease and leaves the maps of the leaser as they were, or it gives
  -- the lease that the blob held, with the new token, the name of the host and the next epoch, and
  -- holds just that lease for the partition.
  pub acquire_lease-outcomes :
      (p : String) (uuid : Result String) (sl : LeaserCheckpointer C W)
      → (((acquire_lease service json p uuid sl).0.lease ≡ none)
          × ((acquire_lease service json p uuid sl).0.done ≡ false)
          × ((acquire_lease service json p uuid sl).1.leases ≡ sl.leases)
          × ((acquire_lease service json p uuid sl).1.dirty_partitions ≡ sl.dirty_partitions))
        ⊎ ((l : StorageLease C) × (l' : StorageLease C) × (new : String) × ((get_lease service json
                p sl.world).0
              ≡ ok l)
            × (uuid ≡ ok new)
            × (l' ≡ record l {
              token = new;
              lease = record l.lease {
                owner = sl.processor.name;
                epoch = (l.lease.epoch + 1) % 2 ^ 64;
              };
            })
            × ((acquire_lease service json p uuid sl).0 ≡ granted l')
            × ((acquire_lease service json p uuid sl).1.leases ≡ insert p l' sl.leases))
  unfolding acquire_lease keep_lease take_ownership increment_epoch add_int64
  acquire_lease-outcomes p uuid sl = elim (Result-cases (get_lease service json p sl.world).0) [
    | inr (e, n) ↦ inl (ground arith)
    | inl (l, n) ↦
        let w = (get_lease service json p sl.world).1 in
        let name = sl.processor.name in
        let d = sl.lease_duration in
        elim (Result-cases (claim service json p uuid name d l w).0) [
          | inr (e, m) ↦ inl (ground arith)
          | inl (l', m) ↦
              let (new, u, t) = claim-ok p uuid name d l l' w m in
              inr (l, l', new, n, u, t, ground arith, ground arith)
        ]
  ]
