-- ===== src/Storage/Checkpointer.antt =====
-- storage/storage.go: LeaserCheckpointer as a Checkpointer. persist.NewCheckpointFromStartOfStream
-- is the parameter start_of_stream.
use azure_event_hubs_go.Base.{
  String, Option, none, some, ℕ, zero, List, [], if◌then◌else◌, ◌∷◌, Bool, false, ltb, true, length,
  suc,
}
use azure_event_hubs_go.Go.{returned, panicked, Method, Error, errors_new, Result, ok, err}
use azure_event_hubs_go.Dict.{Dict, lookup, insert, delete}
use azure_event_hubs_go.Eph.Lease.{Reply}
use azure_event_hubs_go.Storage.Blob.{StorageLease, Service, Json}
use azure_event_hubs_go.Storage.Leaser.{LeaserCheckpointer, context_error}
use azure_event_hubs_go.Storage.Operations.{update_lease}

abbrev pub not_owned : Error
not_owned = errors_new "lease for partition isn't owned by this EventProcessorHost"

module _ {C W : Type 0} (start_of_stream : C) where
  -- *lease.Checkpoint panics where the pointer is nil.
  unfoldable pub get_checkpoint : String → Method (LeaserCheckpointer C W) (C × Bool)
  get_checkpoint p sl = elim (lookup p sl.leases) [
    | none ↦ (returned (start_of_stream, false), sl)
    | some l ↦ elim l.checkpoint [ none ↦ (panicked, sl) | some c ↦ (returned (c, true), sl) ]
  ]

  unfoldable pub ensure_checkpoint : String → LeaserCheckpointer C W → C × LeaserCheckpointer C W
  ensure_checkpoint p sl = elim (lookup p sl.leases) [
    | none ↦ (start_of_stream, sl)
    | some l ↦ elim l.checkpoint [
      | none ↦ (
        start_of_stream,
        record sl { leases = insert p (record l { checkpoint = some start_of_stream }) sl.leases },
      )
      | some c ↦ (c, sl)
    ]
  ]

module _ {C W : Type 0} where
  -- `uuid` is what uuid.NewV4 returns; the lease is written before it is drawn.
  unfoldable pub update_checkpoint :
      String → C → Result String → LeaserCheckpointer C W → Option Error × LeaserCheckpointer C W
  update_checkpoint p c uuid sl = elim (lookup p sl.leases) [
    | none ↦ (some not_owned, sl)
    | some l ↦
        let sl' = record sl { leases = insert p (record l { checkpoint = some c }) sl.leases } in
        elim uuid [
          | err e ↦ (some e, sl')
          | ok id ↦ (none, record sl' { dirty_partitions = insert p id sl.dirty_partitions })
        ]
  ]

  unfoldable pub close : LeaserCheckpointer C W → Option Error × LeaserCheckpointer C W
  close sl = (none, record sl { persisting = false })

module _ {C J W : Type 0} (service : Service J W) (json : Json C J) where
  -- What DeleteCheckpoint does with the answer of updateLease.
  unfoldable pub after_update :
      String
      → Reply (StorageLease C) × LeaserCheckpointer C W
      → Option Error × LeaserCheckpointer C W
  after_update p (r, sl) = elim r.error [
    | some e ↦ (some e, sl)
    | none ↦ elim r.done [
      | false ↦ (some (errors_new "checkpoint update was not successful"), sl)
      | true ↦ elim r.lease [
        | none ↦ (none, sl)
        | some l ↦ (none, record sl { leases = insert p l sl.leases })
      ]
    ]
  ]

  -- The argument c is the checkpoint at the start of the stream.
  unfoldable pub delete_checkpoint :
      C → String → LeaserCheckpointer C W → Option Error × LeaserCheckpointer C W
  unfolding after_update update_lease
  delete_checkpoint c p sl = elim (lookup p sl.leases) [
    | none ↦ (some not_owned, sl)
    | some l ↦ after_update p (
        update_lease service json l.partition_id
          (record sl { leases = insert p (record l { checkpoint = some c }) sl.leases }))
  ]

  unfoldable pub persist_lease :
      String → LeaserCheckpointer C W → Option Error × LeaserCheckpointer C W
  unfolding update_lease
  persist_lease p sl =
      let (r, sl') = update_lease service json p sl in
      elim r.error [
        | some e ↦ (some e, sl')
        | none ↦ if r.done then (none, sl') else (
          some (
              errors_new
                "unable to update dirty lease -- this may mean there will be reprocessing"),
          sl',
        )
      ]

  -- The goroutines of persistDirtyPartitions, in the order in which they answer.
  unfoldable pub persist_all :
      List String → LeaserCheckpointer C W → List (String × Option Error) × LeaserCheckpointer C W
  unfolding persist_lease
  persist_all [] sl = ([], sl)
  persist_all (p ∷ ps) sl =
      let (error, sl') = persist_lease p sl in
      let (results, sl'') = persist_all ps sl' in ((p, error) ∷ results, sl'')

-- `if res.Err != nil { lastErr = res.Err }`
abbrev pub latest : Option Error → Option Error → Option Error
latest none last = last
latest (some e) last = some e

-- The loop of persistDirtyPartitions at index i, with lastErr: the length is read anew at each
-- test. The context ends after `left` results, if it ends; at the end of the list no result comes.
unfoldable pub collect_results :
    Option ℕ
    → ℕ
    → List (String × Option Error)
    → Dict String
    → Option Error
    → Option Error × Dict String
collect_results left i [] dirty last = (last, dirty)
collect_results left i ((p, error) ∷ results) dirty last =
    if ltb i (length dirty)
    then elim left [
      | none ↦ collect_results none (suc i) results (delete p dirty) (latest error last)
      | some n ↦ elim n [
        | zero ↦ (some context_error, dirty)
        | suc m ↦ collect_results (some m) (suc i) results (delete p dirty) (latest error last)
      ]
    ]
    else (last, dirty)

module _ {C J W : Type 0} (service : Service J W) (json : Json C J) where
  -- `order` lists the dirty partitions as their goroutines answer.
  unfoldable pub persist_dirty_partitions :
      Option ℕ → List String → LeaserCheckpointer C W → Option Error × LeaserCheckpointer C W
  unfolding persist_all collect_results
  persist_dirty_partitions left order sl =
      let (results, sl') = persist_all service json order sl in
      let (error, dirty) = collect_results left 0 results sl'.dirty_partitions none in
      (error, record sl' { dirty_partitions = dirty })

  -- The loop of persistLeases, for at most as many rounds as the list has entries. A round has the
  -- number of results after which the context ends, if it ends then, the order in which Go ranges
  -- over the partitions, and what other goroutines do to the leaser after it.
  unfoldable pub persist_leases :
      List
        (Option ℕ × (Dict String → List String) × (LeaserCheckpointer C W → LeaserCheckpointer C W))
      → LeaserCheckpointer C W
      → LeaserCheckpointer C W
  unfolding persist_dirty_partitions
  persist_leases [] sl = sl
  persist_leases ((left, range, meanwhile) ∷ rest) sl = elim sl.persisting [
    | false ↦ sl
    | true ↦
        persist_leases rest
          (meanwhile (persist_dirty_partitions left (range sl.dirty_partitions) sl).1)
  ]
