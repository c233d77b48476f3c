-- ===== src/Eph/Memory/Checkpointer.antt =====
-- eph/memory.go: memoryLeaserCheckpointer as a Checkpointer. persist.NewCheckpointFromStartOfStream
-- is the parameter start_of_stream.
use azure_event_hubs_go.Base.{String, Bool, true, false, Option, none, some, if◌then◌else◌}
use azure_event_hubs_go.Go.{returned, panicked, Method, Error, errors_new}
use azure_event_hubs_go.Dict.{lookup, insert}
use azure_event_hubs_go.Eph.Memory.Store
use azure_event_hubs_go.Eph.Memory.Store.{SharedStore, MemoryLease}
use azure_event_hubs_go.Eph.Memory.Leaser.{MemoryLeaser}

module _ {C : Type 0} (start_of_stream : C) where
  -- *lease.Checkpoint panics where the pointer is nil.
  unfoldable pub get_checkpoint : String → Method (MemoryLeaser C) (C × Bool)
  get_checkpoint p ml = elim (lookup p ml.leases) [
    | none ↦ (returned (start_of_stream, false), ml)
    | some l ↦ elim l.checkpoint [ none ↦ (panicked, ml) | some c ↦ (returned (c, true), ml) ]
  ]

  -- The lease of the leaser's map is written through its pointer; the store keeps its own copy.
  unfoldable pub ensure_checkpoint : String → MemoryLeaser C → C × MemoryLeaser C
  ensure_checkpoint p ml = elim (lookup p ml.leases) [
    | none ↦ (start_of_stream, ml)
    | some l ↦ elim l.checkpoint [
      | none ↦ (
        start_of_stream,
        record ml { leases = insert p (record l { checkpoint = some start_of_stream }) ml.leases },
      )
      | some c ↦ (c, ml)
    ]
  ]

abbrev pub not_owned : Error
not_owned = errors_new "lease for partition isn't owned by this EventProcessorHost"

module _ {C : Type 0} where
  -- What UpdateCheckpoint and DeleteCheckpoint do with the checkpoint to be set: the lease of the
  -- leaser's map is written first, also where the store refuses its copy.
  unfoldable pub set_checkpoint :
      String → C → String → MemoryLeaser C → Option Error × MemoryLeaser C
  unfolding Store.store_lease
  set_checkpoint p c refused ml = elim (lookup p ml.leases) [
    | none ↦ (some not_owned, ml)
    | some l ↦
        let l' = record l { checkpoint = some c } in
        let (s, done) = Store.store_lease p l.token l' ml.store in
        (
          if done then none else some (errors_new refused),
          record ml { store = s; leases = insert p l' ml.leases },
        )
  ]

  unfoldable pub update_checkpoint : String → C → MemoryLeaser C → Option Error × MemoryLeaser C
  unfolding set_checkpoint
  update_checkpoint p c = set_checkpoint p c "could not store lease on update of checkpoint"

  -- The argument c is the checkpoint at the start of the stream.
  unfoldable pub delete_checkpoint : C → String → MemoryLeaser C → Option Error × MemoryLeaser C
  unfolding set_checkpoint
  delete_checkpoint c p = set_checkpoint p c "failed to store deleted checkpoint"

  unfoldable pub close : MemoryLeaser C → Option Error × MemoryLeaser C
  close ml = (none, ml)
