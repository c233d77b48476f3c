-- ===== src/Eph/Host/InMemory.antt =====
-- The in-memory leaser and checkpointer of eph/memory.go as the leaser and the checkpointer of a host;
-- one object is both.
use azure_event_hubs_go.Base.{String, none, some, List}
use azure_event_hubs_go.Go.{returned, panicked, ok, err}
use azure_event_hubs_go.Eph.Memory.Leaser
use azure_event_hubs_go.Eph.Memory.Leaser.{MemoryLeaser}
use azure_event_hubs_go.Eph.Memory.Checkpointer
use azure_event_hubs_go.Eph.Host

module _ {C : Type 0} where
  -- The host is known by its name and its partitions, which do not change once it is made.
  abbrev pub know : String → List String → MemoryLeaser C → MemoryLeaser C
  know name ps = Leaser.set_event_host_processor (record { name = name; partition_ids = ps })

  unfoldable pub memory_leaser : Host.Leaser (MemoryLeaser C)
  unfolding Leaser.set_event_host_processor Leaser.ensure_store Leaser.ensure_lease
      Checkpointer.close
  memory_leaser = record {
    set_event_host_processor = know;
    ensure_store = λ ml. (ok tt, Leaser.ensure_store ml);
    ensure_lease = λ p ml.
        let (o, ml') = Leaser.ensure_lease p ml in
        (elim o [ panicked ↦ panicked | returned l ↦ returned tt ], ml');
    close = λ ml. (Checkpointer.close ml).1;
  }

  unfoldable pub memory_checkpointer : C → Host.Checkpointer C (MemoryLeaser C)
  unfolding Leaser.set_event_host_processor Leaser.ensure_store Checkpointer.ensure_checkpoint
      Checkpointer.update_checkpoint Checkpointer.close
  memory_checkpointer start_of_stream = record {
    set_event_host_processor = know;
    ensure_store = λ ml. (ok tt, Leaser.ensure_store ml);
    ensure_checkpoint = λ p ml.
        let (c, ml') = Checkpointer.ensure_checkpoint start_of_stream p ml in
        (returned (ok c), ml');
    update_checkpoint = λ p c ml.
        let (e, ml') = Checkpointer.update_checkpoint p c ml in
        (elim e [ none ↦ ok tt | some x ↦ err x ], ml');
    close = λ ml. (Checkpointer.close ml).1;
  }
