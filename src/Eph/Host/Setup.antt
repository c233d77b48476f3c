-- ===== src/Eph/Host/Setup.antt =====
-- What setup of eph/eph.go leaves in the in-memory leaser.
use azure_event_hubs_go.Base.{
  String, ◌≡◌, refl, ◌∙◌, ap, Option, none, some, List, [], ◌∷◌, arith, inl, inr, length, All, ◌==◌,
  eq_iff, Option-cases, subst, Bool-cases, sym, Memᴰ,
}
use azure_event_hubs_go.Go.{returned, ok}
use azure_event_hubs_go.Dict.{Dict, lookup, insert, lookup-insert}
use azure_event_hubs_go.Eph.Memory.Store
use azure_event_hubs_go.Eph.Memory.Store.{MemoryLease, StoreLease}
use azure_event_hubs_go.Eph.Memory.Leaser
use azure_event_hubs_go.Eph.Memory.Leaser.{MemoryLeaser, Processor}
use azure_event_hubs_go.Eph.Memory.Checkpointer
use azure_event_hubs_go.Eph.Host.{EventProcessorHost, Scheduling, Error}
use azure_event_hubs_go.Eph.Host.Running.{ensure_all, setup}
use azure_event_hubs_go.Eph.Host.InMemory.{know, memory_leaser, memory_checkpointer}

module _ {C : Type 0} where
  -- The store is there.
  abbrev IsOpen : MemoryLeaser C → Type 0
  IsOpen ml = (m : Dict (StoreLease C)) × (ml.store.leases ≡ some m)

  abbrev Held : MemoryLeaser C → String → Type 0
  Held ml p = (l : MemoryLease C) × (Store.get_lease p ml.store ≡ some l)

  -- What follows ml in setup keeps the leases and the host.
  record Grows (ml ml' : MemoryLeaser C) : Type 0 where
    open_ : IsOpen ml'
    keeps : (p : String) → Held ml p → Held ml' p
    same : ml'.processor ≡ ml.processor

  Grows-again : (a b c : MemoryLeaser C) → Grows a b → Grows b c → Grows a c
  Grows-again a b c g h = record {
    open_ = h.open_;
    keeps = λ p l. h.keeps p (g.keeps p l);
    same = h.same ∙ g.same;
  }

  -- An entry with a lease that is put into the store.
  inserted :
      (p : String) (l : StoreLease C) (x : MemoryLease C) (m : Dict (StoreLease C))
      (ml ml' : MemoryLeaser C)
      → ml.store.leases ≡ some m
      → l.ml ≡ some x
      → ml'.store.leases ≡ some (insert p l m)
      → ml'.processor ≡ ml.processor
      → Grows ml ml' × Held ml' p
  unfolding Store.get_lease
  inserted p l x m ml ml' e f e' same = (
    record {
      open_ = (insert p l m, e');
      keeps = λ q held. elim (Bool-cases (p == q)) [
        | inl yes_ ↦ (x, ground (arith, lookup-insert p q l m))
        | inr no_ ↦ (held.0, ground (arith, held.1, lookup-insert p q l m))
      ];
      same = same;
    },
    (x, ground (arith, lookup-insert p p l m, eq_iff p p)),
  )

  ensure_store-opens :
      (ml : MemoryLeaser C)
      → IsOpen (Leaser.ensure_store (Leaser.ensure_store ml))
        × ((Leaser.ensure_store (Leaser.ensure_store ml)).processor ≡ ml.processor)
  unfolding Leaser.ensure_store Store.ensure
  ensure_store-opens ml = elim (Option-cases ml.store.leases) [
    | inl e ↦ (([], ground arith), refl)
    | inr (m, e) ↦ ((m, ground arith), refl)
  ]

  ensure_lease-Grows :
      (p : String) (ml : MemoryLeaser C)
      → IsOpen ml
      → (l : MemoryLease C) × ((Leaser.ensure_lease p ml).0 ≡ returned l)
        × (Grows ml (Leaser.ensure_lease p ml).1 × Held (Leaser.ensure_lease p ml).1 p)
  unfolding Leaser.ensure_lease Store.create_or_get_lease Store.get_or_make
  ensure_lease-Grows p ml (m, e) =
      let ml' = (Leaser.ensure_lease p ml).1 in
      let new : MemoryLease C = Store.new_memory_lease p in
      elim (Option-cases (lookup p m)) [
        | inl f ↦
            let l : StoreLease C = record { token = ""; expiration = 0; ml = some new } in
            (new, ground arith, inserted p l new m ml ml' e refl (ground arith) (ground arith))
        | inr (k, f) ↦ elim (Option-cases k.ml) [
          | inl g ↦
              let l : StoreLease C = record k { ml = some new } in
              (new, ground arith, inserted p l new m ml ml' e refl (ground arith) (ground arith))
          | inr (x, g) ↦
              (x, ground arith, inserted p k x m ml ml' e g (ground arith) (ground arith))
        ]
      ]

  ensure_checkpoint-Grows :
      (c : C) (p : String) (ml : MemoryLeaser C)
      → IsOpen ml
      → Grows ml (Checkpointer.ensure_checkpoint c p ml).1
  unfolding Checkpointer.ensure_checkpoint
  ensure_checkpoint-Grows c p ml i =
      let ml' = (Checkpointer.ensure_checkpoint c p ml).1 in
      let stays : ml'.store ≡ ml.store = ground arith in
      record {
        open_ = (i.0, ap (λ s. s.leases) stays ∙ i.1);
        keeps = λ q held. (held.0, ap (Store.get_lease q) stays ∙ held.1);
        same = ground arith;
      }

  All-Grows :
      (ps : List String) (ml ml' : MemoryLeaser C)
      → Grows ml ml'
      → All (Held ml) ps
      → All (Held ml') ps
  All-Grows [] ml ml' g h = tt
  All-Grows (p ∷ ps) ml ml' g h = (g.keeps p h.0, All-Grows ps ml ml' g h.1)

  ensure_all-Grows :
      (c : C) (ps : List String) (ml : MemoryLeaser C)
      → IsOpen ml
      → let (o, ml') = ensure_all memory_leaser (memory_checkpointer c) ps ml in
        (o ≡ returned tt) × Grows ml ml' × All (Held ml') ps
  unfolding ensure_all memory_leaser memory_checkpointer
  ensure_all-Grows c [] ml i = (refl, record { open_ = i; keeps = λ p l. l; same = refl }, tt)
  ensure_all-Grows c (p ∷ ps) ml i =
      let (l, done, (grows, held)) = ensure_lease-Grows p ml i in
      let ml1 = (Leaser.ensure_lease p ml).1 in
      let grows' = ensure_checkpoint-Grows c p ml1 grows.open_ in
      let ml2 = (Checkpointer.ensure_checkpoint c p ml1).1 in
      let (done', grows'', rest) = ensure_all-Grows c ps ml2 grows'.open_ in
      let ml3 = (ensure_all memory_leaser (memory_checkpointer c) ps ml2).1 in
      let whole : ensure_all memory_leaser (memory_checkpointer c) (p ∷ ps) ml
          ≡ ensure_all memory_leaser (memory_checkpointer c) ps ml2 =
        ground (arith, done) in
      subst (λ x. (x.0 ≡ returned tt) × Grows ml x.1 × All (Held x.1) (p ∷ ps)) (sym whole)
        (
          done',
          Grows-again ml ml1 ml3 grows (Grows-again ml1 ml2 ml3 grows' grows''),
          (grows''.keeps p (grows'.keeps p held), rest),
        )

  -- The lease that the store has of the partition is one of these.
  abbrev pub IsAmong : MemoryLeaser C → List (MemoryLease C) → String → Type 0
  IsAmong ml ls p = (l : MemoryLease C) × (Store.get_lease p ml.store ≡ some l) × Memᴰ l ls

  All-IsAmong :
      (ps : List String) (ml : MemoryLeaser C) (l : MemoryLease C) (ls : List (MemoryLease C))
      → All (IsAmong ml ls) ps
      → All (IsAmong ml (l ∷ ls)) ps
  All-IsAmong [] ml l ls h = tt
  All-IsAmong (p ∷ ps) ml l ls ((k, e, i), h) = ((k, e, Memᴰ.tail i), All-IsAmong ps ml l ls h)

  read_leases-Held :
      (ps : List String) (ml : MemoryLeaser C)
      → All (Held ml) ps
      → (ls : List (MemoryLease C)) × (Leaser.read_leases ps ml.store ≡ some ls)
        × (length ls ≡ length ps)
        × All (IsAmong ml ls) ps
  unfolding Leaser.read_leases
  read_leases-Held [] ml h = ([], refl, refl, tt)
  read_leases-Held (p ∷ ps) ml h =
      let (ls, e, n, among) = read_leases-Held ps ml h.1 in
      (
        h.0.0 ∷ ls,
        ground (arith, e, h.0.1),
        ground (arith, n),
        ((h.0.0, h.0.1, Memᴰ.head refl), All-IsAmong ps ml h.0.0 ls among),
      )

module _ {C F H P Q : Type 0} (start_of_stream : C) (scheduling : Scheduling Q (MemoryLeaser C))
    (close_client : H → MemoryLeaser C → Option Error × (H × MemoryLeaser C)) where
  -- With the in-memory leaser and checkpointer, setup of a host that has no scheduler yet succeeds,
  -- whatever the store holds, and gives it one; right after it GetLeases of the leaser, which panics
  -- where a partition of the host has no lease, returns as many leases as the host has partitions,
  -- among them the lease that the store has of each partition.
  pub setup-leases :
      (h : EventProcessorHost F H P Q (MemoryLeaser C))
      → h.scheduler ≡ none
      → let (o, h') =
          setup memory_leaser (memory_checkpointer start_of_stream) scheduling close_client h in
        (o ≡ returned (ok tt))
        × (h'.scheduler ≡ some (scheduling.new_scheduler h.name))
        × ((ls : List (MemoryLease C)) × ((Leaser.get_leases h'.world).0 ≡ returned ls)
            × (length ls ≡ length h.partition_ids)
            × All (IsAmong h'.world ls) h.partition_ids)
  unfolding setup memory_leaser memory_checkpointer Leaser.get_leases
  setup-leases h e =
      let ml : MemoryLeaser C = know h.name h.partition_ids (know h.name h.partition_ids h.world) in
      let ml1 = Leaser.ensure_store (Leaser.ensure_store ml) in
      let (open_, same) = ensure_store-opens ml in
      let (done, grows, held) = ensure_all-Grows start_of_stream h.partition_ids ml1 open_ in
      let ml2 =
        (ensure_all memory_leaser (memory_checkpointer start_of_stream) h.partition_ids ml1).1 in
      let (ls, read, n, among) = read_leases-Held h.partition_ids ml2 held in
      let after =
        (setup memory_leaser (memory_checkpointer start_of_stream) scheduling close_client
          h).1.world in
      let left : ml2 ≡ after = ground (arith, done) in
      let known : ml2.processor ≡ some (record { name = h.name; partition_ids = h.partition_ids }) =
        grows.same ∙ (same ∙ refl) in
      (
        ground (arith, done),
        ground (arith, done),
        (
          ls,
          ground (arith, done, known, read),
          n,
          subst (λ w. All (IsAmong w ls) h.partition_ids) left among,
        ),
      )
