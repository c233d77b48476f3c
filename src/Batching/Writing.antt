-- ===== src/Batching/Writing.antt =====
-- Write of batchWriter.go on a buffer that has a line without its record.
use azure_event_hubs_go.Base.{
  String, ◌≡◌, refl, ◌∙◌, ap, ◌⊎◌, inl, inr, Option, none, some, List, [], ◌∷◌, ◌++◌, arith, sym,
  subst, Option-cases, length-append,
}
use azure_event_hubs_go.Go.{Error, ok, err, Result-cases}
use azure_event_hubs_go.Batching.{PersistRecord, BatchWriter, Output, write_flushed, write}
use azure_event_hubs_go.Batching.Buffer.{
  Entry, Stands, texts-append, records-append, put, IsOutput, IsWritten, IsBuffer, IsOpen, alike,
}

module _ {C W : Type 0} (output : Output C W) (lines : W → List String)
    (stored : W → Option (PersistRecord C)) (before : List String)
    (earlier : Option (PersistRecord C)) (is : IsOutput output lines stored) where
  abbrev Written : List (Entry C) → BatchWriter C W → Type 0
  Written = IsWritten output lines stored before earlier

  abbrev Buffer : List (Entry C) → List (Entry C) → BatchWriter C W → Type 0
  Buffer = IsBuffer output lines stored before earlier

  abbrev Open : String → List (Entry C) → List (Entry C) → BatchWriter C W → Type 0
  Open = IsOpen output lines stored before earlier

  put-keeps :
      (r : PersistRecord C) (written : List (Entry C)) (w : BatchWriter C W)
      (f : Option (PersistRecord C))
      → Written written w
      → ((f ≡ none) ⊎ ((r' : PersistRecord C) × (f ≡ some r') × Stands r' written))
      → Stands r written
      → ((stored (put output r w.world).1 ≡ stored w.world)
          ⊎ (stored (put output r w.world).1 ≡ some r))
      → Written written (record w { flushed = f; world = (put output r w.world).1 })
  put-keeps r written w f i last at now = record {
    printed = is.writing r w.world ∙ i.printed;
    flushed = last;
    persisted = elim now [
      | inr new ↦ inr (r, new, at)
      | inl same ↦ elim i.persisted [
        | inl old ↦ inl (same ∙ old)
        | inr (r', old, at') ↦ inr (r', same ∙ old, at')
      ]
    ];
  }

  write_flushed-keeps :
      (written : List (Entry C)) (w : BatchWriter C W)
      → Written written w
      → Written written (write_flushed output w).1
  unfolding write_flushed
  write_flushed-keeps written w i = elim i.flushed [
    | inl e ↦ subst (Written written) (ground arith) i
    | inr (r, e, at) ↦ elim (Result-cases (put output r w.world).0) [
      | inl (_, o) ↦
          subst (Written written) (ground arith)
            (put-keeps r written w w.flushed i i.flushed at (inr (is.wrote r w.world o)))
      | inr (x, o) ↦
          subst (Written written) (ground arith)
            (put-keeps r written w none i (inl refl) at (is.failed r w.world x o))
    ]
  ]

  write_flushed-same :
      (w : BatchWriter C W)
      → ((write_flushed output w).1.batch ≡ w.batch)
        × ((write_flushed output w).1.persist_records ≡ w.persist_records)
  unfolding write_flushed
  write_flushed-same w = elim (Option-cases w.flushed) [
    | inl e ↦ (ground arith, ground arith)
    | inr (r, e) ↦ elim (Result-cases (put output r w.world).0) [
      | inl (_, o) ↦ (ground arith, ground arith)
      | inr (x, o) ↦ (ground arith, ground arith)
    ]
  ]

  -- Write, with an error or none, adds the record of the open line, and the buffer is one again.
  pub write-keeps :
      (s : String) (written pending : List (Entry C)) (namespace name group p : String) (c : C)
      (w : BatchWriter C W)
      → Open s written pending w
      → Buffer written
          (pending
            ++ ((
              s,
              record {
                namespace = namespace;
                name = name;
                consumer_group = group;
                partition_id = p;
                checkpoint = c;
              },
            )
                ∷ []))
          (write output namespace name group p c w).1
  unfolding write
  write-keeps s written pending namespace name group p c w i =
      let entry : Entry C = (
        s,
        record {
          namespace = namespace;
          name = name;
          consumer_group = group;
          partition_id = p;
          checkpoint = c;
        },
      ) in
      let (batch, recorded) = write_flushed-same w in
      let room = i.room in
      record {
        is_written =
            alike output lines stored before earlier written (write_flushed output w).1 _
              (write_flushed-keeps written w i.is_written) refl refl refl;
        batch = batch ∙ i.batch ∙ sym (texts-append pending (entry ∷ []));
        records =
            ap (λ l. l ++ (entry.1 ∷ [])) (recorded ∙ i.records)
            ∙ sym (records-append pending (entry ∷ []));
        fits = omega (arith, length-append pending (entry ∷ []));
      }

-- Two calls of Write with no Flush between them, where a record has been flushed. If the persister
-- takes it, the second call writes it once more; if the persister fails, the first call returns
-- that error, and the second returns none and writes nothing.
pub write-again :
    {C W : Type 0} (output : Output C W) (r : PersistRecord C)
    (namespace name group p namespace' name' group' p' : String) (c c' : C) (w : BatchWriter C W)
    → w.flushed ≡ some r
    → let first = write output namespace name group p c w in
      let second = write output namespace' name' group' p' c' first.1 in
      (((put output r w.world).0 ≡ ok tt)
        × (first.0 ≡ ok tt)
        × (first.1.world ≡ (put output r w.world).1)
        × (second.1.world ≡ (put output r (put output r w.world).1).1))
      ⊎ ((e : Error) × ((put output r w.world).0 ≡ err e)
          × (first.0 ≡ err e)
          × (second.0 ≡ ok tt)
          × (second.1.world ≡ (put output r w.world).1))
unfolding write write_flushed
write-again output r namespace name group p namespace' name' group' p' c c' w h =
    elim (Result-cases (put output r w.world).0) [
      | inl (_, e) ↦ elim (Result-cases (put output r (put output r w.world).1).0) [
        | inl (_, e') ↦ inl (e, ground arith, ground arith, ground arith)
        | inr (x, e') ↦ inl (e, ground arith, ground arith, ground arith)
      ]
      | inr (x, e) ↦ inr (x, e, ground arith, ground arith, ground arith)
    ]
