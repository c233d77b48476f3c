-- ===== src/Batching/Flushing.antt =====
-- Flush and HandleEvent of batchWriter.go on a buffer.
use azure_event_hubs_go.Base.{
  String, ◌≡◌, refl, ◌∙◌, ap, ◌≤◌, ◌<◌, ◌⊎◌, inl, inr, Option, none, some, List, [], ◌∷◌, ◌++◌,
  length, arith, sym, subst, Bool-cases, leb,
}
use mathlib.Core.List.{append_assoc, append-nil}
use azure_event_hubs_go.Go.{Outcome, returned, Error, ok, err, Result-cases}
use azure_event_hubs_go.Batching.{
  PersistRecord, BatchWriter, Output, batch_size, flush_from, flush, append, handle_event,
}
use azure_event_hubs_go.Batching.Buffer.{
  Entry, texts, records, Stands-append, texts-append, shorter, IsOutput, IsWritten, IsBuffer,
  IsOpen, alike, Refuses,
}

module _ {C W : Type 0} (output : Output C W) (lines : W → List String)
    (stored : W → Option (PersistRecord C)) (before : List String)
    (earlier : Option (PersistRecord C)) (is : IsOutput output lines stored) where
  abbrev Written : List (Entry C) → BatchWriter C W → Type 0
  Written = IsWritten output lines stored before earlier

  abbrev Buffer : List (Entry C) → List (Entry C) → BatchWriter C W → Type 0
  Buffer = IsBuffer output lines stored before earlier

  abbrev Open : String → List (Entry C) → List (Entry C) → BatchWriter C W → Type 0
  Open = IsOpen output lines stored before earlier

  -- A line that the writer takes is that of a written entry.
  println-keeps :
      (s : String) (r : PersistRecord C) (written : List (Entry C)) (w : BatchWriter C W)
      → Written written w
      → (output.println s w.world).0 ≡ ok tt
      → Written
          (written ++ ((s, r) ∷ []))
          (record w { flushed = some r; world = (output.println s w.world).1 })
  println-keeps s r written w i e = record {
    printed =
        is.printed s w.world e
        ∙ ap (λ l. l ++ (s ∷ [])) i.printed
        ∙ append_assoc before (texts written) (s ∷ [])
        ∙ ap (λ l. before ++ l) (sym (texts-append written ((s, r) ∷ [])));
    flushed = inr (r, refl, (written, s, [], refl));
    persisted = elim i.persisted [
      | inl same ↦ inl (is.printing s w.world ∙ same)
      | inr (r', same, at) ↦
          inr (r', is.printing s w.world ∙ same, Stands-append r' written ((s, r) ∷ []) at)
    ];
  }

  refused-keeps :
      (s : String) (r : PersistRecord C) (es written : List (Entry C)) (w : BatchWriter C W)
      (x : Error)
      → Written written w
      → length ((s, r) ∷ es) ≤ batch_size
      → (output.println s w.world).0 ≡ err x
      → Buffer written ((s, r) ∷ es) (record w {
        batch = s ∷ texts es;
        persist_records = r ∷ records es;
        world = (output.println s w.world).1;
      })
  refused-keeps s r es written w x i n e = record {
    is_written = record {
      printed = is.refused s w.world x e ∙ i.printed;
      flushed = i.flushed;
      persisted = elim i.persisted [
        | inl same ↦ inl (is.printing s w.world ∙ same)
        | inr (r', same, at) ↦ inr (r', is.printing s w.world ∙ same, at)
      ];
    };
    batch = refl;
    records = refl;
    fits = n;
  }

  -- What a flush returns of a buffer: it is emptied, or there is an error and the entries whose
  -- lines were taken, in order, are written.
  abbrev Flushes :
      Outcome (Option Error) × BatchWriter C W → List (Entry C) → List (Entry C) → Type 0
  Flushes x written pending =
      ((x.0 ≡ returned none) × Buffer (written ++ pending) [] x.1)
      ⊎ ((e : Error) × (done : List (Entry C)) × (left : List (Entry C)) × (x.0 ≡ returned (some e))
          × (pending ≡ done ++ left)
          × Buffer (written ++ done) left x.1
          × Refuses output e)

  flush_from-Flushes :
      (pending written : List (Entry C)) (w : BatchWriter C W)
      → Written written w
      → length pending ≤ batch_size
      → Flushes (flush_from output (texts pending) (records pending) w) written pending
  unfolding flush_from
  flush_from-Flushes [] written w i n = inl (
    refl,
    record {
      is_written =
          subst (λ l. Written l (record w { batch = []; persist_records = [] }))
            (sym (append-nil written))
            (alike output lines stored before earlier written w _ i refl refl refl);
      batch = refl;
      records = refl;
      fits = omega arith;
    },
  )
  flush_from-Flushes ((s, r) ∷ es) written w i n =
      let after = (output.println s w.world).1 in
      let next : BatchWriter C W = record w { flushed = some r; world = after } in
      let rest = flush_from output (texts es) (records es) next in
      elim (Result-cases (output.println s w.world).0) [
        | inr (x, e) ↦
            let stopped : BatchWriter C W = record w {
              batch = s ∷ texts es;
              persist_records = r ∷ records es;
              world = after;
            } in
            let k =
              subst (λ l. Buffer l ((s, r) ∷ es) stopped) (sym (append-nil written))
                (refused-keeps s r es written w x i n e) in
            inr (
              x,
              [],
              (s, r) ∷ es,
              ground arith,
              refl,
              subst (Buffer (written ++ []) ((s, r) ∷ es)) (ground arith) k,
              (s, w.world, e),
            )
        | inl (u, e) ↦
            elim (flush_from-Flushes es (written ++ ((s, r) ∷ [])) next
              (println-keeps s r written w i e) (omega arith)) [
                | inl (o, k) ↦
                    let k' =
                      subst (λ l. Buffer l [] rest.1) (append_assoc written ((s, r) ∷ []) es) k in
                    inl
                      (ground arith, subst (Buffer (written ++ ((s, r) ∷ es)) []) (ground arith) k')
                | inr (x, done, left, o, same, k, refusal) ↦
                    let k' =
                      subst (λ l. Buffer l left rest.1) (append_assoc written ((s, r) ∷ []) done)
                        k in
                    inr (
                      x,
                      (s, r) ∷ done,
                      left,
                      ground arith,
                      ap (λ l. (s, r) ∷ l) same,
                      subst (Buffer (written ++ ((s, r) ∷ done)) left) (ground arith) k',
                      refusal,
                    )
              ]
      ]

  flush-Flushes :
      (written pending : List (Entry C)) (w : BatchWriter C W)
      → Buffer written pending w
      → Flushes (flush output w) written pending
  unfolding flush
  flush-Flushes written pending w i =
      let same : ◌≡◌ {A = List String × List (PersistRecord C)} (texts pending, records pending)
          (w.batch, w.persist_records) =
        ap (λ l. (l, records pending)) (sym i.batch) ∙ ap (λ l. (w.batch, l)) (sym i.records) in
      subst (λ p. Flushes (flush_from output p.0 p.1 w) written pending) same
        (flush_from-Flushes pending written w i.is_written i.fits)

  append-opens :
      (s : String) (written pending : List (Entry C)) (w : BatchWriter C W)
      → Buffer written pending w
      → length pending < batch_size
      → Open s written pending (append s w)
  append-opens s written pending w i n = record {
    is_written = alike output lines stored before earlier written w _ i.is_written refl refl refl;
    batch = ap (λ l. l ++ (s ∷ [])) i.batch;
    records = i.records;
    room = n;
  }

  -- HandleEvent of a buffer does not panic. It returns no error and the line is added to a buffer,
  -- or it returns an error of the writer and adds nothing; either way the entries written and
  -- pending are those there were, in their order.
  pub handle_event-keeps :
      (s : String) (written pending : List (Entry C)) (w : BatchWriter C W)
      → Buffer written pending w
      → ((out : List (Entry C)) × (left : List (Entry C)) × ((handle_event output s w).0
            ≡ returned (ok tt))
          × (written ++ pending ≡ out ++ left)
          × Open s out left (handle_event output s w).1)
        ⊎ ((e : Error) × (out : List (Entry C)) × (left : List (Entry C)) × ((handle_event output s
                w).0
              ≡ returned (err e))
            × (written ++ pending ≡ out ++ left)
            × Buffer out left (handle_event output s w).1
            × Refuses output e)
  unfolding handle_event
  handle_event-keeps s written pending w i = elim (Bool-cases (leb batch_size (length w.batch))) [
    | inr small ↦ inl (
      written,
      pending,
      ground arith,
      refl,
      subst (Open s written pending) (ground arith)
          (append-opens s written pending w i (shorter w.batch pending i.batch small)),
    )
    | inl full ↦ elim (flush-Flushes written pending w i) [
      | inl (o, k) ↦ inl (
        written ++ pending,
        [],
        ground arith,
        sym (append-nil (written ++ pending)),
        subst (Open s (written ++ pending) []) (ground arith)
            (append-opens s (written ++ pending) [] _ k (omega arith)),
      )
      | inr (e, done, left, o, same, k, refusal) ↦
          elim (Bool-cases (leb batch_size (length (flush output w).1.batch))) [
            | inl still ↦ inr (
              e,
              written ++ done,
              left,
              ground arith,
              ap (λ l. written ++ l) same ∙ sym (append_assoc written done left),
              subst (Buffer (written ++ done) left) (ground arith) k,
              refusal,
            )
            | inr less ↦ inl (
              written ++ done,
              left,
              ground arith,
              ap (λ l. written ++ l) same ∙ sym (append_assoc written done left),
              subst (Open s (written ++ done) left) (ground arith) (
                  append-opens s (written ++ done) left _ k
                    (shorter (flush output w).1.batch left k.batch less)),
            )
          ]
    ]
  ]
