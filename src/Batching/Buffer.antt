-- ===== src/Batching/Buffer.antt =====
-- What batchWriter.go keeps true of its buffer, its persist records and what it has written.
use azure_event_hubs_go.Base.{
  String, ◌≡◌, refl, ◌∙◌, ap, ◌≤◌, ◌<◌, ◌⊎◌, Option, none, some, List, [], ◌∷◌, ◌++◌, length, arith,
  sym, suc, subst, leb, false,
}
use mathlib.Core.List.{append_assoc}
use azure_event_hubs_go.Go.{Error, ok, err}
use azure_event_hubs_go.Batching.{PersistRecord, BatchWriter, Output, batch_size, Call}

-- A line, with the record of the event that it comes from.
abbrev pub Entry : Type 0 → Type 0
Entry C = String × PersistRecord C

module _ {C : Type 0} where
  abbrev pub texts : List (Entry C) → List String
  texts [] = []
  texts ((s, r) ∷ es) = s ∷ texts es

  abbrev pub records : List (Entry C) → List (PersistRecord C)
  records [] = []
  records ((s, r) ∷ es) = r ∷ records es

  -- The record is that of one of the entries.
  abbrev pub Stands : PersistRecord C → List (Entry C) → Type 0
  Stands r es =
      (done : List (Entry C)) × (s : String) × (rest : List (Entry C)) × (es
        ≡ done ++ ((s, r) ∷ rest))

  pub Stands-append :
      (r : PersistRecord C) (es fs : List (Entry C)) → Stands r es → Stands r (es ++ fs)
  Stands-append r es fs (done, s, rest, e) =
      (done, s, rest ++ fs, ap (λ l. l ++ fs) e ∙ append_assoc done ((s, r) ∷ rest) fs)

  pub texts-append : (es fs : List (Entry C)) → texts (es ++ fs) ≡ texts es ++ texts fs
  texts-append [] fs = refl
  texts-append ((s, r) ∷ es) fs = ap (λ l. s ∷ l) (texts-append es fs)

  pub records-append : (es fs : List (Entry C)) → records (es ++ fs) ≡ records es ++ records fs
  records-append [] fs = refl
  records-append ((s, r) ∷ es) fs = ap (λ l. r ∷ l) (records-append es fs)

  pub length-texts : (es : List (Entry C)) → length (texts es) ≡ length es
  length-texts [] = refl
  length-texts ((s, r) ∷ es) = ap suc (length-texts es)

  pub shorter :
      (l : List String) (es : List (Entry C))
      → l ≡ texts es
      → leb batch_size (length l) ≡ false
      → length es < batch_size
  shorter l es e n = ground (arith, length-texts es)

-- WriteCheckpoint of the persister with the fields of a record.
abbrev pub put : {C W : Type 0} → Output C W → PersistRecord C → Call W (Unit {0})
put output r w = output.write r.namespace r.name r.consumer_group r.partition_id r.checkpoint w

-- The writer can refuse a line with the error.
module _ {C W : Type 0} where
  abbrev pub Refuses : Output C W → Error → Type 0
  Refuses output e = (s : String) × (v : W) × ((output.println s v).0 ≡ err e)

module _ {C W : Type 0} (output : Output C W) (lines : W → List String)
    (stored : W → Option (PersistRecord C)) where
  -- `lines` are the lines that the writer has taken without an error, and `stored` is the record
  -- that the persister was last made to hold. A write that fails may have changed it or not.
  pub record IsOutput : Type 0 where
    pub printed :
        (s : String) (w : W)
        → (output.println s w).0 ≡ ok tt
        → lines (output.println s w).1 ≡ lines w ++ (s ∷ [])
    pub refused :
        (s : String) (w : W) (e : Error)
        → (output.println s w).0 ≡ err e
        → lines (output.println s w).1 ≡ lines w
    pub printing : (s : String) (w : W) → stored (output.println s w).1 ≡ stored w
    pub writing : (r : PersistRecord C) (w : W) → lines (put output r w).1 ≡ lines w
    pub wrote :
        (r : PersistRecord C) (w : W)
        → (put output r w).0 ≡ ok tt
        → stored (put output r w).1 ≡ some r
    pub failed :
        (r : PersistRecord C) (w : W) (e : Error)
        → (put output r w).0 ≡ err e
        → (stored (put output r w).1 ≡ stored w) ⊎ (stored (put output r w).1 ≡ some r)

  module _ (before : List String) (earlier : Option (PersistRecord C)) where
    -- `written` are the entries whose lines stand in the writer after what it had before; the last
    -- record flushed and the record in the persister are of one of them, or none and what there
    -- was earlier.
    pub record IsWritten (written : List (Entry C)) (w : BatchWriter C W) : Type 0 where
      pub printed : lines w.world ≡ before ++ texts written
      pub flushed :
          (w.flushed ≡ none) ⊎ ((r : PersistRecord C) × (w.flushed ≡ some r) × Stands r written)
      pub persisted :
          (stored w.world ≡ earlier)
          ⊎ ((r : PersistRecord C) × (stored w.world ≡ some r) × Stands r written)

    -- `pending` are the entries in the buffer, at most as many as its size.
    pub record IsBuffer (written pending : List (Entry C)) (w : BatchWriter C W) : Type 0 where
      pub is_written : IsWritten written w
      pub batch : w.batch ≡ texts pending
      pub records : w.persist_records ≡ records pending
      pub fits : length pending ≤ batch_size

    -- The buffer with one more line, whose record is still to come.
    pub record IsOpen (s : String) (written pending : List (Entry C)) (w : BatchWriter C W)
        : Type 0 where
      pub is_written : IsWritten written w
      pub batch : w.batch ≡ texts pending ++ (s ∷ [])
      pub records : w.persist_records ≡ records pending
      pub room : length pending < batch_size

    -- What changes neither the lines, nor what the persister holds, nor the last record flushed.
    pub alike :
        (written : List (Entry C)) (w w' : BatchWriter C W)
        → IsWritten written w
        → lines w'.world ≡ lines w.world
        → stored w'.world ≡ stored w.world
        → w'.flushed ≡ w.flushed
        → IsWritten written w'
    alike written w w' i e f g = record {
      printed = e ∙ i.printed;
      flushed =
          subst (λ o. (o ≡ none) ⊎ ((r : PersistRecord C) × (o ≡ some r) × Stands r written))
            (sym g) i.flushed;
      persisted =
          subst (λ o. (o ≡ earlier) ⊎ ((r : PersistRecord C) × (o ≡ some r) × Stands r written))
            (sym f) i.persisted;
    }
