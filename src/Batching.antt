-- ===== src/Batching.antt =====
-- _examples/batchprocessing/batchWriter.go: a batchWriter, which is the handler of a receiver and
-- its offset persister at once. The persister that it writes to and the io.Writer are services
-- that act on the world; C is persist.Checkpoint.
pub mod Buffer
pub mod Entries
pub mod Flushing
pub mod Main
pub mod Partition
pub mod Received
pub mod Waiting
pub mod Writing
use azure_event_hubs_go.Base.{
  ℕ, String, Option, none, some, List, [], ◌∷◌, ◌++◌, leb, if◌then◌else◌, length,
}
use azure_event_hubs_go.Go.{Outcome, returned, panicked, Error, Result, ok, err, Call}

pub record PersistRecord (C : Type 0) : Type 0 where
  pub namespace : String
  pub name : String
  pub consumer_group : String
  pub partition_id : String
  pub checkpoint : C

pub record BatchWriter (C W : Type 0) : Type 0 where
  pub batch_size : ℕ
  pub batch : List String
  pub persist_records : List (PersistRecord C)
  pub flushed : Option (PersistRecord C)
  pub world : W

-- fmt.Fprintln to the writer, with its error; Read and Write of the persister.
pub record Output (C W : Type 0) : Type 0 where
  pub println : String → Call W (Unit {0})
  pub read : String → String → String → String → Call W C
  pub write : String → String → String → String → C → Call W (Unit {0})

-- batchSize, the variable of the package; nothing else reads the field of that name.
abbrev pub batch_size : ℕ
batch_size = 10

unfoldable pub new_batch_writer : {C W : Type 0} → W → BatchWriter C W
new_batch_writer w = record {
  batch_size = batch_size;
  batch = [];
  persist_records = [];
  flushed = none;
  world = w;
}

-- w.batch = append(w.batch, string(event.Data))
abbrev pub append : {C W : Type 0} → String → BatchWriter C W → BatchWriter C W
append s w = record w { batch = w.batch ++ (s ∷ []) }

module _ {C W : Type 0} (output : Output C W) where
  unfoldable pub read :
      String → String → String → String → BatchWriter C W → Result C × BatchWriter C W
  read namespace name group p w =
      let (r, world) = output.read namespace name group p w.world in (r, record w { world = world })

  -- What Write does about the last event flushed.
  unfoldable pub write_flushed : BatchWriter C W → Result (Unit {0}) × BatchWriter C W
  write_flushed w = elim w.flushed [
    | none ↦ (ok tt, w)
    | some r ↦
        let (result, world) =
          output.write r.namespace r.name r.consumer_group r.partition_id r.checkpoint w.world in
        elim result [
          | err e ↦ (err e, record w { flushed = none; world = world })
          | ok u ↦ (ok tt, record w { world = world })
        ]
  ]

  unfoldable pub write :
      String → String → String → String → C → BatchWriter C W → Result (Unit {0}) × BatchWriter C W
  unfolding write_flushed
  write namespace name group p c w =
      let (result, w') = write_flushed w in
      (
        result,
        record w' {
          persist_records =
              w'.persist_records
              ++ (record {
                namespace = namespace;
                name = name;
                consumer_group = group;
                partition_id = p;
                checkpoint = c;
              }
                  ∷ []);
        },
      )

  -- The loop of Flush over the lines and the records that are left. An index beyond the records
  -- panics.
  unfoldable pub flush_from :
      List String
      → List (PersistRecord C)
      → BatchWriter C W
      → Outcome (Option Error) × BatchWriter C W
  flush_from [] rs w = (returned none, record w { batch = []; persist_records = [] })
  flush_from (s ∷ ss) rs w =
      let (r, world) = output.println s w.world in
      elim r [
        | err e ↦
            (returned (some e), record w { batch = s ∷ ss; persist_records = rs; world = world })
        | ok u ↦ elim rs [
          | [] ↦ (panicked, record w { world = world })
          | p ∷ ps ↦ flush_from ss ps (record w { flushed = some p; world = world })
        ]
      ]

  unfoldable pub flush : BatchWriter C W → Outcome (Option Error) × BatchWriter C W
  unfolding flush_from
  flush w = flush_from w.batch w.persist_records w

  -- The argument is string(event.Data).
  unfoldable pub handle_event :
      String → BatchWriter C W → Outcome (Result (Unit {0})) × BatchWriter C W
  unfolding flush
  handle_event s w =
      if leb batch_size (length w.batch)
      then (let (o, w') = flush w in
          elim o [
            | panicked ↦ (panicked, w')
            | returned none ↦ (returned (ok tt), append s w')
            | returned (some e) ↦
                if leb batch_size (length w'.batch)
                then (returned (err e), w')
                else (returned (ok tt), append s w')
          ])
      else (returned (ok tt), append s w)
