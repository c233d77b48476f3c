-- ===== src/Batching/Entries.antt =====
-- The entries that the messages of a receiver make in the buffer of batchWriter.go.
use azure_event_hubs_go.Base.{◌≡◌, String, List, [], ◌∷◌, Option, arith, inl, inr, ℕ}
use azure_event_hubs_go.Go.{Outcome, returned, panicked, Outcome-cases}
use azure_event_hubs_go.Event.{Message, Event, event_from_msg, get_checkpoint}
use azure_event_hubs_go.Receiver.{Service}
use azure_event_hubs_go.Batching.{PersistRecord}
use azure_event_hubs_go.Batching.Buffer.{Entry}

-- Some of the entries, in their order.
pub data Chosen (C : Type 0) : List (Entry C) → List (Entry C) → Type 0 where
  nothing : Chosen C [] []
  taken : (e : Entry C) (es fs : List (Entry C)) → Chosen C es fs → Chosen C (e ∷ es) (e ∷ fs)
  left_out : (e : Entry C) (es fs : List (Entry C)) → Chosen C es fs → Chosen C es (e ∷ fs)

module _ {B T K N L C W : Type 0} (service : Service K N L (Message B T) C W) where
  module _ (lines : W → List String) (stored : W → Option (PersistRecord C)) where
    -- Accepting or releasing a message writes no line and no checkpoint.
    pub record IsQuiet : Type 0 where
      pub accept_lines : (m : Message B T) (w : W) → lines (service.accept m w) ≡ lines w
      pub accept_stored : (m : Message B T) (w : W) → stored (service.accept m w) ≡ stored w
      pub modify_lines : (m : Message B T) (w : W) → lines (service.modify m w) ≡ lines w
      pub modify_stored : (m : Message B T) (w : W) → stored (service.modify m w) ≡ stored w

  module _ (text : B → String) (zero_time : T) (new_checkpoint : String → ℕ → T → C) where
    -- The lines and records of the messages; `panicked` where a message has no data or an
    -- annotation of a wrong type.
    abbrev pub entries : String → String → List (Message B T) → Outcome (List (Entry C))
    entries group partition [] = returned []
    entries group partition (m ∷ ms) = elim (event_from_msg m) [
      | panicked ↦ panicked
      | returned e ↦ elim (get_checkpoint zero_time new_checkpoint e) [
        | panicked ↦ panicked
        | returned c ↦ elim (entries group partition ms) [
          | panicked ↦ panicked
          | returned es ↦ returned (
              (
                text e.payload,
                record {
                  namespace = service.namespace_name;
                  name = service.hub_name;
                  consumer_group = group;
                  partition_id = partition;
                  checkpoint = c;
                },
              )
              ∷ es)
        ]
      ]
    ]

    pub entries-cons :
        (group partition : String) (m : Message B T) (ms : List (Message B T)) (es : List (Entry C))
        (ev : Event B T) (c : C)
        → event_from_msg m ≡ returned ev
        → get_checkpoint zero_time new_checkpoint ev ≡ returned c
        → entries group partition (m ∷ ms) ≡ returned es
        → (fs : List (Entry C)) × (entries group partition ms ≡ returned fs)
          × (es
              ≡ (
                text ev.payload,
                record {
                  namespace = service.namespace_name;
                  name = service.hub_name;
                  consumer_group = group;
                  partition_id = partition;
                  checkpoint = c;
                },
              )
                ∷ fs)
    entries-cons group partition m ms es ev c p q e =
        elim (Outcome-cases (entries group partition ms)) [
          | inr t ↦ absurd (ground arith)
          | inl (fs, t) ↦ (fs, t, ground arith)
        ]
