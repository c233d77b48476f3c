-- ===== src/Event/Typed.antt =====
-- When the type assertions of GetCheckpoint, in event.go, hold.
use azure_event_hubs_go.Base.{
  ◌≡◌, refl, ◌↔◌, ◌⊎◌, inl, inr, String, ℕ, Option, none, some, arith, Option-cases,
}
use azure_event_hubs_go.Go.{returned, Outcome-cases}
use azure_event_hubs_go.Dict.{lookup}
use azure_event_hubs_go.Event.{
  Value, string, int64, time, string_pointer, other, Message, Event, get_checkpoint, string_or,
  time_or, int64_or, offset_annotation_name, enqueue_time_name, sequence_number_name,
}

-- An annotation that is missing, or has the dynamic type that the code asserts.
abbrev pub IsString : {T : Type 0} → Option (Value T) → Type 0
IsString o = (o ≡ none) ⊎ ((s : String) × (o ≡ some (string s)))

abbrev pub IsTime : {T : Type 0} → Option (Value T) → Type 0
IsTime {T = T} o = (o ≡ none) ⊎ ((t : T) × (o ≡ some (time t)))

abbrev pub IsInt64 : {T : Type 0} → Option (Value T) → Type 0
IsInt64 o = (o ≡ none) ⊎ ((n : ℕ) × (o ≡ some (int64 n)))

module _ {T : Type 0} where
  string_or-IsString :
      (z s : String) (o : Option (Value T)) → string_or z o ≡ returned s → IsString o
  string_or-IsString z s none e = inl refl
  string_or-IsString z s (some (string t)) e = inr (t, refl)
  string_or-IsString z s (some (string_pointer t)) e = absurd (ground arith)
  string_or-IsString z s (some (int64 n)) e = absurd (ground arith)
  string_or-IsString z s (some (time t)) e = absurd (ground arith)
  string_or-IsString z s (some other) e = absurd (ground arith)

  IsString-string_or :
      (z : String) (o : Option (Value T)) → IsString o → (s : String) × (string_or z o ≡ returned s)
  IsString-string_or z o (inl e) = (z, ground arith)
  IsString-string_or z o (inr (s, e)) = (s, ground arith)

  time_or-IsTime : (z s : T) (o : Option (Value T)) → time_or z o ≡ returned s → IsTime o
  time_or-IsTime z s none e = inl refl
  time_or-IsTime z s (some (time t)) e = inr (t, refl)
  time_or-IsTime z s (some (string_pointer t)) e = absurd (ground arith)
  time_or-IsTime z s (some (int64 n)) e = absurd (ground arith)
  time_or-IsTime z s (some (string t)) e = absurd (ground arith)
  time_or-IsTime z s (some other) e = absurd (ground arith)

  IsTime-time_or : (z : T) (o : Option (Value T)) → IsTime o → (s : T) × (time_or z o ≡ returned s)
  IsTime-time_or z o (inl e) = (z, ground arith)
  IsTime-time_or z o (inr (s, e)) = (s, ground arith)

  int64_or-IsInt64 : (z s : ℕ) (o : Option (Value T)) → int64_or z o ≡ returned s → IsInt64 o
  int64_or-IsInt64 z s none e = inl refl
  int64_or-IsInt64 z s (some (int64 n)) e = inr (n, refl)
  int64_or-IsInt64 z s (some (string_pointer t)) e = absurd (ground arith)
  int64_or-IsInt64 z s (some (string t)) e = absurd (ground arith)
  int64_or-IsInt64 z s (some (time t)) e = absurd (ground arith)
  int64_or-IsInt64 z s (some other) e = absurd (ground arith)

  IsInt64-int64_or :
      (z : ℕ) (o : Option (Value T)) → IsInt64 o → (s : ℕ) × (int64_or z o ≡ returned s)
  IsInt64-int64_or z o (inl e) = (z, ground arith)
  IsInt64-int64_or z o (inr (s, e)) = (s, ground arith)

module _ {B T C : Type 0} (zero_time : T) (new_checkpoint : String → ℕ → T → C) where
  -- GetCheckpoint returns a checkpoint exactly where the event has a message, whose offset is a
  -- string, whose enqueued time is a time.Time and whose sequence number is an int64, each of them
  -- if it is there; otherwise it panics.
  pub get_checkpoint-typed :
      (e : Event B T)
      → ((c : C) × (get_checkpoint zero_time new_checkpoint e ≡ returned c)) ↔ (
          (m : Message B T) × (e.message ≡ some m)
          × IsString (lookup offset_annotation_name m.annotations)
          × IsTime (lookup enqueue_time_name m.annotations)
          × IsInt64 (lookup sequence_number_name m.annotations))
  unfolding get_checkpoint
  get_checkpoint-typed e = (
    λ (c, h). elim (Option-cases e.message) [
      | inl q ↦ absurd (ground arith)
      | inr (m, q) ↦
          let a = lookup offset_annotation_name m.annotations in
          let b = lookup enqueue_time_name m.annotations in
          let n = lookup sequence_number_name m.annotations in
          elim (Outcome-cases (string_or "" a)) [
            | inr x ↦ absurd (ground arith)
            | inl (s, x) ↦ elim (Outcome-cases (time_or zero_time b)) [
              | inr y ↦ absurd (ground arith)
              | inl (t, y) ↦ elim (Outcome-cases (int64_or 0 n)) [
                | inr k ↦ absurd (ground arith)
                | inl (i, k) ↦ (
                  m,
                  q,
                  string_or-IsString "" s a x,
                  time_or-IsTime zero_time t b y,
                  int64_or-IsInt64 0 i n k,
                )
              ]
            ]
          ]
    ],
    λ (m, q, x, y, k).
        let (s, x') = IsString-string_or "" (lookup offset_annotation_name m.annotations) x in
        let (t, y') = IsTime-time_or zero_time (lookup enqueue_time_name m.annotations) y in
        let (i, k') = IsInt64-int64_or 0 (lookup sequence_number_name m.annotations) k in
        (new_checkpoint s i t, ground arith),
  )
