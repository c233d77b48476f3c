-- ===== src/Event.antt =====
-- event.go: an Event, the AMQP message that stands for it, and batches. Of package amqp the models
-- have the fields that the code reads and writes; amqp.NewMessage and MarshalBinary are parameters.
-- B is the type of byte slices, T that of time.Time. A nil map is an empty one.
pub mod RoundTrip
pub mod Typed
use azure_event_hubs_go.Base.{ℕ, String, Bool, true, false, Option, none, some, List, [], ◌∷◌}
use azure_event_hubs_go.Go.{Outcome, returned, panicked, Error, Result, ok, err}
use azure_event_hubs_go.Dict.{Dict, lookup, insert}

-- A value of the type interface{}, by the dynamic types that the code tells apart.
pub data Value (T : Type 0) : Type 0 where
  string : String → Value T
  string_pointer : String → Value T
  int64 : ℕ → Value T
  time : T → Value T
  other : Value T

-- amqp.Message; of its properties, the message id.
pub record Message (B T : Type 0) : Type 0 where
  pub payload : List B
  pub properties : Option (Value T)
  pub application_properties : Dict (Value T)
  pub annotations : Dict (Value T)
  pub format : ℕ

-- The message of an event is held by value: to_msg returns the event that it leaves.
pub record Event (B T : Type 0) : Type 0 where
  pub payload : B
  pub partition_key : Option String
  pub properties : Dict (Value T)
  pub id : String
  pub message : Option (Message B T)

pub record EventBatch (B T : Type 0) : Type 0 where
  pub events : List (Event B T)
  pub partition_key : Option String
  pub properties : Dict (Value T)
  pub id : String

abbrev pub batch_message_format : ℕ
batch_message_format = 2147488512

abbrev pub partition_key_annotation_name : String
partition_key_annotation_name = "x-opt-partition-key"

abbrev pub sequence_number_name : String
sequence_number_name = "x-opt-sequence-number"

abbrev pub enqueue_time_name : String
enqueue_time_name = "x-opt-enqueued-time"

-- offsetAnnotationName, of receiver.go
abbrev pub offset_annotation_name : String
offset_annotation_name = "x-opt-offset"

-- val.(string) with its second result
abbrev pub as_string : {T : Type 0} → Value T → Option String
as_string (string s) = some s
as_string (string_pointer s) = none
as_string (int64 n) = none
as_string (time t) = none
as_string other = none

-- val.(time.Time) and val.(int64), which panic on a value of another type; a missing annotation
-- leaves the zero value `z`.
abbrev pub string_or : {T : Type 0} → String → Option (Value T) → Outcome String
string_or z none = returned z
string_or z (some v) = elim (as_string v) [ none ↦ panicked | some s ↦ returned s ]

abbrev pub time_or : {T : Type 0} → T → Option (Value T) → Outcome T
time_or z none = returned z
time_or z (some v) = elim v [ time t ↦ returned t | _ ↦ panicked ]

abbrev pub int64_or : {T : Type 0} → ℕ → Option (Value T) → Outcome ℕ
int64_or z none = returned z
int64_or z (some v) = elim v [ int64 n ↦ returned n | _ ↦ panicked ]

abbrev pub then_outcome {ℓ} : {A B : Type ℓ} → Outcome A → (A → Outcome B) → Outcome B
then_outcome (returned a) f = f a
then_outcome panicked f = panicked

-- ForeachKey: the handler acts on a world; the entries come in the order of the range.
unfoldable pub foreach_key :
    {T W : Type 0} (handler : String → String → W → Option Error × W)
    → Dict (Value T)
    → W
    → Option Error × W
foreach_key handler [] w = (none, w)
foreach_key handler ((key, value) ∷ m) w = elim (as_string value) [
  | none ↦ foreach_key handler m w
  | some s ↦
      let (error, w') = handler key s w in
      elim error [ some e ↦ (some e, w') | none ↦ foreach_key handler m w' ]
]

module _ {B T : Type 0} where
  unfoldable pub new_event : B → Event B T
  new_event b = record {
    payload = b;
    partition_key = none;
    properties = [];
    id = "";
    message = none;
  }

  unfoldable pub new_event_batch : List (Event B T) → EventBatch B T
  new_event_batch events = record {
    events = events;
    partition_key = none;
    properties = [];
    id = "";
  }

  -- GetCheckpoint: offset, enqueue time and sequence number, in the order of the assertions, for
  -- persist.NewCheckpoint.
  unfoldable pub get_checkpoint : {C : Type 0} → T → (String → ℕ → T → C) → Event B T → Outcome C
  get_checkpoint zero_time new_checkpoint e = elim e.message [
    | none ↦ panicked
    | some m ↦ then_outcome (string_or "" (lookup offset_annotation_name m.annotations)) (λ offset.
        then_outcome (time_or zero_time (lookup enqueue_time_name m.annotations)) (λ enqueued.
          then_outcome (int64_or 0 (lookup sequence_number_name m.annotations))
            (λ number. returned (new_checkpoint offset number enqueued))))
  ]

  unfoldable pub set_property : String → String → Event B T → Event B T
  set_property key value e = record e { properties = insert key (string value) e.properties }

  -- newEvent on a message that is not nil
  unfoldable pub event_of : B → Message B T → Event B T
  event_of b m = record {
    payload = b;
    partition_key = elim (lookup partition_key_annotation_name m.annotations) [
      | none ↦ none
      | some v ↦ as_string v
    ];
    properties = m.application_properties;
    id = elim m.properties [ none ↦ "" | some v ↦ elim (as_string v) [ none ↦ "" | some s ↦ s ] ];
    message = some m;
  }

  -- msg.Data[0] panics where there is no data.
  unfoldable pub event_from_msg : Message B T → Outcome (Event B T)
  unfolding event_of
  event_from_msg m = elim m.payload [ [] ↦ panicked | d ∷ ds ↦ returned (event_of d m) ]

  -- `new_message` is amqp.NewMessage.
  module _ (new_message : B → Message B T) where
    -- toMsg: what it writes into the message m.
    unfoldable pub fill : Event B T → Message B T → Message B T
    fill e m = record m {
      properties = some (string e.id);
      application_properties = elim e.properties [
        | [] ↦ m.application_properties
        | p ∷ ps ↦ p ∷ ps
      ];
      annotations = elim e.partition_key [
        | none ↦ m.annotations
        | some k ↦ (partition_key_annotation_name, string_pointer k) ∷ []
      ];
    }

    unfoldable pub to_msg : Event B T → Message B T × Event B T
    unfolding fill
    to_msg e = elim e.message [
      | none ↦ (fill e (new_message e.payload), e)
      | some m ↦ (fill e m, record e { message = some (fill e m) })
    ]

    -- The loop of toEvent.
    unfoldable pub marshal_events : (Message B T → Result B) → List (Event B T) → Result (List B)
    marshal_events marshal [] = ok []
    marshal_events marshal (e ∷ es) = elim (marshal (new_message e.payload)) [
      | err error ↦ err error
      | ok bin ↦ elim (marshal_events marshal es) [
        | err error ↦ err error
        | ok bins ↦ ok (bin ∷ bins)
      ]
    ]

    abbrev pub batch_message : String → List B → Message B T
    batch_message id bins = record {
      payload = bins;
      properties = some (string id);
      application_properties = [];
      annotations = [];
      format = batch_message_format;
    }

    unfoldable pub to_event :
        (Message B T → Result B) → EventBatch B T → Outcome (Result (Event B T))
    unfolding marshal_events event_from_msg
    to_event marshal b = elim (marshal_events marshal b.events) [
      | err error ↦ returned (err error)
      | ok bins ↦ then_outcome (event_from_msg (batch_message b.id bins)) (λ e. returned (ok e))
    ]
