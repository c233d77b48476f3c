-- ===== src/Tests/Batching.antt =====
-- batchWriter.go and main.go of _examples/batchprocessing. The world is the lines printed and the
-- record that the persister holds; the line "torn" is refused.
use azure_event_hubs_go.Base.{
  ℕ, String, ◌≡◌, ◌⊎◌, refl, inl, inr, Option, none, some, List, [], ◌∷◌, ◌++◌, ◌==◌, if◌then◌else◌,
  Bool-cases, arith, true,
}
use azure_event_hubs_go.Go.{errors_new, ok, err, Result, Error}
use azure_event_hubs_go.Dict.{lookup, insert}
use azure_event_hubs_go.Event.{Message, int64, event_from_msg, get_checkpoint}
use azure_event_hubs_go.Receiver.{Service, Receiver, receiver_of}
use azure_event_hubs_go.Hub.{Hub, Setting}
use azure_event_hubs_go.Hub.Client.{Amqp}
use azure_event_hubs_go.Batching.{PersistRecord, BatchWriter, Output, write, read}
use azure_event_hubs_go.Batching.Buffer.{Entry, texts, records, IsOutput, IsBuffer, put}
use azure_event_hubs_go.Batching.Main.{main, waiting}
use azure_event_hubs_go.Batching.Received
use azure_event_hubs_go.Batching.Entries.{IsQuiet}
use azure_event_hubs_go.Batching.Waiting
use azure_event_hubs_go.Batching.Writing

abbrev Printed : Type 0
Printed = List String × Option (PersistRecord ℕ)

abbrev lines : Printed → List String
lines w = w.0

abbrev stored : Printed → Option (PersistRecord ℕ)
stored w = w.1

abbrev output : Output ℕ Printed
output = record {
  println =
      λ s w. if s == "torn" then (err (errors_new "torn"), w) else (ok tt, (w.0 ++ (s ∷ []), w.1));
  read = λ a b g p w. (err (errors_new "missing"), w);
  write = λ a b g p c w. (
    ok tt,
    (
      w.0,
      some (record {
        namespace = a;
        name = b;
        consumer_group = g;
        partition_id = p;
        checkpoint = c;
      }),
    ),
  );
}

is_output : IsOutput output lines stored
is_output = record {
  printed = λ s w e. elim (Bool-cases (s == "torn")) [
    | inl q ↦ absurd (ground arith)
    | inr q ↦ ground arith
  ];
  refused = λ s w x e. elim (Bool-cases (s == "torn")) [
    | inl q ↦ ground arith
    | inr q ↦ absurd (ground arith)
  ];
  printing = λ s w. elim (Bool-cases (s == "torn")) [ inl q ↦ ground arith | inr q ↦ ground arith ];
  writing = λ r w. refl;
  wrote = λ r w e. refl;
  failed = λ r w x e. inr refl;
}

abbrev service : Service ℕ ℕ ℕ (Message String ℕ) ℕ Printed
service = record {
  hub_name = "hub";
  namespace_name = "ns";
  offset = λ c. "1";
  new_connection = λ w. (ok 0, w);
  negotiate_claim = λ k a w. (ok tt, w);
  new_session = λ k w. (ok 0, w);
  new_uuid = λ w. (ok "u", w);
  new_receiver = λ n o w. (ok 0, w);
  close_connection = λ k w. (ok tt, w);
  receive = λ l w. (err (errors_new "none"), w);
  accept = λ m w. w;
  modify = λ m w. w;
  read = λ a b g p w. (err (errors_new "missing"), w);
  write = λ a b g p c w. (ok tt, w);
}

abbrev new_checkpoint : String → ℕ → ℕ → ℕ
new_checkpoint offset number time = number

abbrev identity : String → String
identity s = s

abbrev message_of : String → ℕ → Message String ℕ
message_of s n = record {
  payload = s ∷ [];
  properties = none;
  application_properties = [];
  annotations = ("x-opt-sequence-number", int64 n) ∷ [];
  format = 0;
}

abbrev messages : List (Message String ℕ)
messages = message_of "a" 1 ∷ message_of "torn" 2 ∷ message_of "c" 3 ∷ []

abbrev record_of : ℕ → PersistRecord ℕ
record_of n = record {
  namespace = "ns";
  name = "hub";
  consumer_group = "$Default";
  partition_id = "0";
  checkpoint = n;
}

abbrev entries : List (Entry ℕ)
entries = ("a", record_of 1) ∷ ("torn", record_of 2) ∷ ("c", record_of 3) ∷ []

-- Nine entries in the buffer, so that the second message makes it flush.
abbrev held : List (Entry ℕ)
held =
    ("1", record_of 0)
    ∷ ("2", record_of 0)
    ∷ ("3", record_of 0)
    ∷ ("4", record_of 0)
    ∷ ("5", record_of 0)
    ∷ ("6", record_of 0)
    ∷ ("7", record_of 0)
    ∷ ("8", record_of 0)
    ∷ ("9", record_of 0)
    ∷ []

abbrev receiver : Receiver ℕ ℕ ℕ (BatchWriter ℕ Printed)
receiver = receiver_of "0" (record {
  batch_size = 10;
  batch = texts held;
  persist_records = records held;
  flushed = none;
  world = ([], none);
})

is_quiet : IsQuiet service lines stored
is_quiet = record {
  accept_lines = λ m w. refl;
  accept_stored = λ m w. refl;
  modify_lines = λ m w. refl;
  modify_stored = λ m w. refl;
}

buffer : IsBuffer output lines stored [] none [] held receiver.world
buffer = record {
  is_written = record { printed = refl; flushed = inl refl; persisted = inl refl };
  batch = refl;
  records = refl;
  fits = omega arith;
}

handle_messages-keeps_example :
    Received.Keeps output identity service 0 new_checkpoint lines stored [] none
      (Received.run output identity service 0 new_checkpoint lines stored [] none messages receiver)
      held
      entries
unfolding lookup event_from_msg get_checkpoint
handle_messages-keeps_example =
    Received.handle_messages-keeps output identity service 0 new_checkpoint lines stored [] none
      is_output is_quiet messages entries [] held receiver refl buffer

abbrev flushed_writer : BatchWriter ℕ Printed
flushed_writer = record {
  batch_size = 10;
  batch = "b" ∷ [];
  persist_records = [];
  flushed = some (record_of 1);
  world = ("a" ∷ [], none);
}

write-again_example :
    let first = write output "ns" "hub" "$Default" "0" 2 flushed_writer in
    let second = write output "ns" "hub" "$Default" "0" 3 first.1 in
    let once = put output (record_of 1) flushed_writer.world in
    ((once.0 ≡ ok tt)
      × (first.0 ≡ ok tt)
      × (first.1.world ≡ once.1)
      × (second.1.world ≡ (put output (record_of 1) once.1).1))
    ⊎ ((e : Error) × (once.0 ≡ err e)
        × (first.0 ≡ err e)
        × (second.0 ≡ ok tt)
        × (second.1.world ≡ once.1))
write-again_example =
    Writing.write-again output (record_of 1) "ns" "hub" "$Default" "0" "ns" "hub" "$Default" "0" 2 3
      flushed_writer refl

abbrev amqp : Amqp ℕ ℕ ℕ ℕ (Message String ℕ) ℕ String ℕ (BatchWriter ℕ Printed)
amqp = record {
  dial = λ h p w. (ok 1, w);
  goos = "linux";
  runtime = "go1.11";
  negotiate = λ a k p w. (ok tt, w);
  new_session = λ k w. (ok 2, w);
  new_uuid = λ w. (ok "id", w);
  new_receiver = λ n o w. (ok 3, w);
  new_sender = λ n a w. (ok 4, w);
  close_connection = λ k w. (ok tt, w);
  receive = λ l w. (err (errors_new "none"), w);
  accept = λ m w. w;
  modify = λ m w. w;
  close_link = λ l w. w;
  close_session = λ n w. w;
  send = λ l m w. (ok tt, w);
  is_amqp = λ e. true;
  context_done = λ w. none;
  delay = λ w. w;
  reset = λ w. w;
  offset = λ c. "7";
  read = λ o. read output;
  write = λ o. write output;
}

abbrev setting : Setting String ℕ (BatchWriter ℕ Printed)
setting = record {
  parse = λ s. err (errors_new s);
  with_key = λ n k. ok "key";
  sas_environment = λ w. (ok "key", w);
  aad_environment = λ w. (ok "key", w);
  getenv = λ v.
      if v == "EVENTHUB_CONSUMERGROUP"
      then ""
      else if v == "EVENTHUB_PARTITIONID"
      then ""
      else if v == "HOSTNAME"
      then "worker-7"
      else v;
  memory_persister = λ w. (0, w);
  no_provider = λ a s. a;
  public_cloud = record { service_bus_endpoint_suffix = "servicebus.windows.net" };
}

abbrev new_file_persister : String → Printed → Result ℕ × Printed
new_file_persister d w = (ok 5, w)

abbrev waiting_hub : Hub ℕ ℕ ℕ ℕ String ℕ (BatchWriter ℕ Printed)
waiting_hub = record {
  name = "EVENTHUB_NAME";
  namespace = record {
    name = "EVENTHUB_NAMESPACE";
    token_provider = some "key";
    host = "amqps://EVENTHUB_NAMESPACE.servicebus.windows.net";
  };
  receivers =
      (
        "EVENTHUB_NAME/ConsumerGroups/$Default/Partitions/7",
        record {
          connection = some 1;
          session = some (record { session = 2; session_id = "id" });
          link = some 3;
          consumer_group = "$Default";
          partition_id = "7";
          prefetch_count = 20000;
          listening = some true;
          epoch = none;
          last_error = none;
          world = tt;
        },
      )
      ∷ [];
  sender = none;
  sender_partition_id = none;
  offset_persister = 5;
  user_agent = "/golang-event-hubs";
  world = record {
    batch_size = 10;
    batch = [];
    persist_records = [];
    flushed = none;
    world = ([], none);
  };
}

abbrev letter : ℕ → String
letter n = "n"

abbrev same : ℕ → ℕ
same f = f

main_run : main setting amqp letter "-1" new_file_persister same ([], none) ≡ waiting waiting_hub
unfolding main lookup insert read
main_run = refl

main-waits_example :
    (p : String) × (fp : ℕ) × Waiting.IsPartition setting amqp letter "-1" new_file_persister same p
    × ((new_file_persister (setting.getenv "EVENTHUB_FILEPERSIST_DIRECTORY") ([], none)).0 ≡ ok fp)
    × (waiting_hub.offset_persister ≡ same fp)
    × Waiting.Receives setting amqp letter "-1" new_file_persister same p waiting_hub
main-waits_example =
    Waiting.main-waits setting amqp letter "-1" new_file_persister same ([], none) waiting_hub
      main_run
