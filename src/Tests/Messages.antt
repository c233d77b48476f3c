-- ===== src/Tests/Messages.antt =====
-- event.go, receiver.go and sender.go; data, times and checkpoints are numbers, and the world of a
-- receiver is what its persister holds.
use azure_event_hubs_go.Eph.Host.Stored as HostStored
use azure_event_hubs_go.Eph.Host.Composite.{composite_handlers}
use azure_event_hubs_go.Base.{
  ℕ, ◌+◌, String, ◌≡◌, refl, Bool, not, Option, none, some, List, [], ◌∷◌, ◌==◌, if◌then◌else◌,
  true, ◌↔◌,
}
use azure_event_hubs_go.Go.{errors_new, returned, Result, ok, err, Method}
use azure_event_hubs_go.Event.{
  Value, string, int64, Message, Event, EventBatch, event_from_msg, to_event, batch_message,
  get_checkpoint,
}
use azure_event_hubs_go.Event.RoundTrip
use azure_event_hubs_go.Event.Typed
use azure_event_hubs_go.Event.Typed.{IsString, IsTime, IsInt64}
use azure_event_hubs_go.Dict.{lookup}
use azure_event_hubs_go.Receiver.Handling.{handle_messages}
use azure_event_hubs_go.Receiver.{Service, Receiver, receiver_of}
use azure_event_hubs_go.Receiver.Stored
use azure_event_hubs_go.Sender
use azure_event_hubs_go.Sender.Delivery
use azure_event_hubs_go.Base.{zero, suc}
use azure_event_hubs_go.Go.{external}

abbrev new_message : ℕ → Message ℕ ℕ
new_message b = record {
  payload = b ∷ [];
  properties = none;
  application_properties = [];
  annotations = [];
  format = 0;
}

abbrev event : Event ℕ ℕ
event = record {
  payload = 5;
  partition_key = some "key";
  properties = ("color", string "red") ∷ [];
  id = "e";
  message = none;
}

abbrev batch : EventBatch ℕ ℕ
batch = record {
  events = event ∷ event ∷ [];
  partition_key = some "key";
  properties = [];
  id = "b";
}

abbrev encode : ℕ → ℕ
encode b = b + 100

abbrev marshal : Message ℕ ℕ → Result ℕ
marshal m = elim m.payload [ [] ↦ err (errors_new "no data") | b ∷ bs ↦ ok (encode b) ]

to_event-holds_example :
    to_event new_message marshal batch
    ≡ returned (
        ok (record {
          payload = 105;
          partition_key = none;
          properties = [];
          id = "b";
          message = some (batch_message new_message "b" (105 ∷ 105 ∷ []));
        }))
to_event-holds_example =
    RoundTrip.to_event-holds new_message marshal encode (λ b. refl) batch event (event ∷ []) refl

abbrev service : Service ℕ ℕ ℕ (Message ℕ ℕ) ℕ (Option ℕ)
service = record {
  hub_name = "hub";
  namespace_name = "ns";
  offset = λ c. "1";
  new_connection = λ w. (ok 0, w);
  negotiate_claim = λ k a w. (ok tt, w);
  new_session = λ k w. (ok 0, w);
  new_uuid = λ w. (ok "u", w);
  new_receiver = λ n o w. (ok 0, w);
  close_connection = λ k w. (ok tt, w);
  receive = λ l w. (ok (new_message 0), w);
  accept = λ m w. w;
  modify = λ m w. w;
  read = λ a b g p w. (elim w [ none ↦ err (errors_new "missing") | some c ↦ ok c ], w);
  write = λ a b g p c w. (ok tt, some c);
}

abbrev new_checkpoint : String → ℕ → ℕ → ℕ
new_checkpoint offset number time = number

abbrev succeeds : Event ℕ ℕ → Bool
succeeds e = not (e.id == "bad")

abbrev handler : Event ℕ ℕ → Method (Option ℕ) (Result (Unit {0}))
handler e w = (returned (if succeeds e then ok tt else err (errors_new "bad event")), w)

abbrev message_of : String → ℕ → Message ℕ ℕ
message_of id n = record (new_message 5) {
  properties = some (string id);
  annotations = ("x-opt-sequence-number", int64 n) ∷ [];
}

abbrev stored : Option ℕ → Option ℕ
stored w = w

abbrev receiver : Receiver ℕ ℕ ℕ (Option ℕ)
receiver = receiver_of "0" none

abbrev messages : List (Message ℕ ℕ)
messages = message_of "m" 7 ∷ message_of "n" 8 ∷ message_of "bad" 9 ∷ []

persister : Stored.IsPersister service 0 new_checkpoint handler stored succeeds "$Default" "0"
persister = record {
  written = λ c w. refl;
  kept = λ m w. refl;
  modified = λ m w. refl;
  handled = λ e w. refl;
  accepted = λ e w h. rw h refl;
  refused = λ e w h. (errors_new "bad event", rw h refl);
}

stored-handle_messages_example :
    ((handle_messages service 0 new_checkpoint handler messages receiver).0 ≡ returned tt)
    × ((handle_messages service 0 new_checkpoint handler messages receiver).1.world ≡ some 8)
unfolding event_from_msg azure_event_hubs_go.Event.get_checkpoint azure_event_hubs_go.Dict.lookup
stored-handle_messages_example =
    Stored.stored-handle_messages service 0 new_checkpoint handler stored succeeds messages receiver
      (some 8) persister refl

-- A host with a handler that fails and one that may.
abbrev handles : Event ℕ ℕ → Option ℕ → Result (Unit {0}) × Option ℕ
handles e w = (if succeeds e then ok tt else err (errors_new "bad event"), w)

abbrev failing : Event ℕ ℕ → Option ℕ → Result (Unit {0}) × Option ℕ
failing e w = (err (errors_new "failed"), w)

abbrev handlers : HostStored.Handlers service 0 new_checkpoint stored
handlers = ("a", failing) ∷ ("b", handles) ∷ []

stored-composite_handlers_example :
    let (o, r') =
      handle_messages service 0 new_checkpoint
        (HostStored.calls service 0 new_checkpoint stored (composite_handlers (λ hs. hs) handlers))
        messages
        receiver in
    (o ≡ returned tt) × (r'.world ≡ some 9)
unfolding event_from_msg azure_event_hubs_go.Event.get_checkpoint azure_event_hubs_go.Dict.lookup
stored-composite_handlers_example =
    HostStored.stored-composite_handlers service 0 new_checkpoint stored (λ hs. hs) handlers
      messages receiver (some 9) (λ c w. refl) (λ m w. (refl, refl))
      ((λ e w. refl), ((λ e w. refl), tt)) refl

-- A sender's world is the number of sends that are to fail.
abbrev sending : Sender.Service ℕ ℕ ℕ (Message ℕ ℕ) ℕ
sending = record {
  hub_name = "hub";
  new_connection = λ w. (ok 1, w);
  negotiate_claim = λ k a w. (ok tt, w);
  new_session = λ k w. (ok 1, w);
  new_uuid = λ w. (ok "u", w);
  new_sender = λ n a w. (ok 1, w);
  close_link = λ l w. w;
  close_session = λ n w. w;
  close_connection = λ k w. w;
  send = λ l m w. elim w [ zero ↦ (ok tt, zero) | suc n ↦ (err (external "detached"), n) ];
  is_amqp = λ e. true;
  context_done = λ w. none;
  delay = λ w. w;
  reset = λ w. w;
}

abbrev left : ℕ → ℕ
left w = w

failures : Delivery.HasFailures sending left
failures = record {
  alive = λ w. refl;
  sends = λ l m w e. rw e refl;
  fails = λ l m w n e. rw e (external "detached", refl, refl, refl);
  connects = λ w. refl;
  claims = λ k a w. refl;
  makes_session = λ k w. refl;
  makes_sender = λ n a w. refl;
  draws = λ w. ("u", w, refl, refl);
  closes_link = λ l w. refl;
  closes_session = λ n w. refl;
  closes_connection = λ k w. refl;
  delays = λ w. refl;
  resets = λ w. refl;
}

abbrev sender : Sender.Sender ℕ ℕ ℕ ℕ
sender = record {
  connection = some 0;
  session = some (record { session = 0; session_id = "s" });
  link = some 0;
  partition_id = some "1";
  world = 2;
}

ready : Delivery.IsReady sending left 2 sender
ready = record {
  counted = refl;
  linked = (0, refl);
  in_session = (record { session = 0; session_id = "s" }, refl);
  connected = (0, refl);
}

abbrev received : Event ℕ ℕ
received = record event { message = some (message_of "m" 7) }

get_checkpoint-typed_example :
    ((c : ℕ) × (get_checkpoint 0 new_checkpoint received ≡ returned c)) ↔ (
      (m : Message ℕ ℕ) × (received.message ≡ some m)
      × IsString (lookup "x-opt-offset" m.annotations)
      × IsTime (lookup "x-opt-enqueued-time" m.annotations)
      × IsInt64 (lookup "x-opt-sequence-number" m.annotations))
get_checkpoint-typed_example = Typed.get_checkpoint-typed 0 new_checkpoint received
