-- ===== src/Tests/Hubs.antt =====
-- A hub of hub.go with a receiver on a partition.
use azure_event_hubs_go.Base.{
  zero, suc, ℕ, String, ◌≡◌, refl, true, none, some, [], ◌∷◌, arith, eq_iff,
}
use azure_event_hubs_go.Go.{errors_new, ok, err, returned}
use azure_event_hubs_go.Dict.{lookup, keys}
use azure_event_hubs_go.Event.{Message, Event}
use azure_event_hubs_go.HelloWorld.Listens
use azure_event_hubs_go.HelloWorld.Consumer.{receive_all}
use azure_event_hubs_go.Hub.{Hub, Setting, new_hub, hub_with_user_agent}
use azure_event_hubs_go.Hub.Client.{Amqp, receive, close}
use azure_event_hubs_go.Hub.Closing
use azure_event_hubs_go.Hub.Closing.{ended_of, close-ends}
use azure_event_hubs_go.Hub.Options.{agent}
use azure_event_hubs_go.Hub.Kept.{IsHub}
use azure_event_hubs_go.Hub.Reachable.{made, stepped, received, reached-IsHub}
use azure_event_hubs_go.Sender.{Sender}
use azure_event_hubs_go.Sender.Delivery.{HasFailures, IsReady}
use azure_event_hubs_go.Hub.Sending.{send}
use azure_event_hubs_go.Hub.Delivery.{send-delivers}
use azure_event_hubs_go.Hub.Client.{get_sender, sender_service, sender_alone}

abbrev amqp : Amqp ℕ ℕ ℕ ℕ (Message ℕ ℕ) ℕ String ℕ ℕ
amqp = record {
  dial = λ h p w. (ok 1, w);
  goos = "linux";
  runtime = "go1.11";
  negotiate = λ a k p w. (ok tt, w);
  new_session = λ k w. (ok 2, w);
  new_uuid = λ w. (ok "id", w);
  new_receiver = λ n o w. (ok 3, w);
  new_sender = λ n a w. (ok 4, w);
  close_connection = λ k w. (err (errors_new "closed"), w);
  receive = λ l w. (err (errors_new "none"), w);
  accept = λ m w. w;
  modify = λ m w. w;
  close_link = λ l w. w;
  close_session = λ n w. w;
  send = λ l m w. elim w [ zero ↦ (ok tt, zero) | suc n ↦ (err (errors_new "detached"), n) ];
  is_amqp = λ e. true;
  context_done = λ w. none;
  delay = λ w. w;
  reset = λ w. w;
  offset = λ c. "7";
  read = λ o a b g p w. (ok 7, w);
  write = λ o a b g p c w. (ok tt, w);
}

abbrev setting : Setting String ℕ ℕ
setting = record {
  parse = λ s. err (errors_new s);
  with_key = λ n k. ok "key";
  sas_environment = λ w. (ok "key", w);
  aad_environment = λ w. (ok "key", w);
  getenv = λ v. v;
  memory_persister = λ w. (0, w);
  no_provider = λ a s. a;
  public_cloud = record { service_bus_endpoint_suffix = "servicebus.windows.net" };
}

abbrev fresh_hub : Hub ℕ ℕ ℕ ℕ String ℕ ℕ
fresh_hub = record {
  name = "hub";
  namespace = record {
    name = "ns";
    token_provider = some "key";
    host = "amqps://ns.servicebus.windows.net";
  };
  receivers = [];
  sender = none;
  sender_partition_id = none;
  offset_persister = 0;
  user_agent = "/golang-event-hubs/test";
  world = 0;
}

abbrev new_message : ℕ → Message ℕ ℕ
new_message b = record {
  payload = b ∷ [];
  properties = none;
  application_properties = [];
  annotations = [];
  format = 0;
}

abbrev decimal : ℕ → String
decimal n = "n"

abbrev listening_hub : Hub ℕ ℕ ℕ ℕ String ℕ ℕ
listening_hub = (receive amqp decimal "-1" "0" [] fresh_hub).1

new_hub_run :
    (new_hub {K = ℕ} {N = ℕ} {L = ℕ} {S = ℕ} setting "ns" "hub" "key"
      (hub_with_user_agent "test" ∷ [])
      0).0
    ≡ ok fresh_hub
unfolding new_hub hub_with_user_agent
new_hub_run = refl

reached-IsHub_example : IsHub amqp decimal listening_hub
reached-IsHub_example =
    reached-IsHub amqp new_message (λ e w. (ok e, w)) (λ m. ok 0) decimal "-1" listening_hub
      (stepped fresh_hub listening_hub
        (made setting "ns" "hub" "key" (hub_with_user_agent "test" ∷ []) 0 fresh_hub
          (agent "test", tt) new_hub_run)
        (received "0" [] fresh_hub))

close-ends_example :
    ((key : String)
      → lookup key (close amqp (λ ks. ks) listening_hub).1.receivers
        ≡ ended_of (lookup key listening_hub.receivers))
    × ((close amqp (λ ks. ks) listening_hub).1.sender ≡ listening_hub.sender)
    × ((close amqp (λ ks. ks) listening_hub).1.world
        ≡ Closing.closings amqp
            (keys listening_hub.receivers)
            listening_hub.receivers
            listening_hub.world)
close-ends_example = close-ends amqp (λ ks. ks) listening_hub (λ key ks i. i)

-- The hub, while two sends are to fail.
abbrev failing_hub : Hub ℕ ℕ ℕ ℕ String ℕ ℕ
failing_hub = record fresh_hub { world = 2 }

abbrev sender_made : Sender ℕ ℕ ℕ ℕ
sender_made = record {
  connection = some 1;
  session = some (record { session = 2; session_id = "id" });
  link = some 4;
  partition_id = none;
  world = 2;
}

abbrev hub_with_sender : Hub ℕ ℕ ℕ ℕ String ℕ ℕ
hub_with_sender = record failing_hub { sender = some (sender_alone sender_made) }

abbrev left : ℕ → ℕ
left w = w

failures : HasFailures (sender_service amqp hub_with_sender) left
unfolding sender_service
failures = record {
  alive = λ w. refl;
  sends = λ l m w e. rw e refl;
  fails = λ l m w n e. rw e (errors_new "detached", refl, refl, refl);
  connects = λ w. refl;
  claims = λ k a w. refl;
  makes_session = λ k w. refl;
  makes_sender = λ n a w. refl;
  draws = λ w. ("id", w, refl, refl);
  closes_link = λ l w. refl;
  closes_session = λ n w. refl;
  closes_connection = λ k w. refl;
  delays = λ w. refl;
  resets = λ w. refl;
}

ready : IsReady (sender_service amqp hub_with_sender) left 2 sender_made
ready = record {
  counted = refl;
  linked = (4, refl);
  in_session = (record { session = 2; session_id = "id" }, refl);
  connected = (1, refl);
}

abbrev event : Event ℕ ℕ
event = record { payload = 7; partition_key = none; properties = []; id = ""; message = none }

sender_made_run : get_sender amqp failing_hub ≡ (ok sender_made, hub_with_sender)
unfolding get_sender
sender_made_run = refl

send-delivers_example :
    (send amqp new_message (λ e w. (ok e, w)) 3 [] event failing_hub).0 ≡ some (returned (ok tt))
send-delivers_example =
    send-delivers amqp new_message (λ e w. (ok e, w)) left 2 event failing_hub hub_with_sender
      sender_made sender_made_run failures (λ e w. (e, w, refl, refl)) ready

receive_all-Listens_example :
    Listens.Attempts amqp decimal "-1" 0
      ("0" ∷ "1" ∷ [])
      fresh_hub
      (receive_all amqp decimal "-1" 0 ("0" ∷ "1" ∷ []) fresh_hub)
receive_all-Listens_example =
    Listens.receive_all-Listens amqp decimal "-1" 0 ("0" ∷ "1" ∷ []) fresh_hub
      (((λ e. ground (arith, eq_iff "0" "1")), tt), (tt, tt))
