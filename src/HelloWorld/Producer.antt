-- ===== src/HelloWorld/Producer.antt =====
-- _examples/helloworld/producer/main.go: it sends the lines that it reads.
use azure_event_hubs_go.Base.{ℕ, String, List, [], ◌∷◌, ◌==◌, if◌then◌else◌, Option, none, some}
use azure_event_hubs_go.Go.{Outcome, returned, panicked, Result, ok, err, Call}
use azure_event_hubs_go.Event.{Event, Message, new_event}
use azure_event_hubs_go.Hub.{Hub, Setting}
use azure_event_hubs_go.Hub.Client.{Amqp}
use azure_event_hubs_go.Hub.Sending.{send}
use azure_event_hubs_go.HelloWorld.{Resources, init_hub}

-- NewEventFromString, where `bytes` is []byte(message).
unfoldable pub new_event_from_string : {B T : Type 0} → (String → B) → String → Event B T
unfolding new_event
new_event_from_string bytes message = new_event (bytes message)

module _ {B T K N L S C P O W : Type 0} (amqp : Amqp K N L S (Message B T) C P O W)
    (new_message : B → Message B T) (inject : Event B T → Call W (Event B T)) (bytes : String → B)
    (rounds : ℕ) where
  -- The loop over the lines that ReadString returns. The error of Send is dropped; `none` where
  -- Send is still trying after that many rounds.
  unfoldable pub send_lines :
      List String → Hub K N L S P O W → Option (Outcome (Unit {0})) × Hub K N L S P O W
  unfolding send new_event_from_string
  send_lines [] h = (some (returned tt), h)
  send_lines (text ∷ lines) h =
      let (sent, h') =
        send amqp new_message inject rounds [] (new_event_from_string bytes text) h in
      let rest = send_lines lines h' in
      elim sent [
        | none ↦ (none, h')
        | some panicked ↦ (some panicked, h')
        | some (returned r) ↦ if text == "exit\n" then (some (returned tt), h') else rest
      ]

  unfoldable pub main :
      {A D : Type 0}
      → Resources A D P W
      → Setting P O W
      → List String
      → W
      → Outcome (Result (Option (Outcome (Unit {0})) × Hub K N L S P O W)) × W
  unfolding init_hub send_lines
  main resources setting lines w =
      let started : Outcome (Result (Hub K N L S P O W × List String)) × W =
        init_hub resources setting.getenv setting w in
      elim started.0 [
        | panicked ↦ (panicked, started.1)
        | returned (err e) ↦ (returned (err e), started.1)
        | returned (ok (h, ids)) ↦ let x = send_lines lines h in (returned (ok x), x.1.world)
      ]
