-- ===== src/HelloWorld/Consumer.antt =====
-- _examples/helloworld/consumer/main.go: it receives from every partition, and prints.
use azure_event_hubs_go.Base.{ℕ, String, List, [], ◌∷◌, ◌==◌, if◌then◌else◌}
use azure_event_hubs_go.Go.{Outcome, returned, panicked, Result, ok, err, Call}
use azure_event_hubs_go.Event.{Event}
use azure_event_hubs_go.Receiver.{receive_with_latest_offset}
use azure_event_hubs_go.Hub.{Hub, Setting}
use azure_event_hubs_go.Hub.Client.{Amqp, receive, receiver_service}
use azure_event_hubs_go.HelloWorld.{Resources, init_hub}

-- The handler; `text` is string(event.Data), and `exit` sends on the channel of that name.
unfoldable pub handler :
    {B T W : Type 0} → (B → String) → (String → W → W) → (W → W) → Event B T → Call W (Unit {0})
handler text println exit event w =
    let s = text event.payload in
    if s == "exit\n"
    then (ok tt, exit (println "Oh snap!! Someone told me to exit!" w))
    else (ok tt, println s w)

-- `latest` is the checkpoint that ReceiveWithLatestOffset makes.
module _ {K N L S M C P O W : Type 0} (amqp : Amqp K N L S M C P O W) (decimal : ℕ → String)
    (start_of_stream : String) (latest : C) where
  unfoldable pub receive_latest : String → Call (Hub K N L S P O W) String
  unfolding receive receive_with_latest_offset
  receive_latest p h =
      receive amqp decimal start_of_stream p
        (receive_with_latest_offset (receiver_service amqp h) latest ∷ []) h

  -- The loop over the partitions; what Receive returns is dropped.
  unfoldable pub receive_all : List String → Hub K N L S P O W → Hub K N L S P O W
  unfolding receive_latest
  receive_all [] h = h
  receive_all (p ∷ ps) h = receive_all ps (receive_latest p h).1

  -- main, up to where it waits for the handler.
  unfoldable pub main :
      {A D : Type 0}
      → Resources A D P W
      → Setting P O W
      → W
      → Outcome (Result (Hub K N L S P O W)) × W
  unfolding init_hub receive_all
  main resources setting w =
      let started : Outcome (Result (Hub K N L S P O W × List String)) × W =
        init_hub resources setting.getenv setting w in
      elim started.0 [
        | panicked ↦ (panicked, started.1)
        | returned (err e) ↦ (returned (err e), started.1)
        | returned (ok (h, ids)) ↦ let h' = receive_all ids h in (returned (ok h'), h'.world)
      ]
