-- ===== src/Hub/Reachable.antt =====
-- The hubs that the constructors and the operations of hub.go lead to.
use azure_event_hubs_go.Base.{ℕ, String, ◌≡◌, inl, inr, none, List, [], ◌∷◌, arith, subst}
use azure_event_hubs_go.Go.{Result, ok, Call, Result-cases, Outcome-cases}
use azure_event_hubs_go.Dict.{keys}
use azure_event_hubs_go.Event.{Event, EventBatch, Message, to_event}
use azure_event_hubs_go.Namespace.{
  new_namespace, namespace_with_azure_environment, namespace_with_connection_string,
  apply_namespace_options,
}
use azure_event_hubs_go.Receiver.{Receiver}
use azure_event_hubs_go.Hub.{Hub, Setting, new_hub, new_hub_from_connection_string}
use azure_event_hubs_go.Hub.Options.{AreOptions}
use azure_event_hubs_go.Hub.Kept.{IsHub, configure-makes, get_sender-keeps, send_by-keeps}
use azure_event_hubs_go.Hub.Held.{receive-keeps, close_all-keeps}
use azure_event_hubs_go.Hub.Client.{Amqp, close, receive, get_sender}
use azure_event_hubs_go.Hub.Sending.{send, send_batch}

module _ {B T K N L S C P O W : Type 0} (amqp : Amqp K N L S (Message B T) C P O W)
    (new_message : B → Message B T) (inject : Event B T → Call W (Event B T))
    (marshal : Message B T → Result B) (decimal : ℕ → String) (start_of_stream : String) where
  -- What an operation of a hub makes of it, also where it returns an error.
  pub data Step : Hub K N L S P O W → Hub K N L S P O W → Type 0 where
    received :
        (p : String) (options : List (Call (Receiver K N L W) (Unit {0}))) (h : Hub K N L S P O W)
        → Step h (receive amqp decimal start_of_stream p options h).1
    sent :
        (rounds : ℕ) (options : List (Event B T → Result (Event B T))) (e : Event B T)
        (h : Hub K N L S P O W)
        → Step h (send amqp new_message inject rounds options e h).1
    batch_sent :
        (rounds : ℕ) (options : List (Event B T → Result (Event B T))) (b : EventBatch B T)
        (h : Hub K N L S P O W)
        → Step h (send_batch amqp new_message inject marshal rounds options b h).1
    closed :
        (range : List String → List String) (h : Hub K N L S P O W) → Step h (close amqp range h).1

  -- A hub that one of the constructors has made, after any number of operations.
  pub data Reached : Hub K N L S P O W → Type 0 where
    made :
        (setting : Setting P O W) (namespace name : String) (provider : P)
        (os : List (Call (Hub K N L S P O W) (Unit {0}))) (w : W) (h : Hub K N L S P O W)
        → AreOptions os
        → (new_hub setting namespace name provider os w).0 ≡ ok h
        → Reached h
    made_from :
        (setting : Setting P O W) (s : String) (os : List (Call (Hub K N L S P O W) (Unit {0})))
        (w : W) (h : Hub K N L S P O W)
        → AreOptions os
        → (new_hub_from_connection_string setting s os w).0 ≡ ok h
        → Reached h
    stepped : (h h' : Hub K N L S P O W) → Reached h → Step h h' → Reached h'

  new_hub-makes :
      (setting : Setting P O W) (namespace name : String) (provider : P)
      (os : List (Call (Hub K N L S P O W) (Unit {0}))) (w : W) (h : Hub K N L S P O W)
      → AreOptions os
      → (new_hub setting namespace name provider os w).0 ≡ ok h
      → IsHub amqp decimal h
  unfolding new_hub new_namespace apply_namespace_options namespace_with_azure_environment
  new_hub-makes setting namespace name provider os w h a e =
      configure-makes amqp decimal setting _ name os w h a e

  new_hub_from_connection_string-makes :
      (setting : Setting P O W) (s : String) (os : List (Call (Hub K N L S P O W) (Unit {0})))
      (w : W) (h : Hub K N L S P O W)
      → AreOptions os
      → (new_hub_from_connection_string setting s os w).0 ≡ ok h
      → IsHub amqp decimal h
  unfolding new_hub_from_connection_string
  new_hub_from_connection_string-makes setting s os w h a e =
      elim (Result-cases (setting.parse s)) [
        | inr (x, f) ↦ absurd (ground arith)
        | inl (parsed, f) ↦
            elim (Result-cases (
              new_namespace
                (namespace_with_connection_string setting.parse setting.with_key s ∷ []))) [
                  | inr (x, g) ↦ absurd (ground arith)
                  | inl (ns, g) ↦
                      configure-makes amqp decimal setting ns parsed.hub_name os w h a
                        (ground arith)
                ]
      ]

  send-keeps :
      (rounds : ℕ) (options : List (Event B T → Result (Event B T))) (e : Event B T)
      (h : Hub K N L S P O W)
      → IsHub amqp decimal h
      → IsHub amqp decimal (send amqp new_message inject rounds options e h).1
  unfolding send
  send-keeps rounds options e h i =
      let i' = get_sender-keeps amqp decimal h i in
      elim (Result-cases (get_sender amqp h).0) [
        | inr (x, f) ↦ subst (IsHub amqp decimal) (ground arith) i'
        | inl (s, f) ↦ subst (IsHub amqp decimal) (ground arith) (
            send_by-keeps amqp decimal new_message inject rounds options e s (get_sender amqp h).1
              i')
      ]

  send_batch-keeps :
      (rounds : ℕ) (options : List (Event B T → Result (Event B T))) (b : EventBatch B T)
      (h : Hub K N L S P O W)
      → IsHub amqp decimal h
      → IsHub amqp decimal (send_batch amqp new_message inject marshal rounds options b h).1
  unfolding send_batch
  send_batch-keeps rounds options b h i =
      let i' = get_sender-keeps amqp decimal h i in
      elim (Result-cases (get_sender amqp h).0) [
        | inr (x, f) ↦ subst (IsHub amqp decimal) (ground arith) i'
        | inl (s, f) ↦ elim (Outcome-cases (to_event new_message marshal b)) [
          | inr g ↦ subst (IsHub amqp decimal) (ground arith) i'
          | inl (built, g) ↦ elim (Result-cases built) [
            | inr (x, k) ↦ subst (IsHub amqp decimal) (ground arith) i'
            | inl (e, k) ↦ subst (IsHub amqp decimal) (ground arith) (
                send_by-keeps amqp decimal new_message inject rounds options e s
                  (get_sender amqp h).1 i')
          ]
        ]
      ]

  Step-keeps : (h h' : Hub K N L S P O W) → Step h h' → IsHub amqp decimal h → IsHub amqp decimal h'
  unfolding close
  Step-keeps h _ (received p options _) i = receive-keeps amqp decimal start_of_stream p options h i
  Step-keeps h _ (sent rounds options e _) i = send-keeps rounds options e h i
  Step-keeps h _ (batch_sent rounds options b _) i = send_batch-keeps rounds options b h i
  Step-keeps h _ (closed range _) i =
      close_all-keeps amqp decimal start_of_stream none (range (keys h.receivers)) h i

  -- Every hub that NewHub or NewHubFromConnectionString has made with options of the package, after
  -- any number of calls of Receive, Send, SendBatch and Close, whether they succeed or fail and
  -- whatever the receive options do, has a user agent of at most 128 bytes, and each of its
  -- receivers stands under its own identifier and has a connection.
  pub reached-IsHub : (h : Hub K N L S P O W) → Reached h → IsHub amqp decimal h
  reached-IsHub h (made setting namespace name provider os w _ a e) =
      new_hub-makes setting namespace name provider os w h a e
  reached-IsHub h (made_from setting s os w _ a e) =
      new_hub_from_connection_string-makes setting s os w h a e
  reached-IsHub h (stepped before _ reached step) =
      Step-keeps before h step (reached-IsHub before reached)
