-- ===== src/Receiver/Listening.antt =====
-- receiver.go: Listen and the loop of listenForMessages, with what ends it.
pub mod Ending
use azure_event_hubs_go.Base.{
  ℕ, zero, suc, String, Bool, true, false, Option, none, some, List, [], ◌∷◌,
}
use azure_event_hubs_go.Go.{Error, Result, ok, err}
use azure_event_hubs_go.Receiver.{Service, Receiver, close, recover}

-- What the function that common.Retry calls returns: nil, an error that common.Retryable has marked,
-- or another error.
pub data Attempt : Type 0 where
  done : Attempt
  retryable : Error → Attempt
  final : Error → Attempt

-- common.Retry, over calls that act on S: how often, and the function.
abbrev pub Retry : Type 0 → Type 0
Retry S = ℕ → (S → Attempt × S) → S → Result (Unit {0}) × S

-- Where the loop is: it goes on, it has returned, or reading a nil link has panicked.
pub data Status : Type 0 where
  running : Status
  stopped : Status
  crashed : Status

-- `listening` is set to true here, and r.done sets it to false.
unfoldable pub listen : {K N L W : Type 0} → Receiver K N L W → Receiver K N L W
listen r = record r { listening = some true }

abbrev pub context_ended : {K N L W : Type 0} → Receiver K N L W → Bool
context_ended r = elim r.listening [
  | none ↦ false
  | some on ↦ elim on [ true ↦ false | false ↦ true ]
]

-- Another goroutine calls r.done, by ListenerHandle.Close or Hub.Close, or it does not.
abbrev pub end_context : {K N L W : Type 0} → Bool → Receiver K N L W → Receiver K N L W
end_context false r = r
end_context true r = record r { listening = some false }

-- `stolen` tells the *amqp.DetachError with the condition "amqp:link:stolen", `context_error` is
-- ctx.Err() of a context that has ended.
module _ {K N L M C W : Type 0} (service : Service K N L M C W) (start_of_stream : String)
    (stolen : Error → Bool) (context_error : Error) (retry : Retry (Receiver K N L W)) where
  -- The function that listenForMessages gives to common.Retry.
  unfoldable pub try_recover : Receiver K N L W → Attempt × Receiver K N L W
  unfolding recover
  try_recover r =
      let (result, r') = recover service start_of_stream r in
      elim result [
        | ok u ↦ (done, r')
        | err e ↦ (elim (context_ended r') [ true ↦ final context_error | false ↦ retryable e ], r')
      ]

  -- What the loop does about an error.
  unfoldable pub after_error : Error → Receiver K N L W → Status × Receiver K N L W
  unfolding close try_recover
  after_error e r = elim (context_ended r) [
    | true ↦ (stopped, r)
    | false ↦ elim (stolen e) [
      | true ↦ (stopped, (close service r).1)
      | false ↦
          let (result, r') = retry 10 try_recover r in
          elim result [
            | ok u ↦ (running, r')
            | err x ↦ (stopped, (close service (record r' { last_error = some x })).1)
          ]
    ]
  ]

  -- One round; a message goes to the channel.
  unfoldable pub listen_round : Bool → Receiver K N L W → Option M × (Status × Receiver K N L W)
  unfolding after_error
  listen_round ends r = elim r.link [
    | none ↦ (none, (crashed, r))
    | some l ↦
        let (result, w) = service.receive l r.world in
        let r' = end_context ends (record r { world = w }) in
        elim result [ ok m ↦ (some m, (running, r')) | err e ↦ (none, after_error e r') ]
  ]

  abbrev pub deliver : {A : Type 0} → Option A → List A → List A
  deliver none ms = ms
  deliver (some m) ms = m ∷ ms

  -- The loop, for as many rounds as the list has entries, each of which says whether another
  -- goroutine ends the context during the round. The messages are those that went to the channel;
  -- its other end, handle_messages, is taken to accept them, which it no longer does once the
  -- context has ended: a message that comes then can make the loop wait for ever.
  unfoldable pub listen_for_messages :
      List Bool → Receiver K N L W → List M × (Status × Receiver K N L W)
  unfolding listen_round
  listen_for_messages [] r = ([], (running, r))
  listen_for_messages (ends ∷ rounds) r =
      let (m, (status, r')) = listen_round ends r in
      elim status [
        | running ↦
            let (ms, (status', r'')) = listen_for_messages rounds r' in
            (deliver m ms, (status', r''))
        | stopped ↦ (deliver m [], (stopped, r'))
        | crashed ↦ (deliver m [], (crashed, r'))
      ]
