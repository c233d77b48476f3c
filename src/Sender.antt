-- ===== src/Sender.antt =====
-- sender.go: a sender with its session and link, and the loop of trySend. Package amqp and the
-- namespace are a service that acts on the world; spans and logs are left out. The message of an
-- event is a value.
pub mod Delivery
pub mod Sending
use Prim.Native.String.{◌++◌}
use azure_event_hubs_go.Base.{
  ℕ, zero, suc, String, Bool, true, false, Option, none, some, List, [], ◌∷◌, ◌==◌, if◌then◌else◌,
}
use azure_event_hubs_go.Go.{
  Outcome, returned, panicked, Error, Result, ok, err, Call, then_call, ◌>>=◌, ◌>>◌, lift,
}
use azure_event_hubs_go.Event.{Event}
use azure_event_hubs_go.Receiver.{Session, make_session}

pub record Service (K N L M W : Type 0) : Type 0 where
  pub hub_name : String
  pub new_connection : Call W K
  pub negotiate_claim : K → String → Call W (Unit {0})
  pub new_session : K → Call W N
  pub new_uuid : Call W String
  pub new_sender : N → String → Call W L
  pub close_link : L → W → W
  pub close_session : N → W → W
  pub close_connection : K → W → W
  pub send : L → M → Call W (Unit {0})
  -- whether an error is an *amqp.Error or an *amqp.DetachError
  pub is_amqp : Error → Bool
  -- the error of the context, if it has ended
  pub context_done : W → Option Error
  -- the backoff: sleeping for its next duration, and its reset
  pub delay : W → W
  pub reset : W → W

pub record Sender (K N L W : Type 0) : Type 0 where
  pub connection : Option K
  pub session : Option (Session N)
  pub link : Option L
  pub partition_id : Option String
  pub world : W

module _ {K N L W : Type 0} where
  abbrev pub on_world : {A : Type 0} → Call W A → Call (Sender K N L W) A
  on_world m s = let (a, w) = m s.world in (a, record s { world = w })

  abbrev pub update : (Sender K N L W → Sender K N L W) → Call (Sender K N L W) (Unit {0})
  update f s = (ok tt, f s)

  -- s.session, err = newSession(amqpSession): an error leaves a nil session.
  abbrev pub store_session : Call W (Session N) → Call (Sender K N L W) (Unit {0})
  store_session m s =
      let (session, w) = m s.world in
      elim session [
        | err e ↦ (err e, record s { session = none; world = w })
        | ok x ↦ (ok tt, record s { session = some x; world = w })
      ]

module _ {K N L M W : Type 0} (service : Service K N L M W) where
  unfoldable pub get_address : Option String → String
  get_address none = service.hub_name
  get_address (some p) = service.hub_name ++ "/Partitions/" ++ p

  -- newSessionAndLink, from its end: the session is wrapped, and the link is kept.
  unfoldable pub keep_link : N → L → Call (Sender K N L W) (Unit {0})
  keep_link n link = do
    store_session (make_session service.new_uuid n)
    update (λ s. record s { link = some link })

  unfoldable pub make_link : N → Call (Sender K N L W) (Unit {0})
  unfolding keep_link get_address
  make_link n s =
      (do link ← on_world (service.new_sender n (get_address s.partition_id)); keep_link n link) s

  unfoldable pub open_session : K → Call (Sender K N L W) (Unit {0})
  unfolding make_link get_address
  open_session k s =
      (do
        on_world (service.negotiate_claim k (get_address s.partition_id))
        n ← on_world (service.new_session k)
        make_link n)
        s

  unfoldable pub new_session_and_link : Call (Sender K N L W) (Unit {0})
  unfolding open_session
  new_session_and_link = do
    k ← on_world service.new_connection
    update (λ s. record s { connection = some k })
    open_session k

  -- A nil sender, session or connection panics.
  unfoldable pub recover : Sender K N L W → Outcome (Result (Unit {0})) × Sender K N L W
  unfolding new_session_and_link
  recover s = elim s.link [
    | none ↦ (panicked, s)
    | some l ↦ elim s.session [
      | none ↦ (panicked, record s { world = service.close_link l s.world })
      | some n ↦
          let w = service.close_session n.session (service.close_link l s.world) in
          elim s.connection [
            | none ↦ (panicked, record s { world = w })
            | some k ↦
                let (r, s') =
                  new_session_and_link (record s { world = service.close_connection k w }) in
                (returned r, s')
          ]
    ]
  ]

  -- trySend: what follows an error of package amqp, up to the next round.
  unfoldable pub after_failure : Sender K N L W → Outcome (Unit {0}) × Sender K N L W
  unfolding recover
  after_failure s =
      let (o, s') = recover (record s { world = service.delay s.world }) in
      elim o [
        | panicked ↦ (panicked, s')
        | returned r ↦ elim r [
          | err e ↦ (returned tt, s')
          | ok u ↦ (returned tt, record s' { world = service.reset s'.world })
        ]
      ]

  -- The loop of trySend, for at most so many rounds; `none` is a loop that goes on.
  unfoldable pub try_send :
      ℕ → M → Sender K N L W → Option (Outcome (Result (Unit {0}))) × Sender K N L W
  unfolding after_failure
  try_send zero m s = (none, s)
  try_send (suc n) m s = elim (service.context_done s.world) [
    | some e ↦ (some (returned (err e)), s)
    | none ↦ elim s.link [
      | none ↦ (some panicked, s)
      | some l ↦
          let (r, w) = service.send l m s.world in
          elim r [
            | ok u ↦ (some (returned (ok tt)), record s { world = w })
            | err e ↦ elim (service.is_amqp e) [
              | false ↦ (some (returned (err e)), record s { world = w })
              | true ↦
                  let (o, s') = after_failure (record s { world = w }) in
                  elim o [ panicked ↦ (some panicked, s') | returned u ↦ try_send n m s' ]
            ]
          ]
    ]
  ]

-- Send before trySend: the options act on the event, and an event without an id gets a new one.
module _ {B T : Type 0} where
  unfoldable pub apply_options :
      List (Event B T → Result (Event B T)) → Event B T → Result (Event B T)
  apply_options [] e = ok e
  apply_options (o ∷ os) e = elim (o e) [ err x ↦ err x | ok e' ↦ apply_options os e' ]

  unfoldable pub send_with_message_id : String → Event B T → Result (Event B T)
  send_with_message_id id e = ok (record e { id = id })

  unfoldable pub prepare :
      {W : Type 0}
      → Call W String
      → List (Event B T → Result (Event B T))
      → Event B T
      → Call W (Event B T)
  unfolding apply_options
  prepare new_uuid options e = do
    e' ← lift (apply_options options e)
    if e'.id == "" then (do id ← new_uuid; lift (ok (record e' { id = id }))) else lift (ok e')
