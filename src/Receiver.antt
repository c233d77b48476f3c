-- ===== src/Receiver.antt =====
-- receiver.go and session.go: a receiver on a partition, its session and link, and the handling of
-- its messages. Package amqp, the offset persister and the namespace are services that act on the
-- world; spans and logs are left out. fmt.Sprintf of the formats used is the joining of texts.
pub mod Handling
pub mod Linked
pub mod Listening
pub mod Stored
use Prim.Native.String.{◌++◌}
use azure_event_hubs_go.Base.{
  ℕ, zero, suc, String, Bool, true, false, Option, none, some, List, [], ◌∷◌, if◌then◌else◌,
}
use azure_event_hubs_go.Go.{
  Outcome, returned, panicked, Error, Result, ok, err, Call, then_call, ◌>>=◌, ◌>>◌, lift,
}
use azure_event_hubs_go.Event.{
  Value, string, Message, Event, event_from_msg, get_checkpoint, offset_annotation_name,
}

pub record Session (N : Type 0) : Type 0 where
  pub session : N
  pub session_id : String

-- The options of amqpSession.NewReceiver that vary: the source address, the credit, the selector
-- filter, and the link property "com.microsoft:epoch".
pub record LinkOptions : Type 0 where
  pub source_address : String
  pub credit : ℕ
  pub selector_filter : String
  pub epoch : Option ℕ

-- K, N, L and M are the connections, sessions, links and messages of package amqp; C is
-- persist.Checkpoint. The names that the hub and its namespace give are of the service too.
pub record Service (K N L M C W : Type 0) : Type 0 where
  pub hub_name : String
  pub namespace_name : String
  -- the field Offset of a checkpoint
  pub offset : C → String
  pub new_connection : Call W K
  pub negotiate_claim : K → String → Call W (Unit {0})
  pub new_session : K → Call W N
  pub new_uuid : Call W String
  pub new_receiver : N → LinkOptions → Call W L
  pub close_connection : K → Call W (Unit {0})
  pub receive : L → Call W M
  pub accept : M → W → W
  pub modify : M → W → W
  pub read : String → String → String → String → Call W C
  pub write : String → String → String → String → C → Call W (Unit {0})

pub record Receiver (K N L W : Type 0) : Type 0 where
  pub connection : Option K
  pub session : Option (Session N)
  pub link : Option L
  pub consumer_group : String
  pub partition_id : String
  pub prefetch_count : ℕ
  -- whether `done` is set, and whether the context that it ends goes on
  pub listening : Option Bool
  pub epoch : Option ℕ
  pub last_error : Option Error
  pub world : W

abbrev pub receiver_of : {K N L W : Type 0} → String → W → Receiver K N L W
receiver_of p w = record {
  connection = none;
  session = none;
  link = none;
  consumer_group = "$Default";
  partition_id = p;
  prefetch_count = 1000;
  listening = none;
  epoch = none;
  last_error = none;
  world = w;
}

-- newSession
abbrev pub make_session : {W N : Type 0} → Call W String → N → Call W (Session N)
make_session new_uuid n = do id ← new_uuid; lift (ok (record { session = n; session_id = id }))

module _ {K N L W : Type 0} where
  -- A call of a service from a method of the receiver.
  abbrev pub on_world : {A : Type 0} → Call W A → Call (Receiver K N L W) A
  on_world m r = let (a, w) = m r.world in (a, record r { world = w })

  abbrev pub update : (Receiver K N L W → Receiver K N L W) → Call (Receiver K N L W) (Unit {0})
  update f r = (ok tt, f r)

  -- r.session, err = newSession(amqpSession): an error leaves a nil session.
  abbrev pub store_session : Call W (Session N) → Call (Receiver K N L W) (Unit {0})
  store_session m r =
      let (session, w) = m r.world in
      elim session [
        | err e ↦ (err e, record r { session = none; world = w })
        | ok s ↦ (ok tt, record r { session = some s; world = w })
      ]

  -- ListenerHandle.Err; `context_error` is lc.ctx.Err().
  unfoldable pub listener_error : Option Error → Receiver K N L W → Option Error
  listener_error context_error r = elim r.last_error [ none ↦ context_error | some e ↦ some e ]

module _ {K N L M C W : Type 0} (service : Service K N L M C W) where
  unfoldable pub get_address : Receiver K N L W → String
  get_address r =
      service.hub_name ++ "/ConsumerGroups/" ++ r.consumer_group ++ "/Partitions/" ++ r.partition_id

  unfoldable pub get_identifier : (ℕ → String) → Receiver K N L W → String
  unfolding get_address
  get_identifier decimal r = elim r.epoch [
    | none ↦ get_address r
    | some n ↦ get_address r ++ "/epoch/" ++ decimal n
  ]

  unfoldable pub get_last_received_offset : Receiver K N L W → Result String × W
  get_last_received_offset r =
      then_call
        (service.read service.namespace_name service.hub_name r.consumer_group r.partition_id
          r.world)
        (λ c. lift (ok (service.offset c)))

  unfoldable pub store_last_received_offset : C → Call (Receiver K N L W) (Unit {0})
  store_last_received_offset c r =
      on_world
        (service.write service.namespace_name service.hub_name r.consumer_group r.partition_id c) r

  -- amqp.annotation.x-opt-offset >… '…'
  abbrev pub annotation : String → String → String
  annotation sign value =
      "amqp.annotation." ++ offset_annotation_name ++ " >" ++ sign ++ " '" ++ value ++ "'"

  -- persist.StartOfStream is the argument.
  unfoldable pub get_offset_expression : String → Receiver K N L W → String × W
  unfolding get_last_received_offset
  get_offset_expression start_of_stream r =
      let (offset, w) = get_last_received_offset r in
      elim offset [ err e ↦ (annotation "=" start_of_stream, w) | ok s ↦ (annotation "" s, w) ]

  -- newSessionAndLink from the connection that it has made on.
  unfoldable pub link_on : String → K → Call (Receiver K N L W) (Unit {0})
  unfolding get_address get_offset_expression
  link_on start_of_stream connection r =
      (do
        on_world (service.negotiate_claim connection (get_address r))
        amqp_session ← on_world (service.new_session connection)
        expression ← λ s.
            let (x, w) = get_offset_expression start_of_stream s in (ok x, record s { world = w })
        store_session (make_session service.new_uuid amqp_session)
        link ← on_world (
            service.new_receiver amqp_session (record {
              source_address = get_address r;
              credit = r.prefetch_count;
              selector_filter = expression;
              epoch = r.epoch;
            }))
        update (λ s. record s { link = some link }))
        r

  unfoldable pub new_session_and_link : String → Call (Receiver K N L W) (Unit {0})
  unfolding link_on
  new_session_and_link start_of_stream = do
    connection ← on_world service.new_connection
    update (λ s. record s { connection = some connection })
    link_on start_of_stream connection

  -- Closing a nil connection panics inside package amqp; the code never does, since a receiver is
  -- used after newReceiver. The model does nothing then.
  unfoldable pub close_connection : Call (Receiver K N L W) (Unit {0})
  close_connection r = elim r.connection [
    | none ↦ (ok tt, r)
    | some k ↦ on_world (service.close_connection k) r
  ]

  unfoldable pub close : Call (Receiver K N L W) (Unit {0})
  unfolding close_connection
  close r =
      close_connection
        (record r { listening = elim r.listening [ none ↦ none | some b ↦ some false ] })

  unfoldable pub recover : String → Call (Receiver K N L W) (Unit {0})
  unfolding close_connection new_session_and_link
  recover start_of_stream r = new_session_and_link start_of_stream (close_connection r).1

  -- A ReceiveOption acts on the receiver.
  unfoldable pub apply_options :
      List (Call (Receiver K N L W) (Unit {0})) → Call (Receiver K N L W) (Unit {0})
  apply_options [] = lift (ok tt)
  apply_options (o ∷ os) = o >> apply_options os

  unfoldable pub receive_with_consumer_group : String → Call (Receiver K N L W) (Unit {0})
  receive_with_consumer_group g = update (λ r. record r { consumer_group = g })

  -- What ReceiveWithStartingOffset and ReceiveWithLatestOffset do with their checkpoint; an error of
  -- the persister is dropped.
  unfoldable pub receive_from : C → Call (Receiver K N L W) (Unit {0})
  unfolding store_last_received_offset
  receive_from c r = (ok tt, (store_last_received_offset c r).1)

  -- `new_checkpoint` is persist.NewCheckpoint, and `zero_time` the zero value of time.Time.
  unfoldable pub receive_with_starting_offset :
      {T : Type 0} (new_checkpoint : String → ℕ → T → C) (zero_time : T)
      → String
      → Call (Receiver K N L W) (Unit {0})
  unfolding receive_from
  receive_with_starting_offset new_checkpoint zero_time offset =
      receive_from (new_checkpoint offset 0 zero_time)

  -- `end_of_stream` is persist.NewCheckpointFromEndOfStream().
  unfoldable pub receive_with_latest_offset : C → Call (Receiver K N L W) (Unit {0})
  unfolding receive_from
  receive_with_latest_offset end_of_stream = receive_from end_of_stream

  unfoldable pub receive_with_prefetch_count : ℕ → Call (Receiver K N L W) (Unit {0})
  receive_with_prefetch_count n = update (λ r. record r { prefetch_count = n })

  unfoldable pub receive_with_epoch : ℕ → Call (Receiver K N L W) (Unit {0})
  receive_with_epoch n = update (λ r. record r { epoch = some n })

  -- newReceiver on the zero value of a receiver with its defaults. The receiver that Go returns
  -- beside an error is left out: its caller drops it.
  unfoldable pub new_receiver :
      String → List (Call (Receiver K N L W) (Unit {0})) → String → Call W (Receiver K N L W)
  unfolding apply_options new_session_and_link
  new_receiver start_of_stream options p w =
      let (r, s) =
        then_call (apply_options options (receiver_of p w))
          (λ u. new_session_and_link start_of_stream) in
      elim r [ err e ↦ (err e, s.world) | ok u ↦ (ok s, s.world) ]

-- messageID
unfoldable pub message_id : {B T : Type 0} → Message B T → Value T
message_id m = elim m.properties [ none ↦ string "null" | some id ↦ id ]
