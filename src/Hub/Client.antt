-- ===== src/Hub/Client.antt =====
-- hub.go: Receive, Send, SendBatch and Close of a hub, with newReceiver and newSender of receiver.go
-- and sender.go for the hub that calls them.
use azure_event_hubs_go.Base.{ℕ, String, Option, none, some, List, [], ◌∷◌, Bool}
use azure_event_hubs_go.Go.{Error, Result, ok, err, Call}
use azure_event_hubs_go.Dict.{Dict, lookup, insert, keys}
use azure_event_hubs_go.Namespace.{new_connection, negotiate_claim}
use azure_event_hubs_go.Receiver.{Receiver, LinkOptions, Session}
use azure_event_hubs_go.Receiver
use azure_event_hubs_go.Receiver.Listening.{listen}
use azure_event_hubs_go.Sender.{Sender}
use azure_event_hubs_go.Sender
use azure_event_hubs_go.Hub.{Hub}

-- Packages amqp, cbs and uuid, and an offset persister O. M is amqp.Message, C persist.Checkpoint.
pub record Amqp (K N L S M C P O W : Type 0) : Type 0 where
  pub dial : String → Dict String → Call W K
  pub goos : String
  pub runtime : String
  pub negotiate : String → K → Option P → Call W (Unit {0})
  pub new_session : K → Call W N
  pub new_uuid : Call W String
  pub new_receiver : N → LinkOptions → Call W L
  pub new_sender : N → String → Call W S
  pub close_connection : K → Call W (Unit {0})
  pub receive : L → Call W M
  pub accept : M → W → W
  pub modify : M → W → W
  pub close_link : S → W → W
  pub close_session : N → W → W
  pub send : S → M → Call W (Unit {0})
  pub is_amqp : Error → Bool
  pub context_done : W → Option Error
  pub delay : W → W
  pub reset : W → W
  pub offset : C → String
  pub read : O → String → String → String → String → Call W C
  pub write : O → String → String → String → String → C → Call W (Unit {0})

module _ {K N L W : Type 0} where
  -- A receiver in the world, and without it.
  abbrev pub receiver_in : W → Receiver K N L (Unit {0}) → Receiver K N L W
  receiver_in w r = record {
    connection = r.connection;
    session = r.session;
    link = r.link;
    consumer_group = r.consumer_group;
    partition_id = r.partition_id;
    prefetch_count = r.prefetch_count;
    listening = r.listening;
    epoch = r.epoch;
    last_error = r.last_error;
    world = w;
  }

  abbrev pub receiver_alone : Receiver K N L W → Receiver K N L (Unit {0})
  receiver_alone r = record {
    connection = r.connection;
    session = r.session;
    link = r.link;
    consumer_group = r.consumer_group;
    partition_id = r.partition_id;
    prefetch_count = r.prefetch_count;
    listening = r.listening;
    epoch = r.epoch;
    last_error = r.last_error;
    world = tt;
  }

  -- A sender in the world, and without it.
  abbrev pub sender_in : W → Sender K N L (Unit {0}) → Sender K N L W
  sender_in w s = record {
    connection = s.connection;
    session = s.session;
    link = s.link;
    partition_id = s.partition_id;
    world = w;
  }

  abbrev pub sender_alone : Sender K N L W → Sender K N L (Unit {0})
  sender_alone s = record {
    connection = s.connection;
    session = s.session;
    link = s.link;
    partition_id = s.partition_id;
    world = tt;
  }

module _ {K N L S M C P O W : Type 0} (amqp : Amqp K N L S M C P O W) where
  -- What a receiver of the hub calls.
  unfoldable pub receiver_service : Hub K N L S P O W → Receiver.Service K N L M C W
  unfolding new_connection negotiate_claim
  receiver_service h = record {
    hub_name = h.name;
    namespace_name = h.namespace.name;
    offset = amqp.offset;
    new_connection = new_connection amqp.dial amqp.goos amqp.runtime h.namespace;
    negotiate_claim = negotiate_claim amqp.negotiate h.namespace;
    new_session = amqp.new_session;
    new_uuid = amqp.new_uuid;
    new_receiver = amqp.new_receiver;
    close_connection = amqp.close_connection;
    receive = amqp.receive;
    accept = amqp.accept;
    modify = amqp.modify;
    read = amqp.read h.offset_persister;
    write = amqp.write h.offset_persister;
  }

  -- What the sender of the hub calls.
  unfoldable pub sender_service : Hub K N L S P O W → Sender.Service K N S M W
  unfolding new_connection negotiate_claim
  sender_service h = record {
    hub_name = h.name;
    new_connection = new_connection amqp.dial amqp.goos amqp.runtime h.namespace;
    negotiate_claim = negotiate_claim amqp.negotiate h.namespace;
    new_session = amqp.new_session;
    new_uuid = amqp.new_uuid;
    new_sender = amqp.new_sender;
    close_link = amqp.close_link;
    close_session = amqp.close_session;
    close_connection = λ k w. (amqp.close_connection k w).1;
    send = amqp.send;
    is_amqp = amqp.is_amqp;
    context_done = amqp.context_done;
    delay = amqp.delay;
    reset = amqp.reset;
  }

  -- r.Close(ctx) on the receiver under a key of the map; the map holds a pointer to it.
  unfoldable pub close_receiver : String → Call (Hub K N L S P O W) (Unit {0})
  unfolding receiver_service Receiver.close
  close_receiver key h = elim (lookup key h.receivers) [
    | none ↦ (ok tt, h)
    | some r ↦
        let (result, r') = Receiver.close (receiver_service h) (receiver_in h.world r) in
        (
          result,
          record h { receivers = insert key (receiver_alone r') h.receivers; world = r'.world },
        )
  ]

  -- The loop of Close over the keys that are left, with the last error so far.
  unfoldable pub close_all :
      Option Error → List String → Hub K N L S P O W → Option Error × Hub K N L S P O W
  unfolding close_receiver
  close_all last [] h = (last, h)
  close_all last (key ∷ rest) h =
      let (result, h') = close_receiver key h in
      close_all (elim result [ err e ↦ some e | ok u ↦ last ]) rest h'

  -- `range` is the order in which Go ranges over the map.
  unfoldable pub close :
      (List String → List String) → Hub K N L S P O W → Option Error × Hub K N L S P O W
  unfolding close_all
  close range h = close_all none (range (keys h.receivers)) h

  -- `decimal` is the text of a number, `start_of_stream` is persist.StartOfStream. The result is the
  -- key of the receiver that the handle holds. The goroutine that listens is started here; it runs
  -- listen_for_messages and handle_messages.
  unfoldable pub receive :
      (ℕ → String)
      → String
      → String
      → List (Call (Receiver K N L W) (Unit {0}))
      → Call (Hub K N L S P O W) String
  unfolding receiver_service Receiver.new_receiver Receiver.get_identifier close_receiver listen
  receive decimal start_of_stream partition_id options h =
      let (made, w) =
        Receiver.new_receiver (receiver_service h) start_of_stream options partition_id h.world in
      elim made [
        | err e ↦ (err e, record h { world = w })
        | ok r ↦
            let key = Receiver.get_identifier (receiver_service h) decimal r in
            let h' = (close_receiver key (record h { world = w })).1 in
            (ok key, record h' { receivers = insert key (receiver_alone (listen r)) h'.receivers })
      ]

  -- newSender; as in newReceiver, what Go returns beside an error is left out.
  unfoldable pub new_sender : Hub K N L S P O W → Result (Sender K N S W) × W
  unfolding sender_service Sender.new_session_and_link
  new_sender h =
      let (r, s) = Sender.new_session_and_link (sender_service h) (record {
        connection = none;
        session = none;
        link = none;
        partition_id = h.sender_partition_id;
        world = h.world;
      }) in
      elim r [ err e ↦ (err e, s.world) | ok u ↦ (ok s, s.world) ]

  unfoldable pub get_sender : Call (Hub K N L S P O W) (Sender K N S W)
  unfolding new_sender
  get_sender h = elim h.sender [
    | some s ↦ (ok (sender_in h.world s), h)
    | none ↦
        let (made, w) = new_sender h in
        elim made [
          | err e ↦ (err e, record h { world = w })
          | ok s ↦ (ok s, record h { sender = some (sender_alone s); world = w })
        ]
  ]
