-- ===== src/Receiver/Linked.antt =====
-- What newSessionAndLink of receiver.go opens a link with.
use Prim.Native.String.{◌++◌}
use azure_event_hubs_go.Base.{◌≡◌, String, some, arith, inl, inr, ap}
use azure_event_hubs_go.Go.{Result, ok, err, Result-cases}
use azure_event_hubs_go.Receiver.{
  Service, Receiver, Session, annotation, get_address, get_last_received_offset,
  get_offset_expression, link_on, new_session_and_link,
}

module _ {K N L M C W : Type 0} (service : Service K N L M C W) (start_of_stream : String) where
  -- The calls that give a receiver the connection k, the session s and the link l, one after the
  -- other: the claim for the receiver's own address is negotiated on k, the session is made on k,
  -- the persister is asked for the receiver's own namespace, hub, consumer group and partition, and
  -- the link is opened on that session at the address, with the prefetch count as credit, the
  -- receiver's epoch, and a filter for what comes after the offset of what the persister gave, or,
  -- where reading it failed, for the start of the stream and what comes after it.
  abbrev pub IsLinked : Receiver K N L W → K → Session N → L → Type 0
  IsLinked r k s l =
      let address =
        service.hub_name ++ "/ConsumerGroups/" ++ r.consumer_group ++ "/Partitions/"
        ++ r.partition_id in
      let (connection, w1) = service.new_connection r.world in
      let (claim, w2) = service.negotiate_claim k address w1 in
      let (session, w3) = service.new_session k w2 in
      let (held, w4) =
        service.read service.namespace_name service.hub_name r.consumer_group r.partition_id w3 in
      let (id, w5) = service.new_uuid w4 in
      (connection ≡ ok k)
      × (claim ≡ ok tt)
      × (session ≡ ok s.session)
      × (id ≡ ok s.session_id)
      × ((service.new_receiver s.session
            (record {
              source_address = address;
              credit = r.prefetch_count;
              selector_filter = elim held [
                | err e ↦
                    "amqp.annotation." ++ "x-opt-offset" ++ " >" ++ "=" ++ " '" ++ start_of_stream
                    ++ "'"
                | ok c ↦
                    "amqp.annotation."
                    ++ "x-opt-offset"
                    ++ " >"
                    ++ ""
                    ++ " '"
                    ++ service.offset c
                    ++ "'"
              ];
              epoch = r.epoch;
            })
            w5).0
          ≡ ok l)

  -- The last two calls, after the others have succeeded.
  opened :
      (r : Receiver K N L W) (k : K) (n : N) (id : String)
      → (new_session_and_link service start_of_stream r).0 ≡ ok tt
      → let (connection, w1) = service.new_connection r.world in
        let (claim, w2) = service.negotiate_claim k (get_address service r) w1 in
        let (session, w3) = service.new_session k w2 in
        let (held, w4) =
          service.read service.namespace_name service.hub_name r.consumer_group r.partition_id w3 in
        connection ≡ ok k
        → claim ≡ ok tt
        → session ≡ ok n
        → (service.new_uuid w4).0 ≡ ok id
        → let r' = (new_session_and_link service start_of_stream r).1 in
          (k : K) × (s : Session N) × (l : L) × (v : W) × (r'
            ≡ record r { connection = some k; session = some s; link = some l; world = v })
          × IsLinked r k s l
  unfolding new_session_and_link link_on get_address get_offset_expression get_last_received_offset
  opened r k n id h c d f g =
      let w1 = (service.new_connection r.world).1 in
      let w2 = (service.negotiate_claim k (get_address service r) w1).1 in
      let held =
        service.read service.namespace_name service.hub_name r.consumer_group r.partition_id
          (service.new_session k w2).1 in
      let w5 = (service.new_uuid held.1).1 in
      let made : String → Result L × W = λ filter.
        service.new_receiver n
          (record {
            source_address = get_address service r;
            credit = r.prefetch_count;
            selector_filter = filter;
            epoch = r.epoch;
          })
          w5 in
      elim (Result-cases held.0) [
        | inl (x, q) ↦
            let out = made (annotation service "" (service.offset x)) in
            elim (Result-cases out.0) [
              | inr (e, o) ↦ absurd (ground arith)
              | inl (l, o) ↦ (
                k,
                record { session = n; session_id = id },
                l,
                out.1,
                ground arith,
                (c, d, f, g, rw q o),
              )
            ]
        | inr (x, q) ↦
            let out = made (annotation service "=" start_of_stream) in
            elim (Result-cases out.0) [
              | inr (e, o) ↦ absurd (ground arith)
              | inl (l, o) ↦ (
                k,
                record { session = n; session_id = id },
                l,
                out.1,
                ground arith,
                (c, d, f, g, rw q o),
              )
            ]
      ]

  -- The receiver that newSessionAndLink leaves where it returns no error.
  new_session_and_link-makes :
      (r : Receiver K N L W)
      → (new_session_and_link service start_of_stream r).0 ≡ ok tt
      → let r' = (new_session_and_link service start_of_stream r).1 in
        (k : K) × (s : Session N) × (l : L) × (v : W) × (r'
          ≡ record r { connection = some k; session = some s; link = some l; world = v })
        × IsLinked r k s l
  unfolding new_session_and_link link_on get_address get_offset_expression get_last_received_offset
  new_session_and_link-makes r h = elim (Result-cases (service.new_connection r.world).0) [
    | inr (e, c) ↦ absurd (ground arith)
    | inl (k, c) ↦
        let w1 = (service.new_connection r.world).1 in
        let claim = service.negotiate_claim k (get_address service r) w1 in
        elim (Result-cases claim.0) [
          | inr (e, d) ↦ absurd (ground arith)
          | inl (_, d) ↦ elim (Result-cases (service.new_session k claim.1).0) [
            | inr (e, f) ↦ absurd (ground arith)
            | inl (n, f) ↦
                let held =
                  service.read service.namespace_name service.hub_name r.consumer_group
                    r.partition_id (service.new_session k claim.1).1 in
                elim (Result-cases (service.new_uuid held.1).0) [
                  | inr (e, g) ↦ elim (Result-cases held.0) [
                    | inl (x, q) ↦ absurd (ground arith)
                    | inr (x, q) ↦ absurd (ground arith)
                  ]
                  | inl (id, g) ↦ opened r k n id h c d f g
                ]
          ]
        ]
  ]

  -- Where newSessionAndLink returns no error, the receiver has the connection, the session and the
  -- link that its calls have made one after the other: the connection that newConnection gave, on
  -- which the claim for the receiver's own address was negotiated; the session made on that
  -- connection; and the link opened on that session at the address, with the prefetch count as
  -- credit, the receiver's epoch if it has one, and the filter for what comes after the offset that
  -- the persister then gave for the receiver's namespace, hub, consumer group and partition, or,
  -- where reading it failed, for the start of the stream and what comes after it.
  pub new_session_and_link-opens :
      (r : Receiver K N L W)
      → (new_session_and_link service start_of_stream r).0 ≡ ok tt
      → let r' = (new_session_and_link service start_of_stream r).1 in
        (k : K) × (s : Session N) × (l : L) × (r'.connection ≡ some k)
        × (r'.session ≡ some s)
        × (r'.link ≡ some l)
        × IsLinked r k s l
  new_session_and_link-opens r h =
      let (k, s, l, v, e, o) = new_session_and_link-makes r h in
      (k, s, l, ap (λ x. x.connection) e, ap (λ x. x.session) e, ap (λ x. x.link) e, o)

  -- Opening the link leaves what the options have set.
  pub new_session_and_link-same :
      (r : Receiver K N L W)
      → (new_session_and_link service start_of_stream r).0 ≡ ok tt
      → let r' = (new_session_and_link service start_of_stream r).1 in
        (r'.consumer_group ≡ r.consumer_group)
        × (r'.partition_id ≡ r.partition_id)
        × (r'.prefetch_count ≡ r.prefetch_count)
        × (r'.epoch ≡ r.epoch)
  new_session_and_link-same r h =
      let (k, s, l, v, e, o) = new_session_and_link-makes r h in
      (
        ap (λ x. x.consumer_group) e,
        ap (λ x. x.partition_id) e,
        ap (λ x. x.prefetch_count) e,
        ap (λ x. x.epoch) e,
      )
