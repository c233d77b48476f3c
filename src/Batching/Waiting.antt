-- ===== src/Batching/Waiting.antt =====
-- What main.go of the batch writer receives while it waits.
use azure_event_hubs_go.Base.{
  ◌≡◌, ◌∙◌, inl, inr, ℕ, String, some, true, [], ◌∷◌, arith, Option-cases, Bool-cases, ◌==◌, ◌≢◌,
  subst, eq_iff, ap, ◌⊎◌, sym,
}
use azure_event_hubs_go.Go.{Result, ok, Call, Result-cases}
use azure_event_hubs_go.Dict.{lookup, insert}
use azure_event_hubs_go.Namespace.{new_namespace, namespace_with_azure_environment}
use azure_event_hubs_go.Receiver.{
  Receiver, Service, new_receiver, apply_options, new_session_and_link, receive_with_consumer_group,
  receive_with_prefetch_count, receiver_of, get_identifier,
}
use azure_event_hubs_go.Receiver.Listening.{listen}
use azure_event_hubs_go.Receiver.Linked.{new_session_and_link-same}
use azure_event_hubs_go.Hub.{
  Hub, Setting, hub_of, configure, new_hub, new_hub_with_namespace_name_and_environment,
  new_hub_from_environment, hub_with_offset_persistence,
}
use azure_event_hubs_go.Hub
use azure_event_hubs_go.Hub.Client.{Amqp, receive, receiver_service, close_receiver, receiver_alone}
use azure_event_hubs_go.Batching.{BatchWriter, new_batch_writer}
use azure_event_hubs_go.Batching.Partition.{HasNoDash, partition_id-cases}
use Prim.Native.Char.{Char, code}
use Prim.Native.String.{◌++◌}
use azure_event_hubs_go.Batching.Main.{
  main, main_receive, partition_id, consumer_group, waiting, prefetch_count,
}

module _ {K N L M C W : Type 0} (service : Service K N L M C W) (start_of_stream : String) where
  new_receiver-set :
      (group : String) (n : ℕ) (p : String) (w : W) (r : Receiver K N L W)
      → (new_receiver service start_of_stream
          (receive_with_consumer_group service group ∷ receive_with_prefetch_count service n ∷ [])
          p
          w).0
        ≡ ok r
      → (r.consumer_group ≡ group) × (r.partition_id ≡ p) × (r.prefetch_count ≡ n)
  unfolding new_receiver apply_options receive_with_consumer_group receive_with_prefetch_count
  new_receiver-set group n p w r h =
      let start : Receiver K N L W = record (receiver_of p w) {
        consumer_group = group;
        prefetch_count = n;
      } in
      elim (Result-cases (new_session_and_link service start_of_stream start).0) [
        | inr (e, x) ↦ absurd (ground arith)
        | inl (_, x) ↦
            let (a, b, c, d) = new_session_and_link-same service start_of_stream start x in
            let same : (new_session_and_link service start_of_stream start).1 ≡ r = ground arith in
            (ground arith, ground arith, ground arith)
      ]

module _ {K N L S P O W : Type 0} (setting : Setting P O W) (o : O) where
  abbrev Starts : Hub K N L S P O W → Type 0
  Starts h = (h.receivers ≡ []) × (h.offset_persister ≡ o)

  new_hub-Starts :
      (namespace name : String) (provider : P) (w : W) (h : Hub K N L S P O W)
      → (new_hub setting namespace name provider (hub_with_offset_persistence o ∷ []) w).0 ≡ ok h
      → Starts h
  unfolding new_hub configure hub_of hub_with_offset_persistence Hub.apply_options
  new_hub-Starts namespace name provider w h e =
      elim (Result-cases (
        new_namespace
          (namespace_with_azure_environment namespace provider setting.public_cloud ∷ []))) [
            | inr (x, q) ↦ absurd (ground arith)
            | inl (ns, q) ↦ (ground arith, ground arith)
          ]

  named-Starts :
      (namespace name : String) (w : W) (h : Hub K N L S P O W)
      → (new_hub_with_namespace_name_and_environment setting namespace name
          (hub_with_offset_persistence o ∷ [])
          w).0
        ≡ ok h
      → Starts h
  unfolding new_hub_with_namespace_name_and_environment
  named-Starts namespace name w h e =
      let (sas, w1) = setting.sas_environment w in
      let (aad, w2) = setting.aad_environment w1 in
      elim (Result-cases sas) [
        | inl (provider, q) ↦ new_hub-Starts namespace name provider w1 h (ground arith)
        | inr (x, q) ↦ elim (Result-cases aad) [
          | inl (provider, q') ↦ new_hub-Starts namespace name provider w2 h (ground arith)
          | inr (x', q') ↦ absurd (ground arith)
        ]
      ]

  new_hub_from_environment-Starts :
      (w : W) (h : Hub K N L S P O W)
      → (new_hub_from_environment setting (hub_with_offset_persistence o ∷ []) w).0 ≡ ok h
      → Starts h
  unfolding new_hub_from_environment
  new_hub_from_environment-Starts w h e =
      elim (Bool-cases (setting.getenv "EVENTHUB_NAMESPACE" == "")) [
        | inl q ↦ absurd (ground arith)
        | inr q ↦ elim (Bool-cases (setting.getenv "EVENTHUB_NAME" == "")) [
          | inl q' ↦ absurd (ground arith)
          | inr q' ↦
              named-Starts (setting.getenv "EVENTHUB_NAMESPACE") (setting.getenv "EVENTHUB_NAME") w
                h (ground arith)
        ]
      ]

module _ {K N L S M C P O F W : Type 0} (setting : Setting P O (BatchWriter C W))
    (amqp : Amqp K N L S M C P O (BatchWriter C W)) (decimal : ℕ → String)
    (start_of_stream : String) (new_file_persister : String → Call W F) (output : F → O) where
  -- The group that the environment names, or the default one where it names none.
  abbrev pub IsGroup : String → Type 0
  IsGroup group =
      let named = setting.getenv "EVENTHUB_CONSUMERGROUP" in
      ((named ≡ "") × (group ≡ "$Default")) ⊎ ((named ≢ "") × (group ≡ named))

  IsGroup-consumer_group : IsGroup (consumer_group setting.getenv)
  unfolding consumer_group
  IsGroup-consumer_group = elim (Bool-cases (setting.getenv "EVENTHUB_CONSUMERGROUP" == "")) [
    | inl e ↦
        inl (ground (arith, eq_iff (setting.getenv "EVENTHUB_CONSUMERGROUP") ""), ground arith)
    | inr e ↦
        inr (
          λ same. ground (arith, eq_iff (setting.getenv "EVENTHUB_CONSUMERGROUP") ""),
          ground arith,
        )
  ]

  -- The partition that EVENTHUB_PARTITIONID names, or, where it is empty, what follows the first
  -- dash of HOSTNAME.
  abbrev pub IsPartition : String → Type 0
  IsPartition p =
      let id = setting.getenv "EVENTHUB_PARTITIONID" in
      ((id ≢ "") × (p ≡ id))
      ⊎ ((id ≡ "")
          × (a : String) × (c : Char) × (setting.getenv "HOSTNAME" ≡ a ++ String.◌∷◌ c p)
          × (code c ≡ b'-')
          × HasNoDash a)

  IsPartition-partition_id : (p : String) → partition_id setting.getenv ≡ some p → IsPartition p
  IsPartition-partition_id p e = elim (partition_id-cases setting.getenv) [
    | inl (set, is) ↦ inl (set, ground arith)
    | inr (inl (unset, n, is)) ↦ absurd (ground arith)
    | inr (inr (unset, a, c, b, at, dash, n, is)) ↦
        let same : b ≡ p = ground arith in
        inr (unset, a, c, at ∙ ap (λ x. a ++ String.◌∷◌ c x) same, dash, n)
  ]

  -- The hub has one receiver, that of the partition, in the group, with the prefetch count, and it
  -- listens.
  abbrev pub Receives : String → Hub K N L S P O (BatchWriter C W) → Type 0
  Receives p h =
      (key : String) × (r : Receiver K N L (Unit {0})) × (h.receivers ≡ (key, r) ∷ [])
      × (r.partition_id ≡ p)
      × IsGroup r.consumer_group
      × (r.prefetch_count ≡ 20000)
      × (r.listening ≡ some true)

  main_receive-Receives :
      (p : String) (h h' : Hub K N L S P O (BatchWriter C W))
      → h.receivers ≡ []
      → main_receive setting amqp decimal start_of_stream new_file_persister output p h ≡ waiting h'
      → Receives p h' × (h'.offset_persister ≡ h.offset_persister)
  unfolding main_receive receive close_receiver listen insert lookup
  main_receive-Receives p h h' empty e =
      let service = receiver_service amqp h in
      let group = consumer_group setting.getenv in
      let made =
        new_receiver service start_of_stream
          (receive_with_consumer_group service group
            ∷ receive_with_prefetch_count service prefetch_count
            ∷ [])
          p h.world in
      elim (Result-cases made.0) [
        | inr (x, q) ↦ absurd (ground arith)
        | inl (r, q) ↦
            let (a, b, c) =
              new_receiver-set service start_of_stream group prefetch_count p h.world r q in
            let key = get_identifier service decimal r in
            (
              (
                key,
                receiver_alone (listen r),
                ground arith,
                ground arith,
                subst IsGroup (sym a) IsGroup-consumer_group,
                ground arith,
                ground arith,
              ),
              ground arith,
            )
      ]

  -- Where main comes to wait for a signal, it has made a file persister in the directory that the
  -- environment names, the batchWriter over it is the offset persister of its hub, and the hub has
  -- one receiver, which listens with a prefetch count of 20000 to the partition of
  -- EVENTHUB_PARTITIONID, or of what follows the first dash of HOSTNAME where that is empty, in the
  -- group of EVENTHUB_CONSUMERGROUP, or in the default group where that is empty.
  pub main-waits :
      (w : W) (h : Hub K N L S P O (BatchWriter C W))
      → main setting amqp decimal start_of_stream new_file_persister output w ≡ waiting h
      → (p : String) × (fp : F) × IsPartition p
        × ((new_file_persister (setting.getenv "EVENTHUB_FILEPERSIST_DIRECTORY") w).0 ≡ ok fp)
        × (h.offset_persister ≡ output fp)
        × Receives p h
  unfolding main
  main-waits w h e =
      let (persister, w') =
        new_file_persister (setting.getenv "EVENTHUB_FILEPERSIST_DIRECTORY") w in
      elim (Result-cases persister) [
        | inr (x, q) ↦ absurd (ground arith)
        | inl (fp, q) ↦
            let made : Result (Hub K N L S P O (BatchWriter C W)) =
              (new_hub_from_environment setting (hub_with_offset_persistence (output fp) ∷ [])
                (new_batch_writer w')).0 in
            elim (Result-cases made) [
              | inr (x, m) ↦ absurd (ground arith)
              | inl (hub, m) ↦ elim (Option-cases (partition_id setting.getenv)) [
                | inl n ↦ absurd (ground arith)
                | inr (p, n) ↦
                    let (empty, persists) =
                      new_hub_from_environment-Starts setting (output fp) (new_batch_writer w') hub
                        m in
                    let (receives, same) = main_receive-Receives p hub h empty (ground arith) in
                    (p, fp, IsPartition-partition_id p n, q, same ∙ persists, receives)
              ]
            ]
      ]
