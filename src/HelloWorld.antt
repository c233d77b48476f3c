-- ===== src/HelloWorld.antt =====
-- _examples/helloworld: what its two programs, consumer/main.go and producer/main.go, begin with.
-- The client of the resource manager and the token providers are parameters: A is the type of
-- authorizers, D that of mgmt.Model. log.Fatal ends the program, as an error here; a panic is one.
pub mod Consumer
pub mod Producer
pub mod Listens
use azure_event_hubs_go.Base.{ℕ, String, Option, none, some, List, [], ◌==◌, if◌then◌else◌}
use azure_event_hubs_go.Go.{Outcome, returned, panicked, Error, Result, ok, err, Call}
use azure_event_hubs_go.Hub.{Hub, Setting, new_hub}

pub record Resources (A D P W : Type 0) : Type 0 where
  pub new_authorizer_from_environment : Call W A
  pub get : String → A → String → String → String → Call W D
  pub create_or_update : String → A → String → String → String → D → Call W D
  -- a Model with a name and a number of partitions
  pub model : String → ℕ → D
  pub partition_ids : D → Option (List String)
  pub new_jwt_provider : Call W P

abbrev pub resource_group_name : String
resource_group_name = "ehtest"

abbrev pub hub_name : String
hub_name = "producerConsumer"

unfoldable pub must_getenv : (String → String) → String → Outcome String
must_getenv getenv key = if getenv key == "" then panicked else returned (getenv key)

module _ {A D P W : Type 0} (resources : Resources A D P W) (getenv : String → String) where
  -- The client, as its subscription and its authorizer.
  unfoldable pub get_event_hub_mgmt_client : W → Outcome (Result (String × A)) × W
  unfolding must_getenv
  get_event_hub_mgmt_client w = elim (must_getenv getenv "AZURE_SUBSCRIPTION_ID") [
    | panicked ↦ (panicked, w)
    | returned subscription ↦
        let (authorizer, w') = resources.new_authorizer_from_environment w in
        elim authorizer [
          | err e ↦ (returned (err e), w')
          | ok a ↦ (returned (ok (subscription, a)), w')
        ]
  ]

  -- ensureEventHub with a client
  unfoldable pub get_or_create : String → String → A → String → Call W D
  get_or_create namespace subscription a name w =
      let (found, w') = resources.get subscription a resource_group_name namespace name w in
      elim found [
        | ok hub ↦ (ok hub, w')
        | err e ↦
            resources.create_or_update subscription a resource_group_name namespace name
              (resources.model name 4) w'
      ]

  unfoldable pub ensure_event_hub : String → W → Outcome (Result D) × W
  unfolding get_event_hub_mgmt_client get_or_create
  ensure_event_hub name w = elim (must_getenv getenv "EVENTHUB_NAMESPACE") [
    | panicked ↦ (panicked, w)
    | returned namespace ↦
        let (client, w') = get_event_hub_mgmt_client w in
        elim client [
          | panicked ↦ (panicked, w')
          | returned (err e) ↦ (returned (err e), w')
          | returned (ok c) ↦
              let (hub, w'') = get_or_create namespace c.0 c.1 name w' in (returned hub, w'')
        ]
  ]

  -- initHub with what ensureEventHub has found: NewHub panics with its error, and a nil
  -- PartitionIds panics.
  unfoldable pub make_hub :
      {K N L S O : Type 0}
      → Setting P O W
      → String
      → D
      → W
      → Outcome (Result (Hub K N L S P O W × List String)) × W
  make_hub setting namespace d w =
      let (provider, w') = resources.new_jwt_provider w in
      elim provider [
        | err e ↦ (returned (err e), w')
        | ok p ↦
            let (made, w'') = new_hub setting namespace hub_name p [] w' in
            elim made [
              | err e ↦ (panicked, w'')
              | ok h ↦ elim (resources.partition_ids d) [
                | none ↦ (panicked, w'')
                | some ids ↦ (returned (ok (h, ids)), w'')
              ]
            ]
      ]

  unfoldable pub init_hub :
      {K N L S O : Type 0}
      → Setting P O W
      → W
      → Outcome (Result (Hub K N L S P O W × List String)) × W
  unfolding ensure_event_hub make_hub
  init_hub setting w = elim (must_getenv getenv "EVENTHUB_NAMESPACE") [
    | panicked ↦ (panicked, w)
    | returned namespace ↦
        let (found, w') = ensure_event_hub hub_name w in
        elim found [
          | panicked ↦ (panicked, w')
          | returned (err e) ↦ (returned (err e), w')
          | returned (ok d) ↦ make_hub setting namespace d w'
        ]
  ]
