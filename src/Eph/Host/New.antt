-- ===== src/Eph/Host/New.antt =====
-- eph/eph.go: the constructors of a host.
use azure_event_hubs_go.Base.{String, some, List}
use azure_event_hubs_go.Go.{Result, ok, err, Call, then_call}
use azure_event_hubs_go.Management.{Services}
use azure_event_hubs_go.Hub.{Hub, Setting, new_hub, new_hub_from_connection_string}
use azure_event_hubs_go.Hub.Client.{Amqp}
use azure_event_hubs_go.Hub.Information.{get_runtime_information}
use azure_event_hubs_go.Eph.Host.{EventProcessorHost, host_of, apply_options, hub_options}

module _ {K N L S M C P O R V T F Q W : Type 0} (amqp : Amqp K N L S M C P O W)
    (services : Services K R M V T P W) (setting : Setting P O W) (persister : O) where
  -- What the constructors do with their options, with the hub that `make` makes of its options, and
  -- with what the management node answers.
  unfoldable pub finish_host :
      List (Call (EventProcessorHost F (Hub K N L S P O W) P Q W) (Unit {0}))
      → (List (Call (Hub K N L S P O W) (Unit {0})) → Call W (Hub K N L S P O W))
      → (EventProcessorHost F (Hub K N L S P O W) P Q W)
      → Result (EventProcessorHost F (Hub K N L S P O W) P Q W) × W
  unfolding apply_options hub_options get_runtime_information
  finish_host options make start =
      let (configured, host) = apply_options options start in
      elim configured [
        | err e ↦ (err e, host.world)
        | ok u ↦ then_call (make (hub_options persister host.env) host.world) (λ client w.
            let (info, client') =
              get_runtime_information amqp services (record client { world = w }) in
            elim info [
              | err e ↦ (err e, client'.world)
              | ok i ↦ (
                ok (record host {
                  client = some client';
                  partition_ids = i.partition_ids;
                  world = client'.world;
                }),
                client'.world,
              )
            ])
      ]

  unfoldable pub new :
      String
      → String
      → P
      → List (Call (EventProcessorHost F (Hub K N L S P O W) P Q W) (Unit {0}))
      → Call W (EventProcessorHost F (Hub K N L S P O W) P Q W)
  unfolding finish_host new_hub
  new namespace hub_name provider options w = then_call (amqp.new_uuid w) (λ id w1.
      finish_host options (new_hub setting namespace hub_name provider)
        (host_of namespace hub_name id provider w1))

  unfoldable pub new_from_connection_string :
      String
      → List (Call (EventProcessorHost F (Hub K N L S P O W) P Q W) (Unit {0}))
      → Call W (EventProcessorHost F (Hub K N L S P O W) P Q W)
  unfolding finish_host new_hub_from_connection_string
  new_from_connection_string s options w = then_call (amqp.new_uuid w) (λ id w1.
      elim (setting.parse s) [
        | err e ↦ (err e, w1)
        | ok parsed ↦ elim (setting.with_key parsed.key_name parsed.key) [
          | err e ↦ (err e, w1)
          | ok provider ↦
              finish_host options (new_hub_from_connection_string setting s)
                (host_of parsed.namespace parsed.hub_name id provider w1)
        ]
      ])
