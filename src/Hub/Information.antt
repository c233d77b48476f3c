-- ===== src/Hub/Information.antt =====
-- hub.go: what a hub asks the management node, on a connection of its own, which stays open.
use azure_event_hubs_go.Base.{String}
use azure_event_hubs_go.Go.{Call, ◌>>=◌}
use azure_event_hubs_go.Namespace.{new_connection}
use azure_event_hubs_go.Management
use azure_event_hubs_go.Management.{
  Services, HubRuntimeInformation, HubPartitionRuntimeInformation, new_client,
}
use azure_event_hubs_go.Hub.{Hub}
use azure_event_hubs_go.Hub.Client.{Amqp}

module _ {K N L S M C P O R V T W : Type 0} (amqp : Amqp K N L S M C P O W)
    (services : Services K R M V T P W) where
  -- A call that acts on the world of a hub.
  abbrev pub on_world : {A : Type 0} → Call W A → Call (Hub K N L S P O W) A
  on_world m h = let (a, w) = m h.world in (a, record h { world = w })

  unfoldable pub get_runtime_information : Call (Hub K N L S P O W) (HubRuntimeInformation T)
  unfolding new_client new_connection Management.get_hub_runtime_information
  get_runtime_information h =
      on_world
        (do
          connection ← new_connection amqp.dial amqp.goos amqp.runtime h.namespace
          Management.get_hub_runtime_information services (new_client h.namespace h.name)
              connection)
        h

  unfoldable pub get_partition_information :
      String → Call (Hub K N L S P O W) (HubPartitionRuntimeInformation T)
  unfolding new_client new_connection Management.get_hub_partition_runtime_information
  get_partition_information partition_id h =
      on_world
        (do
          connection ← new_connection amqp.dial amqp.goos amqp.runtime h.namespace
          Management.get_hub_partition_runtime_information services (new_client h.namespace h.name)
              connection partition_id)
        h
