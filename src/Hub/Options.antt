-- ===== src/Hub/Options.antt =====
-- The options of a hub that hub.go offers.
use azure_event_hubs_go.Base.{String, List, [], ◌∷◌}
use azure_event_hubs_go.Go.{Call}
use azure_event_hubs_go.Namespace.{Environment}
use azure_event_hubs_go.Hub.{
  Hub, hub_with_partitioned_sender, hub_with_offset_persistence, hub_with_user_agent,
  hub_with_environment,
}

module _ {K N L S P O W : Type 0} where
  -- The options that the package offers; only it can write the fields of a hub.
  pub data IsOption : Call (Hub K N L S P O W) (Unit {0}) → Type 0 where
    partitioned : (p : String) → IsOption (hub_with_partitioned_sender p)
    persisted : (o : O) → IsOption (hub_with_offset_persistence o)
    agent : (a : String) → IsOption (hub_with_user_agent a)
    environment : (env : Environment) → IsOption (hub_with_environment env)

  abbrev pub AreOptions : List (Call (Hub K N L S P O W) (Unit {0})) → Type 0
  AreOptions [] = Unit
  AreOptions (o ∷ os) = IsOption o × AreOptions os
