-- ===== src/Namespace/Addresses.antt =====
-- The addresses of a namespace in an Azure environment.
use Prim.Native.String.{◌++◌}
use text.Mathlib.TextLemmas.{append_assoc}
use azure_event_hubs_go.Base.{String, ◌≡◌, refl, ◌∙◌, ap, some, [], ◌∷◌}
use azure_event_hubs_go.Go.{ok}
use azure_event_hubs_go.Go.Text.{replace_once-prefix, replace_once}
use azure_event_hubs_go.Namespace.{
  Namespace, Environment, namespace_with_azure_environment, new_namespace, get_amqp_host_uri,
  get_entity_audience, get_https_host_uri,
}

module _ {P : Type 0} where
  -- The namespace that newNamespace makes of a name, a token provider and an Azure environment has
  -- the endpoint of the name in the environment, by AMQP over TLS in the audience of its entities,
  -- by plain AMQP in the address of the management node, and by HTTPS in that of the entity manager.
  pub new_namespace-addresses :
      (name : String) (provider : P) (env : Environment) (path : String)
      → (ns : Namespace P) × (new_namespace
            (namespace_with_azure_environment name provider env ∷ [])
          ≡ ok ns)
        × (ns.token_provider ≡ some provider)
        × (get_entity_audience ns path
            ≡ (("amqps://" ++ (name ++ "." ++ env.service_bus_endpoint_suffix)) ++ "/") ++ path)
        × (get_amqp_host_uri ns
            ≡ "amqp" ++ (("://" ++ (name ++ "." ++ env.service_bus_endpoint_suffix)) ++ "/"))
        × (get_https_host_uri ns
            ≡ "https" ++ (("://" ++ (name ++ "." ++ env.service_bus_endpoint_suffix)) ++ "/"))
  unfolding new_namespace get_entity_audience get_amqp_host_uri get_https_host_uri
      namespace_with_azure_environment
  new_namespace-addresses name provider env path =
      let rest = ("://" ++ (name ++ "." ++ env.service_bus_endpoint_suffix)) ++ "/" in
      let split =
        ap (λ h. h ++ "/")
          (append_assoc "amqps" "://" (name ++ "." ++ env.service_bus_endpoint_suffix))
        ∙ append_assoc "amqps" ("://" ++ (name ++ "." ++ env.service_bus_endpoint_suffix)) "/" in
      (
        _,
        refl,
        refl,
        refl,
        ap (λ h. replace_once h "amqps" "amqp") split ∙ replace_once-prefix "a" "mqps" "amqp" rest,
        ap (λ h. replace_once h "amqps" "https") split
            ∙ replace_once-prefix "a" "mqps" "https" rest,
      )
