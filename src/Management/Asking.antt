-- ===== src/Management/Asking.antt =====
-- What amqp_mgmt.go asks the management node.
use Prim.Native.String.{◌++◌}
use azure_event_hubs_go.Base.{String, ◌≡◌, some, arith, inl, inr, [], ◌∷◌, Option-cases, ap}
use azure_event_hubs_go.Go.{ok, second, Called-cases}
use azure_event_hubs_go.Dict.{insert}
use azure_event_hubs_go.Namespace.{get_amqp_host_uri}
use azure_event_hubs_go.Management.{
  Services, Client, get_hub_partition_runtime_information, HubPartitionRuntimeInformation,
  add_security_token, get_token_audience, new_hub_partition_runtime_information, security_token_key,
  partition_request,
}

module _ {K R M V T P W : Type 0} (services : Services K R M V T P W) where
  -- Where GetHubPartitionRuntimeInformation returns no error, it has sent, three times at most and a
  -- second apart, on a link to $management, the READ request for the partition of the hub with the
  -- token for the hub's address in its namespace, and what it returns is decoded from the map that
  -- the answer holds.
  pub get_hub_partition_runtime_information-asks :
      (c : Client P) (connection : K) (partition_id : String) (w : W)
      (info : HubPartitionRuntimeInformation T)
      → (get_hub_partition_runtime_information services c connection partition_id w).0 ≡ ok info
      → (link : R) × (token : String) × (res : M) × (v : V) × (w1 : W) × (w2 : W)
        × ((services.new_link connection "$management" w) ≡ (ok link, w1))
        × ((services.get_token c.namespace.token_provider
              (get_amqp_host_uri c.namespace ++ c.hub_name)
              w1)
            ≡ (ok token, w2))
        × ((services.retryable_rpc link 3 second
              (("operation", "READ")
                ∷ ("type", "com.microsoft:partition")
                ∷ ("name", c.hub_name)
                ∷ ("partition", partition_id)
                ∷ ("security_token", token)
                ∷ [])
              w2).0
            ≡ ok res)
        × (services.as_map res ≡ some v)
        × (services.decode_partition v ≡ ok info)
  unfolding get_hub_partition_runtime_information add_security_token get_token_audience
      new_hub_partition_runtime_information
  get_hub_partition_runtime_information-asks c connection partition_id w info e =
      elim (Called-cases (services.new_link connection "$management" w)) [
        | inr (x, w1, f) ↦ absurd (ground arith)
        | inl (link, w1, f) ↦
            elim (Called-cases (
              services.get_token c.namespace.token_provider
                (get_amqp_host_uri c.namespace ++ c.hub_name) w1)) [
                  | inr (x, w2, g) ↦ absurd (ground arith)
                  | inl (token, w2, g) ↦
                      let sent =
                        insert security_token_key token
                          (partition_request c.hub_name partition_id) in
                      elim (Called-cases (services.retryable_rpc link 3 second sent w2)) [
                        | inr (x, w3, h) ↦ absurd (ground arith)
                        | inl (res, w3, h) ↦ elim (Option-cases (services.as_map res)) [
                          | inl n ↦ absurd (ground arith)
                          | inr (v, n) ↦ (
                            link,
                            token,
                            res,
                            v,
                            w1,
                            w2,
                            f,
                            g,
                            unfold insert in ap (λ x. x.0) h,
                            n,
                            ground arith,
                          )
                        ]
                      ]
                ]
      ]
