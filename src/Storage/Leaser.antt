-- ===== src/Storage/Leaser.antt =====
-- storage/storage.go: LeaserCheckpointer as a Leaser. A method runs under leasesMu; spans and logs
-- are left out. A *storageLease is held by value: the map of leases is the one place through which
-- the code writes a lease that it has handed out. The leaser has its processor, as after
-- SetEventHostProcessor.
use azure_event_hubs_go.Base.{
  ℕ, ◌+◌, ◌/◌, ◌%◌, ◌^◌, String, Bool, true, false, not, Option, none, some, List, [], ◌∷◌, ◌==◌,
  if◌then◌else◌, num_eq, ltb, length, suc, set,
}
use azure_event_hubs_go.Go.{Error, errors_new, Result, ok, err, second, Call, ◌>>=◌, ◌>>◌, lift}
use azure_event_hubs_go.Dict.{Dict}
use azure_event_hubs_go.Eph.Lease.{increment_epoch}
use azure_event_hubs_go.Eph.Memory.Leaser.{Processor}
use azure_event_hubs_go.Storage.Blob.{
  LeaseState, other, is_leased, StorageLease, lease_id, if_none_match, Service, Json,
}

pub record LeaserCheckpointer (C W : Type 0) : Type 0 where
  pub leases : Dict (StorageLease C)
  pub processor : Processor
  pub lease_duration : ℕ
  pub container_name : String
  pub dirty_partitions : Dict String
  -- whether the goroutine persistLeases goes on; sl.done ends it
  pub persisting : Bool
  pub world : W

-- What a select of the code takes next: the end of the context, or the answer for a partition.
pub data Event : Type 0 where
  context_done : Event
  answer : String → Event

abbrev pub not_found : Error
not_found = errors_new "lease was not found"

-- ctx.Err() of a context that is done
abbrev pub context_error : Error
context_error = errors_new "context canceled"

-- int32(d.Round(time.Second).Seconds()), as a bit pattern
abbrev pub whole_seconds : ℕ → ℕ
whole_seconds d = (d + second / 2) / second % 2 ^ 32

abbrev pub has_name : String → List String → Bool
has_name n [] = false
has_name n (m ∷ ms) = if m == n then true else has_name n ms

-- AcquireLease: the lease as its new owner has it.
unfoldable pub take_ownership : {C : Type 0} → String → String → StorageLease C → StorageLease C
unfolding increment_epoch
take_ownership new_token name l = record l {
  token = new_token;
  lease = increment_epoch (record l.lease { owner = name });
}

module _ {C J W : Type 0} (service : Service J W) (json : Json C J) where
  unfoldable pub lease_from_response : J × LeaseState → Result (StorageLease C)
  lease_from_response (body, state) = elim (json.unmarshal body) [
    | err e ↦ err e
    | ok l ↦ ok (record l { state = state })
  ]

  unfoldable pub get_lease : String → Call W (StorageLease C)
  unfolding lease_from_response
  get_lease p = do res ← service.get_blob p; lift (lease_from_response res)

  unfoldable pub upload_lease : StorageLease C → Call W ℕ
  upload_lease l = do
    body ← lift (json.marshal l)
    service.put_blob l.partition_id body (lease_id l.token)

  -- The zero value of a storageLease but for its partition; the zero LeaseStateType is "".
  abbrev pub fresh_lease : String → StorageLease C
  fresh_lease p = record {
    lease = record { partition_id = p; epoch = 0; owner = "" };
    checkpoint = none;
    state = other "";
    token = "";
  }

  unfoldable pub create_or_get_lease : String → Call W (StorageLease C)
  unfolding get_lease
  create_or_get_lease p = do
    body ← lift (json.marshal (fresh_lease p))
    status ← service.put_blob p body (if_none_match "*")
    if num_eq status 404 then get_lease p else lift (ok (fresh_lease p))

  -- The container and its blobs.
  unfoldable pub store_exists : String → Call W Bool
  store_exists name = do names ← service.list_containers name; lift (ok (has_name name names))

  unfoldable pub ensure_store : String → Call W (Unit {0})
  unfolding store_exists
  ensure_store name = do
    there ← store_exists name
    if not there then service.create_container name else lift (ok tt)

  unfoldable pub delete_store : String → Call W (Unit {0})
  delete_store name = service.delete_container name

  -- The loop of GetLeases at index i, over what its selects take; answers come in any order. A
  -- lease is read when its answer is taken.
  unfoldable pub collect_leases :
      List Event
      → ℕ
      → List (Option (StorageLease C))
      → W
      → (List (Option (StorageLease C)) × Option Error) × W
  unfolding get_lease
  collect_leases [] i ls w = ((ls, none), w)
  collect_leases (context_done ∷ es) i ls w =
      ((ls, if ltb i (length ls) then some context_error else none), w)
  collect_leases (answer p ∷ es) i ls w =
      let (r, w') = get_lease p w in
      elim (ltb i (length ls)) [
        | false ↦ ((ls, none), w)
        | true ↦ elim r [
          | err e ↦ (([], some e), w')
          | ok l ↦ collect_leases es (suc i) (set ls i (some l)) w'
        ]
      ]

  -- AcquireLease: the change or the acquisition of the blob's lease.
  unfoldable pub seize : String → String → ℕ → StorageLease C → LeaseState → Call W (Unit {0})
  seize p new_token duration l state =
      if is_leased state
      then service.change_lease p l.token new_token
      else service.acquire_lease p new_token (whole_seconds duration)

  -- AcquireLease from the reading of the properties on.
  unfoldable pub claim :
      String → Result String → String → ℕ → StorageLease C → Call W (StorageLease C)
  unfolding upload_lease seize take_ownership
  claim p uuid name duration l = do
    state ← service.get_properties p
    new_token ← lift uuid
    seize p new_token duration l state
    upload_lease (take_ownership new_token name l)
    lift (ok (take_ownership new_token name l))
