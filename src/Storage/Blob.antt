-- ===== src/Storage/Blob.antt =====
-- What storage/storage.go calls of package azblob and of encoding/json: a blob service that acts on
-- the world W, and the coding of leases as texts of the type J.
use azure_event_hubs_go.Base.{ℕ, String, Bool, true, false, Option, List}
use azure_event_hubs_go.Go.{Result, Call}
use azure_event_hubs_go.Eph.Lease.{Lease}

-- azblob.LeaseStateType, of which the code tells the value LeaseStateLeased apart.
pub data LeaseState : Type 0 where
  leased : LeaseState
  other : String → LeaseState

abbrev pub is_leased : LeaseState → Bool
is_leased leased = true
is_leased (other s) = false

-- storageLease; the embedded *eph.Lease is set in every lease that the code makes. The pointer
-- `leaser` is left out: the leaser is an argument where it is used.
pub record StorageLease (C : Type 0) : Type 0 where
  pub lease : Lease
  pub open lease use *
  pub checkpoint : Option C
  pub state : LeaseState
  pub token : String

-- The conditions of a PutBlob.
pub data Condition : Type 0 where
  lease_id : String → Condition
  if_none_match : String → Condition

-- Names are of blobs and of containers; PutBlob returns the status code.
pub record Service (J W : Type 0) : Type 0 where
  pub list_containers : String → Call W (List String)
  pub create_container : String → Call W (Unit {0})
  pub delete_container : String → Call W (Unit {0})
  pub get_blob : String → Call W (J × LeaseState)
  pub put_blob : String → J → Condition → Call W ℕ
  pub delete_blob : String → Call W (Unit {0})
  pub get_properties : String → Call W LeaseState
  pub change_lease : String → String → String → Call W (Unit {0})
  pub acquire_lease : String → String → ℕ → Call W (Unit {0})
  pub renew_lease : String → String → Call W (Unit {0})
  pub release_lease : String → String → Call W (Unit {0})

-- json.Marshal and json.Unmarshal
pub record Json (C J : Type 0) : Type 0 where
  pub marshal : StorageLease C → Result J
  pub unmarshal : J → Result (StorageLease C)
