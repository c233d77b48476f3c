-- ===== src/Eph/Lease.antt =====
-- eph/lease.go: the lease of a partition and the reply of a leaser.
use azure_event_hubs_go.Base.{ℕ, String, Bool, true, false, Option, none, some}
use azure_event_hubs_go.Go.{Error, add_int64}

pub record Lease : Type 0 where
  pub partition_id : String
  pub epoch : ℕ
  pub owner : String

unfoldable pub increment_epoch : Lease → Lease
unfolding add_int64
increment_epoch l = record l { epoch = add_int64 l.epoch 1 }

unfoldable pub get_partition_id : Lease → String
get_partition_id l = l.partition_id

unfoldable pub get_owner : Lease → String
get_owner l = l.owner

unfoldable pub get_epoch : Lease → ℕ
get_epoch l = l.epoch

-- The results (LeaseMarker, bool, error) of AcquireLease, RenewLease and UpdateLease.
pub record Reply (L : Type 0) : Type 0 where
  pub lease : Option L
  pub done : Bool
  pub error : Option Error

abbrev pub granted : {L : Type 0} → L → Reply L
granted l = record { lease = some l; done = true; error = none }

abbrev pub failed : {L : Type 0} → Error → Reply L
failed e = record { lease = none; done = false; error = some e }

-- The results nil, false and nil.
abbrev pub refused : {L : Type 0} → Reply L
refused = record { lease = none; done = false; error = none }
