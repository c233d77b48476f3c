-- ===== src/Eph/Scheduler/Services.antt =====
-- The interfaces that eph/scheduler.go calls: its host's Leaser of eph/lease.go, and the Hub client
-- of the root package. W is the world that they act on. A context that is cancelled or times out
-- shows as an error of the call that it is given to.
use azure_event_hubs_go.Base.{refl, ℕ, String, Bool, Option, List, ◌≡◌, ◌⊎◌, inl, inr}
use azure_event_hubs_go.Go.{Error, Result}
use azure_event_hubs_go.Eph.Lease.{Lease}

-- The results (lease, ok, err) of AcquireLease and RenewLease, as their callers tell them apart.
pub data Attempt : Type 0 where
  got : Lease → Attempt
  refused : Attempt
  broken : Error → Attempt

pub record Leaser (W : Type 0) : Type 0 where
  pub get_leases : W → Result (List Lease) × W
  pub is_expired : Lease → W → Bool × W
  pub acquire_lease : String → W → Attempt × W
  pub renew_lease : String → W → Attempt × W
  pub release_lease : String → W → W
  -- ReleaseLease under a context that is cancelled already
  pub release_lease_cancelled : String → W → W

-- Receive of a partition under an epoch gives a handle, H, which can be closed.
pub record Client (H W : Type 0) : Type 0 where
  pub receive : String → ℕ → W → Result H × W
  pub close : H → W → Option Error × W

-- To split on a computed attempt and keep the equation.
pub Attempt-cases :
    (t : Attempt) → ((l : Lease) × (t ≡ got l)) ⊎ ((t ≡ refused) ⊎ ((e : Error) × (t ≡ broken e)))
Attempt-cases (got l) = inl (l, refl)
Attempt-cases refused = inr (inl refl)
Attempt-cases (broken e) = inr (inr (e, refl))
