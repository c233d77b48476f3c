-- ===== src/Tests/Scheduler.antt =====
-- eph/scheduler.go at three leases and a leaser that grants what it is asked for.
use azure_event_hubs_go.Base.{String}
use azure_event_hubs_go.Eph.Lease.{Lease}
use azure_event_hubs_go.Base.{
  ℕ, ◌+◌, ◌≤◌, ◌≡◌, ◌≢◌, ◌⊎◌, refl, true, none, some, List, [], ◌∷◌, ◌++◌, map, length, arith, ◌==◌,
  eq_iff, if◌then◌else◌, Memᴰ,
}
use mathlib.Core.List.{Perm}
use azure_event_hubs_go.Go.{Error, errors_new, returned, panicked, ok, err}
use azure_event_hubs_go.Eph.Scheduler.Services.{Leaser, Client, got}
use azure_event_hubs_go.Eph.Scheduler.Balance.{lease_to_steal}
use azure_event_hubs_go.Eph.Scheduler.Groups.{owned_by}
use azure_event_hubs_go.Eph.Scheduler.Largest.{Ranges}
use azure_event_hubs_go.Eph.Scheduler.Steal
use azure_event_hubs_go.Eph.Scheduler.Expired
use azure_event_hubs_go.Eph.Scheduler.Expired.{Acquired, greed, id_of}
use azure_event_hubs_go.Eph.Scheduler.Fairness
use azure_event_hubs_go.Eph.Scheduler.Fairness.{RangesOnce}
use azure_event_hubs_go.Eph.Scheduler.Receivers.{
  LeasedReceiver, Scheduler, start_receiver, stop_receiver, stop, evict,
}
use azure_event_hubs_go.Eph.Scheduler.Lifecycle
use azure_event_hubs_go.Eph.Scheduler.Scan.{scan, shuffle, serve, start_all}
use azure_event_hubs_go.Eph.Scheduler.Bounds
use azure_event_hubs_go.Eph.Scheduler.Running
use azure_event_hubs_go.Eph.Scheduler.Running.{started, stepped, scanned, renewed}
use azure_event_hubs_go.Eph.Scheduler.Served.{Serves}
use azure_event_hubs_go.Eph.Scheduler.Receivers.{new_scheduler, renew_round}
use azure_event_hubs_go.Dict.{Dict, lookup, insert}

abbrev lease_of : String → String → Lease
lease_of p o = record { partition_id = p; epoch = 1; owner = o }

abbrev seen : List Lease
seen = lease_of "0" "a" ∷ lease_of "1" "b" ∷ lease_of "2" "a" ∷ []

abbrev as_it_is : {V : Type 0} → Dict V → Dict V
as_it_is m = m

abbrev ranges : Ranges as_it_is
ranges m x = (λ i. i, λ i. i)

abbrev ranges_once : RangesOnce as_it_is
ranges_once = record { all = ranges; once = λ m h. h }

-- The first of n.
abbrev first : ℕ → ℕ
first n = 0

-- The world counts the calls; leases of "a" have expired.
abbrev leaser : Leaser ℕ
leaser = record {
  get_leases = λ w. (ok seen, w + 1);
  is_expired = λ l w. (l.owner == "a", w + 1);
  acquire_lease = λ p w. (got (lease_of p "me"), w + 1);
  renew_lease = λ p w. (got (lease_of p "me"), w + 1);
  release_lease = λ p w. w + 1;
  release_lease_cancelled = λ p w. w;
}

abbrev client : Client String ℕ
client = record {
  receive = λ p n w. (if p == "2" then err (errors_new "receive") else ok p, w + 1);
  close = λ h w. (none, w + 1);
}

abbrev receiver : LeasedReceiver String
receiver = record { id = 0; lease = lease_of "1" "me"; handle = some "1" }

abbrev busy : Scheduler String ℕ
busy = record {
  world = 0;
  receivers = ("1", receiver) ∷ [];
  renewing = 0 ∷ [];
  ready = 0 ∷ [];
  made = 1;
  running = true;
  has_done = true;
}

lease_to_steal_sound_example :
    Memᴰ (lease_of "0" "a") seen
    × ((lease_of "0" "a").owner ≢ "me")
    × (2 ≤ 2)
    × ((o : String) → length (owned_by o seen) ≤ length (owned_by "a" seen))
unfolding lease_to_steal lookup azure_event_hubs_go.Dict.insert
lease_to_steal_sound_example =
    Steal.lease_to_steal_sound as_it_is ranges "me" first seen 0 (lease_of "0" "a") refl

lease_to_steal-returns_example : lease_to_steal as_it_is "me" first seen 0 ≢ panicked
lease_to_steal-returns_example =
    Steal.lease_to_steal-returns as_it_is ranges "me" first seen 0 (λ n h. h)

lease_to_steal_complete_example :
    (l : Lease) × (lease_to_steal as_it_is "me" first seen 0 ≡ returned (some l))
lease_to_steal_complete_example =
    Steal.lease_to_steal_complete as_it_is ranges "me" first seen 0 "a" (λ n h. h) refl
      (omega arith)

abbrev divided : Acquired
divided = record {
  acquired = lease_of "0" "me" ∷ lease_of "2" "me" ∷ [];
  not_acquired = lease_of "1" "b" ∷ [];
}

acquire_expired_leases-divides_example :
    Perm (map id_of divided.acquired ++ map id_of divided.not_acquired) (map id_of seen)
    × (2 ≤ greed)
unfolding Expired.acquire_expired_leases
acquire_expired_leases-divides_example =
    Expired.acquire_expired_leases-divides leaser (λ p w l e. ground arith) seen 0 divided refl

abbrev left_over : Acquired
left_over = record { acquired = []; not_acquired = seen }

candidate-fair_example :
    Memᴰ (lease_of "0" "a") seen
    × ((lease_of "0" "a").owner ≢ "me")
    × (length (owned_by "me" seen) + 0 + 2 ≤ length (owned_by "a" seen))
    × (length (owned_by "b" seen) ≤ length (owned_by "a" seen))
unfolding azure_event_hubs_go.Eph.Scheduler.Scan.candidate lease_to_steal lookup
    azure_event_hubs_go.Dict.insert
candidate-fair_example =
    Fairness.candidate-fair as_it_is ranges_once "me" left_over as_it_is first (lease_of "0" "a")
      "b" ranges refl (λ e. ground (arith, eq_iff "b" "me"))

start_receiver-cases_example :
    (((start_receiver leaser client (lease_of "2" "me") busy).0 ≡ none)
        × ((h : String) × (lookup "1"
                (start_receiver leaser client (lease_of "2" "me") busy).1.receivers
              ≡ some receiver))
      ⊎ ((x : Error) × ((start_receiver leaser client (lease_of "2" "me") busy).0 ≡ some x)
          × (lookup "1" (start_receiver leaser client (lease_of "2" "me") busy).1.receivers
              ≡ some receiver)))
    × ((start_receiver leaser client (lease_of "2" "me") busy).1.renewing ≡ 1 ∷ 0 ∷ [])
unfolding lookup azure_event_hubs_go.Eph.Scheduler.Receivers.evict
start_receiver-cases_example =
    Lifecycle.start_receiver-cases leaser client (lease_of "2" "me") busy "1"

abbrev in_order : ℕ → List ℕ
in_order n = 0 ∷ 1 ∷ 2 ∷ []

count-scan_example :
    length (scan leaser client in_order as_it_is as_it_is "me" first busy).1.receivers ≤ 1 + greed
count-scan_example = Bounds.count-scan leaser client in_order as_it_is as_it_is "me" first busy

abbrev starting : Scheduler String ℕ
starting = record (new_scheduler 0) { running = true; has_done = true }

abbrev scanned_once : Scheduler String ℕ
scanned_once = (scan leaser client in_order as_it_is as_it_is "me" first starting).1

abbrev receiver_made : LeasedReceiver String
receiver_made = record { id = 0; lease = lease_of "0" "me"; handle = some "0" }

abbrev renewed_once : Scheduler String ℕ
renewed_once = (renew_round leaser client receiver_made scanned_once).1

scan_run : lookup "0" scanned_once.receivers ≡ some receiver_made
unfolding scan lookup shuffle Expired.acquire_expired_leases serve start_all start_receiver evict
    insert new_scheduler
scan_run = refl

Reached-Serves_example : Serves renewed_once
Reached-Serves_example =
    Running.Reached-Serves leaser client in_order as_it_is as_it_is "me" first
      (λ p w l e. ground arith) renewed_once
      (stepped scanned_once renewed_once
        (stepped starting scanned_once (started 0) (scanned starting))
        (renewed receiver_made scanned_once (λ r e same. let held = scan_run in ground arith)))
