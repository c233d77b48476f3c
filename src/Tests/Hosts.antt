-- ===== src/Tests/Hosts.antt =====
-- Two hosts over one store of eph/memory.go: the first takes the one partition, step by step.
use Prim.Native.String.{◌++◌, len}
use text.Mathlib.TextPositions.{len-append}
use azure_event_hubs_go.Base.{
  ℕ, zero, suc, ◌+◌, String, ◌≡◌, refl, true, some, none, [], ◌∷◌, arith, ap, false, ◌∙◌,
}
use azure_event_hubs_go.Eph.Memory.Store.{SharedStore, MemoryLease, new_memory_lease, is_leased}
use azure_event_hubs_go.Eph.Memory.Leaser.{MemoryLeaser, publish, take_ownership}
use azure_event_hubs_go.Eph.Memory.Hosts.{
  System, Reach, here, next, reads, tests, seizes, publishes, idle, seize_by, go_on, tested, read,
  commit, leaser,
}
use azure_event_hubs_go.Eph.Memory.Exclusion
use azure_event_hubs_go.Eph.Memory.Exclusion.{IsFresh}

-- Texts of different lengths.
abbrev strokes : ℕ → String
strokes zero = "|"
strokes (suc n) = "|" ++ strokes n

len-strokes : (n : ℕ) → len (strokes n) ≡ n + 1
len-strokes zero = refl
len-strokes (suc n) = len-append "|" (strokes n) ∙ omega (arith, len-strokes n)

abbrev unused : MemoryLeaser ℕ
unused = record {
  store = record { leases = none };
  processor = none;
  lease_duration = 100;
  leases = [];
}

abbrev lease : MemoryLease ℕ
lease = record {
  lease = record { partition_id = "0"; epoch = 0; owner = "" };
  expiration_time = 0;
  token = "";
  checkpoint = none;
}

abbrev start : System ℕ
start = record {
  store = record {
    leases = some (("0", record { token = ""; expiration = 0; ml = some lease }) ∷ []);
  };
  host = λ i. unused;
  progress = λ i. idle;
  drawn = 0;
  drawer = λ n. 0;
}

fresh : IsFresh strokes start
unfolding azure_event_hubs_go.Dict.lookup
fresh = record { no_leases = λ i p. refl; idle_hosts = λ i. refl }

abbrev read_ : System ℕ
read_ = go_on start 0 (read "0" lease)

abbrev tested_ : System ℕ
tested_ = go_on read_ 0 (tested "0" lease (is_leased "0" 5 read_.store))

abbrev seized_ : System ℕ
seized_ = seize_by (strokes 0) tested_ 0 "0" lease false 6 7

abbrev taken : System ℕ
taken =
    go_on
      (commit seized_ 0
        (publish "0" (strokes 0) (take_ownership (strokes 0) "a" lease) (leaser seized_ 0)).1)
      0 idle

reached : Reach strokes start taken
unfolding azure_event_hubs_go.Eph.Memory.Store.get_lease azure_event_hubs_go.Dict.lookup
    azure_event_hubs_go.Eph.Memory.Hosts.update azure_event_hubs_go.Base.ℕ_discrete is_leased
    azure_event_hubs_go.Eph.Memory.Store.acquire_lease
reached =
    next
      (next (next (next here (reads 0 "0" lease refl refl)) (tests 0 "0" lease 5 refl))
        (seizes 0 "0" lease false 6 7 refl))
      (publishes 0 "0" lease 0 "a" refl)

exclusion_example : ◌≡◌ {A = ℕ} 0 0
unfolding azure_event_hubs_go.Eph.Memory.Leaser.renew_lease azure_event_hubs_go.Dict.lookup
    azure_event_hubs_go.Eph.Memory.Hosts.update azure_event_hubs_go.Base.ℕ_discrete publish
    azure_event_hubs_go.Eph.Memory.Store.acquire_lease azure_event_hubs_go.Dict.insert
    take_ownership
exclusion_example =
    Exclusion.exclusion strokes (λ m n e. omega (arith, len-strokes m, len-strokes n, ap len e))
      start taken fresh reached 0 0 "0" 8 9 refl refl
