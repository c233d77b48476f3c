-- ===== src/Tests/Memory.antt =====
-- eph/memory.go at a store with one partition, "0"; checkpoints are numbers.
use azure_event_hubs_go.Base.{
  String, ℕ, Option, none, some, ◌==◌, ◌+◌, ◌∷◌, [], ◌-◌, ◌≡◌, true, false, arith, eq_iff,
}
use azure_event_hubs_go.Eph.Lease.{granted, failed}
use azure_event_hubs_go.Eph.Memory.Store
use azure_event_hubs_go.Eph.Memory.Leaser
use azure_event_hubs_go.Eph.Memory.Leaser.{
  Processor, Readings, MemoryLeaser, claim, update_lease, take_ownership,
}
use azure_event_hubs_go.Eph.Memory.Checkpointer.{
  get_checkpoint, ensure_checkpoint, update_checkpoint,
}
use azure_event_hubs_go.Dict.{Dict, lookup}
use azure_event_hubs_go.Go.{second, returned, ok, panicked, errors_new}
use azure_event_hubs_go.Base.{refl}
use azure_event_hubs_go.Eph.Memory.Acquire
use azure_event_hubs_go.Eph.Memory.Entry
use azure_event_hubs_go.Eph.Memory.Handover
use azure_event_hubs_go.Eph.Memory.Store.{
  MemoryLease, StoreLease, SharedStore, change_lease, is_leased, is_free, find, store_lease,
}
use azure_event_hubs_go.Eph.Memory.Entry.{Sets}
use azure_event_hubs_go.Eph.Memory.Acquire.{won}

abbrev host : String → Processor
host n = record { name = n; partition_ids = "0" ∷ [] }

abbrev lease_of : String → String → Option ℕ → MemoryLease ℕ
lease_of name token c = record {
  lease = record { partition_id = "0"; epoch = 7; owner = name };
  expiration_time = 0;
  token = token;
  checkpoint = c;
}

abbrev entry_of : String → ℕ → MemoryLease ℕ → StoreLease ℕ
entry_of token expiration l = record { token = token; expiration = expiration; ml = some l }

abbrev store_of : StoreLease ℕ → SharedStore ℕ
store_of e = record { leases = some (("0", e) ∷ []) }

abbrev leaser_of : String → SharedStore ℕ → Dict (MemoryLease ℕ) → MemoryLeaser ℕ
leaser_of name s m = record {
  store = s;
  processor = some (host name);
  lease_duration = 100;
  leases = m;
}

abbrev clock : Readings
clock = record { checked = 50; tested = 51; now = 52 }

-- Host "a" holds the partition under "ta" until the time 40.
abbrev of_a : MemoryLease ℕ
of_a = lease_of "a" "ta" (some 3)

abbrev held_by_a : StoreLease ℕ
held_by_a = entry_of "ta" 40 of_a

abbrev a : MemoryLeaser ℕ
a = leaser_of "a" (store_of held_by_a) (("0", of_a) ∷ [])

abbrev b : MemoryLeaser ℕ
b = leaser_of "b" (store_of held_by_a) []

-- Host "c" had the partition before.
abbrev of_c : MemoryLease ℕ
of_c = lease_of "c" "tc" (some 2)

abbrev c : MemoryLeaser ℕ
c = leaser_of "c" (store_of held_by_a) (("0", of_c) ∷ [])

store-Sets_example :
    Sets
      (λ l. l.token == "ta")
      (λ l. record l { token = "tb"; expiration = 52 + 100 })
      "0"
      (store_of held_by_a)
      (change_lease "0" "tb" "ta" 100 52 (store_of held_by_a))
    × Sets
        (λ l. l.token == "ta")
        (λ l. record l { token = ""; expiration = 52 - second })
        "0"
        (store_of held_by_a)
        (Store.release_lease "0" "ta" 52 (store_of held_by_a))
    × Sets
        (λ l. l.token == "ta")
        (λ l. record l { expiration = 52 + 100 })
        "0"
        (store_of held_by_a)
        (Store.renew_lease "0" "ta" 100 52 (store_of held_by_a))
    × Sets
        (is_free 51)
        (λ l. record l { token = "tb"; expiration = 52 + 100 })
        "0"
        (store_of held_by_a)
        (Store.acquire_lease "0" "tb" 100 51 52 (store_of held_by_a))
    × Sets
        (λ l. l.token == "ta")
        (λ l. record l { ml = some of_a })
        "0"
        (store_of held_by_a)
        (store_lease "0" "ta" of_a (store_of held_by_a))
store-Sets_example = Entry.store-Sets "0" "tb" "ta" of_a 100 51 52 (store_of held_by_a)

acquire_lease-cases_example : Leaser.acquire_lease "0" (ok "tb") clock b ≡ (
  returned (granted (take_ownership "tb" "b" of_a)),
  won "0" "tb" clock b held_by_a of_a (host "b"),
)
unfolding lookup
acquire_lease-cases_example =
    Acquire.acquire_lease-cases "0" "tb" clock b held_by_a of_a (host "b") refl refl refl

stale-refused_example :
    (Leaser.renew_lease "0" 60 c ≡ (failed (errors_new "unable to renew lease"), c))
    × (Leaser.release_lease "0" 60 c
        ≡ ((false, some (errors_new "could not release the lease")), c))
    × (update_lease "0" 60 c ≡ (failed (errors_new "unable to renew lease"), c))
    × ((update_checkpoint "0" 9 c).0
        ≡ some (errors_new "could not store lease on update of checkpoint"))
    × ((update_checkpoint "0" 9 c).1.store ≡ c.store)
unfolding lookup
stale-refused_example =
    Acquire.stale-refused "0" 60 9 c held_by_a of_c refl refl
      (λ e. ground (arith, eq_iff "ta" "tc"))

release_lease-frees_example :
    ((Leaser.release_lease "0" 60 a).0 ≡ (true, none))
    × (is_leased "0" 61 (Leaser.release_lease "0" 60 a).1.store ≡ false)
    × (lookup "0" (Leaser.release_lease "0" 60 a).1.leases ≡ none)
    × ((Leaser.renew_lease "0" 61 (Leaser.release_lease "0" 60 a).1).0 ≡ failed Leaser.not_found)
unfolding lookup
release_lease-frees_example = Acquire.release_lease-frees "0" 60 61 a held_by_a of_a refl refl refl

abbrev b_after : MemoryLeaser ℕ
b_after = (Leaser.acquire_lease "0" (ok "tb") clock b).1

abbrev a_after : MemoryLeaser ℕ
a_after = record a { store = b_after.store }

acquire_lease-revokes_example :
    (Leaser.renew_lease "0" 60 a_after ≡ (failed (errors_new "unable to renew lease"), a_after))
    × (Leaser.release_lease "0" 60 a_after
        ≡ ((false, some (errors_new "could not release the lease")), a_after))
    × ((update_checkpoint "0" 9 a_after).1.store ≡ b_after.store)
    × ((Leaser.renew_lease "0" 60 b_after).0 ≡ granted (take_ownership "tb" "b" of_a))
unfolding lookup
acquire_lease-revokes_example =
    Acquire.acquire_lease-revokes "0" "tb" clock 60 9 a b held_by_a of_a of_a (host "b") refl refl
      refl refl refl (λ e. ground (arith, eq_iff "tb" "ta"))

abbrev b_informed : MemoryLeaser ℕ
b_informed = record b { store = (update_checkpoint "0" 9 a).1.store }

handover_example :
    ((Leaser.acquire_lease "0" (ok "tb") clock b_informed).0
      ≡ returned (granted (take_ownership "tb" "b" (record of_a { checkpoint = some 9 }))))
    × (get_checkpoint 0 "0" (Leaser.acquire_lease "0" (ok "tb") clock b_informed).1
        ≡ (returned (9, true), (Leaser.acquire_lease "0" (ok "tb") clock b_informed).1))
unfolding lookup
handover_example =
    Handover.handover 0 "0" "tb" clock 9 a b held_by_a of_a (host "b") refl refl refl refl refl

-- A partition for which only EnsureLease has been called.
abbrev empty_lease : MemoryLease ℕ
empty_lease = lease_of "" "" none

abbrev made : StoreLease ℕ
made = entry_of "" 0 empty_lease

abbrev d : MemoryLeaser ℕ
d = leaser_of "d" (store_of made) []

abbrev d_after : MemoryLeaser ℕ
d_after = (Leaser.acquire_lease "0" (ok "td") clock d).1

get_checkpoint-panics_example :
    (get_checkpoint 0 "0" d_after ≡ (panicked, d_after))
    × ((ensure_checkpoint 0 "0" d_after).0 ≡ 0)
    × (get_checkpoint 0 "0" (ensure_checkpoint 0 "0" d_after).1
        ≡ (returned (0, true), (ensure_checkpoint 0 "0" d_after).1))
unfolding lookup
get_checkpoint-panics_example =
    Handover.get_checkpoint-panics 0 "0" "td" clock d made empty_lease (host "d") refl refl refl
      refl refl

-- "b" has read the lease of "a", which then writes its checkpoint 9 and lets the partition go.
abbrev b_late : MemoryLeaser ℕ
b_late = record b { store = (Leaser.release_lease "0" 60 (update_checkpoint "0" 9 a).1).1.store }

abbrev taken : MemoryLease ℕ
taken = record of_a { token = "tb"; lease = record of_a.lease { owner = "b"; epoch = 8 } }

claim-overwrites_example :
    (Store.get_lease "0" a.store ≡ some of_a)
    × ((update_checkpoint "0" 9 a).0 ≡ none)
    × ((Leaser.release_lease "0" 60 (update_checkpoint "0" 9 a).1).0 ≡ (true, none))
    × ((claim "0" "tb" of_a clock b_late).0 ≡ returned (granted taken))
    × (Store.get_lease "0" (claim "0" "tb" of_a clock b_late).1.store ≡ some taken)
    × (taken.checkpoint ≡ some 3)
unfolding lookup
claim-overwrites_example =
    Handover.claim-overwrites "0" "tb" 60 clock 9 a b held_by_a of_a (host "b") refl refl refl refl
      refl
