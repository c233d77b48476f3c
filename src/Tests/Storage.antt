-- ===== src/Tests/Storage.antt =====
-- storage/storage.go and storage/credential.go over a service with one blob, which is the world; a
-- lease is its own text.
use azure_event_hubs_go.Base.{
  ℕ, ◌+◌, ◌*◌, ◌<◌, ◌≤◌, String, ◌≡◌, ◌⊎◌, refl, true, false, Option, none, some, List, [], ◌∷◌,
  length, ◌%◌, ◌^◌,
}
use azure_event_hubs_go.Go.{Error, Result, ok, second}
use azure_event_hubs_go.Dict.{Dict, lookup, insert, delete}
use azure_event_hubs_go.Eph.Lease.{granted, failed}
use azure_event_hubs_go.Storage.Blob.{leased, other, StorageLease, Service, Json}
use azure_event_hubs_go.Storage.Leaser.{LeaserCheckpointer, get_lease, not_found}
use azure_event_hubs_go.Storage.Operations.{acquire_lease, release_lease, renew_lease}
use azure_event_hubs_go.Storage.Checkpointer.{update_checkpoint, persist_lease, collect_results}
use azure_event_hubs_go.Storage.Persisted
use azure_event_hubs_go.Storage.Acquired
use azure_event_hubs_go.Storage.Written
use azure_event_hubs_go.Storage.Credential
use azure_event_hubs_go.Storage.Credential.{SasToken, get_token, keep_token, refresh_token}

abbrev lease_of : String → String → Option ℕ → StorageLease ℕ
lease_of name token c = record {
  lease = record { partition_id = "0"; epoch = 7; owner = name };
  checkpoint = c;
  state = other "available";
  token = token;
}

abbrev service : Service (StorageLease ℕ) (StorageLease ℕ)
service = record {
  list_containers = λ n w. (ok (n ∷ []), w);
  create_container = λ n w. (ok tt, w);
  delete_container = λ n w. (ok tt, w);
  get_blob = λ p w. (ok (w, w.state), w);
  put_blob = λ p j c w. (ok 201, j);
  delete_blob = λ p w. (ok tt, w);
  get_properties = λ p w. (ok w.state, w);
  change_lease = λ p old new w. (ok tt, record w { token = new });
  acquire_lease = λ p new d w. (ok tt, record w { state = leased; token = new });
  renew_lease = λ p token w. (ok tt, w);
  release_lease = λ p token w. (ok tt, record w { state = other "available" });
}

abbrev json : Json ℕ (StorageLease ℕ)
json = record { marshal = λ l. ok l; unmarshal = λ j. ok j }

abbrev blob : StorageLease ℕ
blob = lease_of "a" "ta" none

abbrev mine : StorageLease ℕ
mine = lease_of "b" "tb" (some 3)

abbrev b : LeaserCheckpointer ℕ (StorageLease ℕ)
b = record {
  leases = ("0", mine) ∷ [];
  processor = record { name = "b"; partition_ids = "0" ∷ [] };
  lease_duration = 30 * second;
  container_name = "leases";
  dirty_partitions = ("0", "id") ∷ [];
  persisting = true;
  world = blob;
}

acquire_lease-outcomes_example :
    (((acquire_lease service json "0" (ok "tc") b).0.lease ≡ none)
      × ((acquire_lease service json "0" (ok "tc") b).0.done ≡ false)
      × ((acquire_lease service json "0" (ok "tc") b).1.leases ≡ b.leases)
      × ((acquire_lease service json "0" (ok "tc") b).1.dirty_partitions ≡ b.dirty_partitions))
    ⊎ ((l : StorageLease ℕ) × (l' : StorageLease ℕ) × (new : String) × ((get_lease service json "0"
            blob).0
          ≡ ok l)
        × (ok "tc" ≡ ok new)
        × (l' ≡ record l {
          token = new;
          lease = record l.lease { owner = "b"; epoch = (l.lease.epoch + 1) % 2 ^ 64 };
        })
        × ((acquire_lease service json "0" (ok "tc") b).0 ≡ granted l')
        × ((acquire_lease service json "0" (ok "tc") b).1.leases ≡ insert "0" l' b.leases))
acquire_lease-outcomes_example = Acquired.acquire_lease-outcomes service json "0" (ok "tc") b

persist_lease-update_checkpoint_example :
    (lookup "0" (update_checkpoint "0" 9 (ok "new") b).1.dirty_partitions ≡ some "new")
    × ((update_checkpoint "0" 9 (ok "new") b).1.world ≡ blob)
    × ((persist_lease service json "0" (update_checkpoint "0" 9 (ok "new") b).1).1.world
        ≡ record mine { checkpoint = some 9 })
unfolding lookup
persist_lease-update_checkpoint_example =
    Written.persist_lease-update_checkpoint service json "0" 9 "new" b mine refl

release_lease-forgets_example :
    (lookup "0" (release_lease service json "0" b).1.leases ≡ none)
    × (lookup "0" (release_lease service json "0" b).1.dirty_partitions ≡ none)
    × ((renew_lease service json "0" (release_lease service json "0" b).1).0 ≡ failed not_found)
unfolding release_lease lookup
release_lease-forgets_example = Written.release_lease-forgets service json "0" b refl

-- Of four dirty partitions two stay marked.
abbrev dirty : Dict String
dirty = ("0", "i") ∷ ("1", "j") ∷ ("2", "k") ∷ ("3", "l") ∷ []

abbrev results : List (String × Option Error)
results = ("2", none) ∷ ("0", none) ∷ ("3", none) ∷ ("1", none) ∷ []

length-collect_results_example : length (collect_results none 0 results dirty none).1 ≡ 2
unfolding lookup delete
length-collect_results_example =
    Persisted.length-collect_results results dirty (refl, (refl, (refl, (refl, tt))))
      (("k", refl), (("i", refl), (("l", refl), (("j", refl), tt)))) refl

abbrev list_account_sas : ℕ → ℕ → ℕ → Result String × ℕ
list_account_sas start expiry w = (ok "sig", w + 1)

-- Got when the clock read 9000 seconds.
abbrev token : SasToken
token = record { sas = "sig"; expiry = 12599 * second }

abbrev credential : Credential.Credential ℕ
credential = record { token = some token; world = 1 }

get_token-again_example :
    (get_token list_account_sas (8999 * second) (9000 * second) (record { token = none; world = 0 })
      ≡ (ok token, credential))
    × (((12899 * second < 9100 * second)
          × (get_token list_account_sas (9100 * second) (9101 * second) credential
              ≡ (ok token, credential)))
        ⊎ ((9100 * second ≤ 12899 * second)
            × ((get_token list_account_sas (9100 * second) (9101 * second) credential).1.world
                ≡ 2)))
get_token-again_example =
    Credential.get_token-again list_account_sas (8999 * second) (9000 * second) (9100 * second)
      (9101 * second) "sig" 0 1 refl
