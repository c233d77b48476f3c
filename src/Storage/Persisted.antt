-- ===== src/Storage/Persisted.antt =====
-- What persistDirtyPartitions leaves of the set of dirty partitions.
use azure_event_hubs_go.Base.{
  ◌≡◌, ℕ, suc, ◌+◌, ◌/◌, ◌≤◌, String, Bool-cases, inl, inr, Option, none, some, List, [], ◌∷◌,
  arith, length, ltb, ◌∙◌, ap,
}
use azure_event_hubs_go.Go.{Error}
use azure_event_hubs_go.Dict.{Dict, lookup, delete}
use azure_event_hubs_go.Dict.Entries.{IsMap, delete-IsMap, length-delete_held}
use azure_event_hubs_go.Storage.Checkpointer.{collect_results, latest}

-- The results are of distinct keys of the map.
abbrev pub AreOf : List (String × Option Error) → Dict String → Type 0
AreOf [] m = Unit
AreOf ((p, e) ∷ rs) m = ((id : String) × (lookup p m ≡ some id)) × AreOf rs (delete p m)

pub length-collect_from :
    (i : ℕ) (rs : List (String × Option Error)) (m : Dict String) (last : Option Error)
    → IsMap m
    → AreOf rs m
    → length rs ≡ length m
    → i ≤ length m + 1
    → length (collect_results none i rs m last).1 ≡ (length m + i) / 2
unfolding collect_results
length-collect_from i [] m last u a n b = omega arith
length-collect_from i ((p, e) ∷ rs) m last u a n b = elim (Bool-cases (ltb i (length m))) [
  | inl go ↦
      let held = length-delete_held p a.0.0 m u a.0.1 in
      rw go (
        length-collect_from (suc i) rs (delete p m) (latest e last) (delete-IsMap p m u) a.1
          (omega (arith, held)) (ground arith)
        ∙ ap (λ k. k / 2) (omega (arith, held)))
  | inr stop ↦ rw stop (ground arith)
]

-- If each dirty partition, and nothing else, has one result, and the context does not end, the
-- loop of persistDirtyPartitions still leaves half of the partitions, rounded down, marked dirty.
pub length-collect_results :
    (rs : List (String × Option Error)) (m : Dict String)
    → IsMap m
    → AreOf rs m
    → length rs ≡ length m
    → length (collect_results none 0 rs m none).1 ≡ length m / 2
length-collect_results rs m u a n =
    length-collect_from 0 rs m none u a n (omega arith) ∙ ap (λ k. k / 2) (omega arith)
