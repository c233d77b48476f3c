-- ===== src/Batching/Partition.antt =====
-- Which partition main.go of the batch writer takes.
use Prim.Native.Char.{Char, code}
use Prim.Native.String.{◌++◌}
use text.Mathlib.TextLemmas.{nil-append, cons-append}
use azure_event_hubs_go.Base.{
  ◌≡◌, ◌≢◌, refl, ap, ◌⊎◌, inl, inr, String, none, some, [], ◌∷◌, arith, num_eq, ◌==◌, eq_iff,
  Bool-cases, false, sym, ◌∙◌,
}
use azure_event_hubs_go.Batching.Main.{split_once, partition_id}

abbrev pub HasNoDash : String → Type 0
HasNoDash String.[] = Unit
HasNoDash (String.◌∷◌ c s) = (num_eq (code c) b'-' ≡ false) × HasNoDash s

split_once-cases :
    (s : String)
    → (HasNoDash s × (split_once s ≡ s ∷ []))
      ⊎ ((a : String) × (c : Char) × (b : String) × (s ≡ a ++ String.◌∷◌ c b)
          × (code c ≡ b'-')
          × HasNoDash a
          × (split_once s ≡ a ∷ b ∷ []))
unfolding split_once
split_once-cases String.[] = inl (tt, refl)
split_once-cases (String.◌∷◌ c s) = elim (Bool-cases (num_eq (code c) b'-')) [
  | inl e ↦ inr ("", c, s, sym (nil-append (String.◌∷◌ c s)), ground arith, tt, ground arith)
  | inr e ↦ elim (split_once-cases s) [
    | inl (n, h) ↦ inl ((e, n), ground arith)
    | inr (a, d, b, at, dash, n, h) ↦ inr (
      String.◌∷◌ c a,
      d,
      b,
      ap (λ x. String.◌∷◌ c x) at ∙ sym (cons-append c a (String.◌∷◌ d b)),
      dash,
      (e, n),
      ground arith,
    )
  ]
]

-- The variable EVENTHUB_PARTITIONID names the partition where it is not empty; else what follows
-- the first dash of HOSTNAME does, and there is none exactly where HOSTNAME has no dash.
pub partition_id-cases :
    (getenv : String → String)
    → let id = getenv "EVENTHUB_PARTITIONID" in
      let host = getenv "HOSTNAME" in
      ((id ≢ "") × (partition_id getenv ≡ some id))
      ⊎ (((id ≡ "") × HasNoDash host × (partition_id getenv ≡ none))
          ⊎ ((id ≡ "")
              × (a : String) × (c : Char) × (b : String) × (host ≡ a ++ String.◌∷◌ c b)
              × (code c ≡ b'-')
              × HasNoDash a
              × (partition_id getenv ≡ some b)))
unfolding partition_id
partition_id-cases getenv = elim (Bool-cases (getenv "EVENTHUB_PARTITIONID" == "")) [
  | inr e ↦ inl (λ same. ground (arith, eq_iff (getenv "EVENTHUB_PARTITIONID") ""), ground arith)
  | inl e ↦
      let empty : getenv "EVENTHUB_PARTITIONID" ≡ "" =
        ground (arith, eq_iff (getenv "EVENTHUB_PARTITIONID") "") in
      elim (split_once-cases (getenv "HOSTNAME")) [
        | inl (n, h) ↦ inr (inl (empty, n, ground arith))
        | inr (a, c, b, at, dash, n, h) ↦ inr (inr (empty, a, c, b, at, dash, n, ground arith))
      ]
]
