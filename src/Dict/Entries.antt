-- ===== src/Dict/Entries.antt =====
-- The entries of a map, for code that ranges over it.
use azure_event_hubs_go.Base.{
  ◌+◌, String, ◌≡◌, subst, refl, inl, inr, none, some, [], ◌∷◌, arith, ◌==◌, eq_iff, Bool-cases,
  Memᴰ, length, ◌≤◌, subst,
}
use azure_event_hubs_go.Dict.{Dict, lookup, insert, delete, lookup-insert, lookup-delete}

module _ {ℓ} {V : Type ℓ} where
  -- No key has two entries.
  abbrev pub IsMap : Dict V → Type ℓ
  IsMap [] = Unit
  IsMap ((k, v) ∷ m) = (lookup k m ≡ none) × IsMap m

  pub insert-IsMap : (k : String) (v : V) (m : Dict V) → IsMap m → IsMap (insert k v m)
  unfolding insert lookup
  insert-IsMap k v [] h = (refl, tt)
  insert-IsMap k v ((j, w) ∷ m) h = elim (Bool-cases (j == k)) [
    | inl e ↦ rw e (ground (arith, eq_iff j k))
    | inr e ↦
        rw e (ground (arith, lookup-insert k j v m, eq_iff k j, eq_iff j k), insert-IsMap k v m h.1)
  ]

  pub lookup-mem : (k : String) (v : V) (m : Dict V) → IsMap m → Memᴰ (k, v) m → lookup k m ≡ some v
  unfolding lookup
  lookup-mem k v [] h i = elim i [ ]
  lookup-mem k v ((j, w) ∷ m) h (Memᴰ.head e) = ground (arith, eq_iff j k)
  lookup-mem k v ((j, w) ∷ m) h (Memᴰ.tail i) = ground (arith, eq_iff j k, lookup-mem k v m h.1 i)

  pub mem-lookup : (k : String) (v : V) (m : Dict V) → lookup k m ≡ some v → Memᴰ (k, v) m
  unfolding lookup
  mem-lookup k v [] e = absurd (cc)
  mem-lookup k v ((j, w) ∷ m) e = elim (Bool-cases (j == k)) [
    | inl same ↦ Memᴰ.head (ground (arith, eq_iff j k))
    | inr other ↦ Memᴰ.tail (mem-lookup k v m (ground arith))
  ]

  pub length-insert : (k : String) (v : V) (m : Dict V) → length (insert k v m) ≤ length m + 1
  unfolding insert
  length-insert k v [] = omega arith
  length-insert k v ((j, w) ∷ m) = ground (arith, length-insert k v m)

  pub length-delete : (k : String) (m : Dict V) → length (delete k m) ≤ length m
  unfolding delete
  length-delete k [] = omega arith
  length-delete k ((j, w) ∷ m) = ground (arith, length-delete k m)

  pub delete-missing : (k : String) (m : Dict V) → lookup k m ≡ none → delete k m ≡ m
  unfolding delete lookup
  delete-missing k [] e = refl
  delete-missing k ((j, w) ∷ m) e = ground (arith, delete-missing k m)

  pub length-delete_held :
      (k : String) (v : V) (m : Dict V)
      → IsMap m
      → lookup k m ≡ some v
      → length (delete k m) + 1 ≡ length m
  unfolding delete lookup
  length-delete_held k v [] h e = absurd (cc)
  length-delete_held k v ((j, w) ∷ m) h e = elim (Bool-cases (j == k)) [
    | inl same ↦
        rw
          (
            same,
            delete-missing k m (subst (λ i. lookup i m ≡ none) (ground (arith, eq_iff j k)) h.0),
          )
          (omega arith)
    | inr other ↦ rw other (omega (arith, length-delete_held k v m h.1 (ground arith)))
  ]

  pub delete-IsMap : (k : String) (m : Dict V) → IsMap m → IsMap (delete k m)
  unfolding delete
  delete-IsMap k [] h = tt
  delete-IsMap k ((j, w) ∷ m) h = elim (Bool-cases (j == k)) [
    | inl same ↦ rw same (delete-IsMap k m h.1)
    | inr other ↦
        rw other (ground (arith, lookup-delete k j m, eq_iff j k, eq_iff k j), delete-IsMap k m h.1)
  ]
