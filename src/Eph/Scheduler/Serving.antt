-- ===== src/Eph/Scheduler/Serving.antt =====
-- What holds of the receivers of eph/scheduler.go after each of their operations.
use azure_event_hubs_go.Base.{
  ℕ, suc, String, ◌≡◌, ◌≢◌, sym, ◌∙◌, ap, ◌⊎◌, inl, inr, ◌<◌, some, List, [], ◌∷◌, arith, ◌==◌,
  eq_iff, Memᴰ, Bool-cases, num_eq, subst,
}
use mathlib.Core.List.Memᴰ.{cases_cons}
use azure_event_hubs_go.Dict.{Dict, lookup, insert, delete, lookup-insert, lookup-delete}
use azure_event_hubs_go.Eph.Scheduler.Receivers.{LeasedReceiver, without, has, end_renewal}

without-keeps : (n k : ℕ) (ms : List ℕ) → Memᴰ n ms → n ≢ k → Memᴰ n (without k ms)
without-keeps n k [] i h = elim i [ ]
without-keeps n k (m ∷ ms) i h = elim (cases_cons i) [
  | inl same ↦ elim (Bool-cases (num_eq m k)) [
    | inl e ↦ absurd (ground arith)
    | inr e ↦ rw e (Memᴰ.head same)
  ]
  | inr j ↦ elim (Bool-cases (num_eq m k)) [
    | inl e ↦ rw e (without-keeps n k ms j h)
    | inr e ↦ rw e (Memᴰ.tail (without-keeps n k ms j h))
  ]
]

module _ {V : Type 0} where
  in_delete :
      (p q : String) (m : Dict V) (r : V)
      → lookup q (delete p m) ≡ some r
      → (p ≢ q) × (lookup q m ≡ some r)
  in_delete p q m r e = (
    λ same. ground (arith, lookup-delete p q m, eq_iff p q),
    ground (arith, lookup-delete p q m, eq_iff p q),
  )

  in_insert :
      (p q : String) (v : V) (m : Dict V) (r : V)
      → lookup q (insert p v m) ≡ some r
      → ((p ≡ q) × (v ≡ r)) ⊎ ((p ≢ q) × (lookup q m ≡ some r))
  in_insert p q v m r e = elim (Bool-cases (p == q)) [
    | inl same ↦ inl (ground (arith, eq_iff p q), ground (arith, lookup-insert p q v m))
    | inr other ↦ inr (λ same. ground (arith, eq_iff p q), ground (arith, lookup-insert p q v m))
  ]

end_renewal-keeps :
    (n k : ℕ) (ready ms : List ℕ) → Memᴰ n ms → n ≢ k → Memᴰ n (end_renewal k ready ms)
end_renewal-keeps n k ready ms i h = elim (Bool-cases (has k ready)) [
  | inl e ↦ rw e (without-keeps n k ms i h)
  | inr e ↦ rw e i
]

-- Each receiver in the map stands under the partition of its lease, is the only one with its id,
-- its handle is set, and its renewal goroutine runs; `made` is above the ids.
pub record IsServing {H : Type 0} (receivers : Dict (LeasedReceiver H)) (renewing : List ℕ)
    (made : ℕ) : Type 0 where
  pub keyed :
      (p : String) (r : LeasedReceiver H) → lookup p receivers ≡ some r → r.lease.partition_id ≡ p
  pub handled :
      (p : String) (r : LeasedReceiver H)
      → lookup p receivers ≡ some r
      → (h : H) × (r.handle ≡ some h)
  pub numbered : (p : String) (r : LeasedReceiver H) → lookup p receivers ≡ some r → r.id < made
  pub renewed :
      (p : String) (r : LeasedReceiver H) → lookup p receivers ≡ some r → Memᴰ r.id renewing
  pub distinct :
      (p q : String) (r r' : LeasedReceiver H)
      → lookup p receivers ≡ some r
      → lookup q receivers ≡ some r'
      → r.id ≡ r'.id
      → p ≡ q

module _ {H : Type 0} where
  pub IsServing-empty : IsServing {H = H} [] [] 0
  IsServing-empty = record {
    keyed = λ p r e. absurd (unfold lookup in ground arith);
    handled = λ p r e. absurd (unfold lookup in ground arith);
    numbered = λ p r e. absurd (unfold lookup in ground arith);
    renewed = λ p r e. absurd (unfold lookup in ground arith);
    distinct = λ p q r r' e f g. absurd (unfold lookup in ground arith);
  }

  -- A receiver more whose goroutine runs.
  pub IsServing-suc :
      (rs : Dict (LeasedReceiver H)) (ns : List ℕ) (n k : ℕ)
      → IsServing rs ns n
      → IsServing rs (k ∷ ns) (suc n)
  IsServing-suc rs ns n k i = record {
    keyed = i.keyed;
    handled = i.handled;
    numbered = λ p r e. let b = i.numbered p r e in omega arith;
    renewed = λ p r e. Memᴰ.tail (i.renewed p r e);
    distinct = i.distinct;
  }

  pub IsServing-delete :
      (rs : Dict (LeasedReceiver H)) (ready ns : List ℕ) (n : ℕ) (p : String) (r : LeasedReceiver H)
      → IsServing rs ns n
      → lookup p rs ≡ some r
      → IsServing (delete p rs) (end_renewal r.id ready ns) n
  IsServing-delete rs ready ns n p r i held = record {
    keyed = λ q r' e. i.keyed q r' (in_delete p q rs r' e).1;
    handled = λ q r' e. i.handled q r' (in_delete p q rs r' e).1;
    numbered = λ q r' e. i.numbered q r' (in_delete p q rs r' e).1;
    renewed = λ q r' e.
        let (other, at) = in_delete p q rs r' e in
        end_renewal-keeps r'.id r.id ready ns (i.renewed q r' at)
          (λ same. other (i.distinct p q r r' held at (sym same)));
    distinct = λ q q' r' r'' e f same.
        i.distinct q q' r' r'' (in_delete p q rs r' e).1 (in_delete p q' rs r'' f).1 same;
  }

  pub IsServing-insert :
      (rs : Dict (LeasedReceiver H)) (ns : List ℕ) (n : ℕ) (p : String) (r : LeasedReceiver H)
      (h : H)
      → IsServing rs ns n
      → r.lease.partition_id ≡ p
      → r.handle ≡ some h
      → r.id < n
      → Memᴰ r.id ns
      → ((q : String) (r' : LeasedReceiver H) → lookup q rs ≡ some r' → r'.id ≡ r.id → p ≡ q)
      → IsServing (insert p r rs) ns n
  IsServing-insert rs ns n p r h i key handle bound runs alone = record {
    keyed = λ q r' e. elim (in_insert p q r rs r' e) [
      | inl (at, is) ↦ ap (λ x. x.lease.partition_id) (sym is) ∙ key ∙ at
      | inr (_, at) ↦ i.keyed q r' at
    ];
    handled = λ q r' e. elim (in_insert p q r rs r' e) [
      | inl (at, is) ↦ (h, ap (λ x. x.handle) (sym is) ∙ handle)
      | inr (_, at) ↦ i.handled q r' at
    ];
    numbered = λ q r' e. elim (in_insert p q r rs r' e) [
      | inl (at, is) ↦ subst (λ x. x.id < n) is bound
      | inr (_, at) ↦ i.numbered q r' at
    ];
    renewed = λ q r' e. elim (in_insert p q r rs r' e) [
      | inl (at, is) ↦ subst (λ x. Memᴰ x.id ns) is runs
      | inr (_, at) ↦ i.renewed q r' at
    ];
    distinct = λ q q' r' r'' e f same. elim (in_insert p q r rs r' e) [
      | inl (at, is) ↦ elim (in_insert p q' r rs r'' f) [
        | inl (at', is') ↦ sym at ∙ at'
        | inr (_, at') ↦ sym at ∙ alone q' r'' at' (sym same ∙ ap (λ x. x.id) (sym is))
      ]
      | inr (_, at) ↦ elim (in_insert p q' r rs r'' f) [
        | inl (at', is') ↦ sym (alone q r' at (same ∙ ap (λ x. x.id) (sym is'))) ∙ at'
        | inr (_, at') ↦ i.distinct q q' r' r'' at at' same
      ]
    ];
  }
