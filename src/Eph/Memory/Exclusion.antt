-- ===== src/Eph/Memory/Exclusion.antt =====
-- Mutual exclusion between the hosts of a store of eph/memory.go, under every interleaving.
use azure_event_hubs_go.Base.{
  ℕ, ◌+◌, ◌<◌, String, ◌≡◌, sym, ◌∙◌, inl, inr, Bool, true, none, some, arith, eq_iff, Option-cases,
  ◌≢◌, ap,
}
use azure_event_hubs_go.Dict.{lookup}
use azure_event_hubs_go.Eph.Memory.Store
use azure_event_hubs_go.Eph.Memory.Store.{SharedStore, MemoryLease, StoreLease, find}
use azure_event_hubs_go.Eph.Memory.Leaser.{MemoryLeaser, take_ownership, publish, renew_lease}
use azure_event_hubs_go.Eph.Memory.Hosts.{
  Progress, idle, read, tested, seized, System, update, leaser, commit, go_on, swap_token,
  after_swap, seize_by, Step, reads, tests, seizes, publishes, renews, releases, updates, ensures,
  deletes, ensures_checkpoint, sets_checkpoint, Reach, here, next, update-cases,
}
use azure_event_hubs_go.Eph.Memory.Carries.{
  Carries, renew_lease-Carries, release_lease-Carries, update_lease-Carries, ensure_lease-Carries,
  delete_lease-Carries, ensure_checkpoint-Carries, set_checkpoint-Carries, publish-Carries,
}

module _ {C : Type 0} where
  -- The host i has a lease of p under the token of the store: its calls for p succeed.
  abbrev pub Holds : System C → ℕ → String → Type 0
  Holds s i p =
      (l : MemoryLease C) × (e : StoreLease C) × (lookup p (s.host i).leases ≡ some l)
      × (find p s.store ≡ some e)
      × (e.token ≡ l.token)

  renewed-Holds :
      (s : System C) (i : ℕ) (p : String) (now : ℕ)
      → (renew_lease p now (leaser s i)).0.done ≡ true
      → Holds s i p
  unfolding renew_lease
  renewed-Holds s i p now done = elim (Option-cases (lookup p (s.host i).leases)) [
    | inl e ↦ absurd (ground arith)
    | inr (l, mine) ↦ elim (Option-cases (find p s.store)) [
      | inl e ↦ absurd (ground arith)
      | inr (e, held) ↦ (l, e, mine, held, ground (arith, eq_iff e.token l.token))
    ]
  ]

module _ {C : Type 0} (uuid : ℕ → String) where
  -- The token was drawn by the host i.
  abbrev Drawn : System C → ℕ → String → Type 0
  Drawn s i token = (n : ℕ) × (n < s.drawn) × (s.drawer n ≡ i) × (token ≡ uuid n)

  pub record Inv (s : System C) : Type 0 where
    pub owned :
        (i : ℕ) (p : String) (l : MemoryLease C)
        → lookup p (s.host i).leases ≡ some l
        → Drawn s i l.token
    pub under_way :
        (i : ℕ) (p : String) (l : MemoryLease C) (n : ℕ)
        → s.progress i ≡ seized p l n
        → (n < s.drawn) × (s.drawer n ≡ i)

  -- A call of the host i that adds no token.
  commit-Inv :
      (s : System C) (i : ℕ) (ml : MemoryLeaser C)
      → Carries (s.host i).leases ml.leases
      → Inv s
      → Inv (commit s i ml)
  commit-Inv s i ml carries v = record {
    owned = λ j p l.
        update-cases (λ m. lookup p m.leases ≡ some l → Drawn s j l.token) s.host i ml j
          (λ same e.
            let (k, held, tok) = carries p l e in
            let (n, lt, who, drew) = v.owned i p k held in (n, lt, who ∙ same, tok ∙ drew))
          (λ _. v.owned j p l);
    under_way = v.under_way;
  }

  -- A host goes to a point of AcquireLease at which it has no token in the store yet.
  go_on-Inv :
      (s : System C) (i : ℕ) (g : Progress C)
      → ((p : String) (l : MemoryLease C) (n : ℕ) → g ≢ seized p l n)
      → Inv s
      → Inv (go_on s i g)
  go_on-Inv s i g not_yet v = record {
    owned = v.owned;
    under_way = λ j p l n.
        update-cases (λ x. x ≡ seized p l n → (n < s.drawn) × (s.drawer n ≡ j)) s.progress i g j
          (λ same e. absurd (not_yet p l n e)) (λ _. v.under_way j p l n);
  }

  -- What was drawn before a new token stays drawn by the same host.
  Drawn-more :
      (s : System C) (i j n : ℕ)
      → (n < s.drawn) × (s.drawer n ≡ j)
      → (n < s.drawn + 1) × (update s.drawer s.drawn i n ≡ j)
  Drawn-more s i j n (lt, who) = (
    omega arith,
    update-cases (λ x. x ≡ j) s.drawer s.drawn i n (λ e. absurd (omega arith)) (λ _. who),
  )

  after_swap-seized :
      (p q : String) (l k : MemoryLease C) (m n : ℕ) (done : Bool)
      → after_swap p l m done ≡ seized q k n
      → m ≡ n
  after_swap-seized p q l k m n done e = ground arith

  seize_by-Inv :
      (s : System C) (i : ℕ) (p : String) (l : MemoryLease C) (leased : Bool) (again now : ℕ)
      → Inv s
      → Inv (seize_by (uuid s.drawn) s i p l leased again now)
  seize_by-Inv s i p l leased again now v = record {
    owned = λ j q k e.
        let (n, lt, who, drew) = v.owned j q k e in
        let (lt', who') = Drawn-more s i j n (lt, who) in (n, lt', who', drew);
    under_way = λ j q k n.
        update-cases (λ x. x ≡ seized q k n → (n < s.drawn + 1) × (update s.drawer s.drawn i n ≡ j))
          s.progress i (after_swap p l s.drawn done) j
          (λ same e.
            let new = after_swap-seized p q l k s.drawn n done e in
            (
              omega arith,
              update-cases (λ x. x ≡ j) s.drawer s.drawn i n (λ _. same) (λ e'. absurd (e' new)),
            ))
          (λ _ e. Drawn-more s i j n (v.under_way j q k n e));
  }
    where
      done : Bool
      done = (swap_token p (uuid s.drawn) l leased again now (leaser s i)).1

  publish-Inv :
      (s : System C) (i : ℕ) (p : String) (l : MemoryLease C) (n : ℕ) (name : String)
      → s.progress i ≡ seized p l n
      → Inv s
      → Inv (commit s i (publish p (uuid n) (take_ownership (uuid n) name l) (leaser s i)).1)
  unfolding take_ownership
  publish-Inv s i p l n name at v = record {
    owned = λ j q k.
        update-cases (λ m. lookup q m.leases ≡ some k → Drawn s j k.token) s.host i _ j
          (λ same e.
            elim (publish-Carries p (uuid n) (take_ownership (uuid n) name l) (leaser s i) q k e) [
              | inl old ↦ let (m, lt, who, drew) = v.owned i q k old in (m, lt, who ∙ same, drew)
              | inr new ↦
                  let (lt, who) = v.under_way i p l n at in
                  (n, lt, who ∙ same, ap (λ (x : MemoryLease C). x.token) new)
            ])
          (λ _. v.owned j q k);
    under_way = v.under_way;
  }

  -- Every step of every host keeps the record of who drew which token.
  Step-Inv : (s u : System C) → Step uuid s u → Inv s → Inv u
  Step-Inv s u (reads i p l at held) v = go_on-Inv s i (read p l) (λ q k n e. cc) v
  Step-Inv s u (tests i p l now at) v =
      go_on-Inv s i (tested p l (Store.is_leased p now s.store)) (λ q k n e. cc) v
  Step-Inv s u (seizes i p l leased again now at) v = seize_by-Inv s i p l leased again now v
  Step-Inv s u (publishes i p l n name at) v =
      go_on-Inv _ i idle (λ q k m e. cc) (publish-Inv s i p l n name at v)
  Step-Inv s u (renews i p now) v = commit-Inv s i _ (renew_lease-Carries p now (leaser s i)) v
  Step-Inv s u (releases i p now) v = commit-Inv s i _ (release_lease-Carries p now (leaser s i)) v
  Step-Inv s u (updates i p now) v = commit-Inv s i _ (update_lease-Carries p now (leaser s i)) v
  Step-Inv s u (ensures i p) v = commit-Inv s i _ (ensure_lease-Carries p (leaser s i)) v
  Step-Inv s u (deletes i p) v = commit-Inv s i _ (delete_lease-Carries p (leaser s i)) v
  Step-Inv s u (ensures_checkpoint i p c) v =
      commit-Inv s i _ (ensure_checkpoint-Carries p c (leaser s i)) v
  Step-Inv s u (sets_checkpoint i p c refused) v =
      commit-Inv s i _ (set_checkpoint-Carries p c refused (leaser s i)) v

  Reach-Inv : (s u : System C) → Reach uuid s u → Inv s → Inv u
  Reach-Inv s u here v = v
  Reach-Inv s u (next r st) v = Step-Inv _ u st (Reach-Inv s _ r v)

  -- Nobody has a lease yet.
  pub record IsFresh (s : System C) : Type 0 where
    pub no_leases : (i : ℕ) (p : String) → lookup p (s.host i).leases ≡ none
    pub idle_hosts : (i : ℕ) → s.progress i ≡ idle

  fresh-Inv : (s : System C) → IsFresh s → Inv s
  fresh-Inv s f = record {
    owned = λ i p l e. cc (f.no_leases i p);
    under_way = λ i p l n e. cc (f.idle_hosts i);
  }

  one_holder :
      ((m n : ℕ) → uuid m ≡ uuid n → m ≡ n)
      → (u : System C) → Inv u
      → (i j : ℕ) (p : String) → Holds u i p
      → Holds u j p
      → i ≡ j
  one_holder once u v i j p (l, e, mine, held, same) (k, d, his, held', same') =
      let (n, _, who, drew) = v.owned i p l mine in
      let (m, _, who', drew') = v.owned j p k his in
      let one_entry : e.token ≡ d.token = cc in
      let one_token : l.token ≡ k.token = sym same ∙ (one_entry ∙ same') in
      sym who ∙ (ap u.drawer (once n m (sym drew ∙ (one_token ∙ drew'))) ∙ who')

  -- If uuid.NewV4 never returns a text twice, then in every state that hosts without leases reach,
  -- by any interleaving of their calls, RenewLease of a partition succeeds for one host at most.
  pub exclusion :
      ((m n : ℕ) → uuid m ≡ uuid n → m ≡ n)
      → (s u : System C) → IsFresh s
      → Reach uuid s u
      → (i j : ℕ) (p : String) (now later : ℕ) → (renew_lease p now (leaser u i)).0.done ≡ true
      → (renew_lease p later (leaser u j)).0.done ≡ true
      → i ≡ j
  exclusion once s u fresh r i j p now later renewed renewed' =
      one_holder once u (Reach-Inv s u r (fresh-Inv s fresh)) i j p
        (renewed-Holds u i p now renewed) (renewed-Holds u j p later renewed')
