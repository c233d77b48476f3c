-- ===== src/Eph/Memory/Hosts.antt =====
-- Several hosts over one store of eph/memory.go. AcquireLease is not one critical section of the
-- store: it reads the lease, tests whether it is leased, changes the token, and stores its copy,
-- and the other hosts' calls may come in between.
use mathlib.Core.Logic.{if_pos, if_neg}
use azure_event_hubs_go.Base.{◌≢◌, ℕ, ◌+◌, String, ◌≡◌, Bool, some, if◌then◌else◌, ite, ℕ_discrete}
use azure_event_hubs_go.Eph.Memory.Store
use azure_event_hubs_go.Eph.Memory.Store.{SharedStore, MemoryLease}
use azure_event_hubs_go.Eph.Memory.Leaser.{
  MemoryLeaser, take_ownership, publish, ensure_lease, delete_lease, renew_lease, release_lease,
  update_lease,
}
use azure_event_hubs_go.Eph.Memory.Checkpointer.{ensure_checkpoint, set_checkpoint}

-- Where a host is in a call of AcquireLease: it has read the lease; it has tested it; it has its
-- new token, the one of the number n, in the store.
pub data Progress (C : Type 0) : Type 0 where
  idle : Progress C
  read : String → MemoryLease C → Progress C
  tested : String → MemoryLease C → Bool → Progress C
  seized : String → MemoryLease C → ℕ → Progress C

-- `drawn` counts the calls of uuid.NewV4, and `drawer` says which host made each.
pub record System (C : Type 0) : Type 0 where
  pub store : SharedStore C
  pub host : ℕ → MemoryLeaser C
  pub progress : ℕ → Progress C
  pub drawn : ℕ
  pub drawer : ℕ → ℕ

unfoldable pub update : {A : Type 0} → (ℕ → A) → ℕ → A → ℕ → A
update f i a j = ite (ℕ_discrete i j) a (f j)

-- To prove a fact of an updated function, prove it of the new value and of the old ones.
pub update-cases {ℓ} :
    {A : Type 0} (P : A → Type ℓ) (f : ℕ → A) (i : ℕ) (a : A) (j : ℕ)
    → (i ≡ j → P a)
    → (i ≢ j → P (f j))
    → P (update f i a j)
unfolding update
update-cases P f i a j new old = elim (ℕ_discrete i j) [
  | yes e ↦ rw (if_pos _ e) (new e)
  | no e ↦ rw (if_neg _ e) (old e)
]

module _ {C : Type 0} where
  -- The leaser of a host, at the store that all share.
  abbrev pub leaser : System C → ℕ → MemoryLeaser C
  leaser s i = record (s.host i) { store = s.store }

  abbrev pub commit : System C → ℕ → MemoryLeaser C → System C
  commit s i ml = record s { store = ml.store; host = update s.host i ml }

  abbrev pub go_on : System C → ℕ → Progress C → System C
  go_on s i g = record s { progress = update s.progress i g }

  -- The critical section of changeLease or of acquireLease, by what isLeased has said.
  abbrev pub swap_token :
      String → String → MemoryLease C → Bool → ℕ → ℕ → MemoryLeaser C → SharedStore C × Bool
  swap_token p new l leased again now ml =
      if leased
      then Store.change_lease p new l.token ml.lease_duration now ml.store
      else Store.acquire_lease p new ml.lease_duration again now ml.store

  abbrev pub after_swap : String → MemoryLease C → ℕ → Bool → Progress C
  after_swap p l n done = if done then seized p l n else idle

  abbrev pub seize_by : String → System C → ℕ → String → MemoryLease C → Bool → ℕ → ℕ → System C
  seize_by new s i p l leased again now =
      let r = swap_token p new l leased again now (leaser s i) in
      record s {
        store = r.0;
        progress = update s.progress i (after_swap p l s.drawn r.1);
        drawn = s.drawn + 1;
        drawer = update s.drawer s.drawn i;
      }

-- uuid n is the token that the nth call of uuid.NewV4 returns. The name under which a host publishes
-- is left open.
module _ {C : Type 0} (uuid : ℕ → String) where
  pub data Step (s : System C) : System C → Type 0 where
    reads :
        (i : ℕ) (p : String) (l : MemoryLease C)
        → s.progress i ≡ idle
        → Store.get_lease p s.store ≡ some l
        → Step s (go_on s i (read p l))
    tests :
        (i : ℕ) (p : String) (l : MemoryLease C) (now : ℕ)
        → s.progress i ≡ read p l
        → Step s (go_on s i (tested p l (Store.is_leased p now s.store)))
    seizes :
        (i : ℕ) (p : String) (l : MemoryLease C) (leased : Bool) (again now : ℕ)
        → s.progress i ≡ tested p l leased
        → Step s (seize_by (uuid s.drawn) s i p l leased again now)
    publishes :
        (i : ℕ) (p : String) (l : MemoryLease C) (n : ℕ) (name : String)
        → s.progress i ≡ seized p l n
        → Step s (
            go_on
              (commit s i (publish p (uuid n) (take_ownership (uuid n) name l) (leaser s i)).1)
              i
              idle)
    renews : (i : ℕ) (p : String) (now : ℕ) → Step s (commit s i (renew_lease p now (leaser s i)).1)
    releases :
        (i : ℕ) (p : String) (now : ℕ) → Step s (commit s i (release_lease p now (leaser s i)).1)
    updates :
        (i : ℕ) (p : String) (now : ℕ) → Step s (commit s i (update_lease p now (leaser s i)).1)
    ensures : (i : ℕ) (p : String) → Step s (commit s i (ensure_lease p (leaser s i)).1)
    deletes : (i : ℕ) (p : String) → Step s (commit s i (delete_lease p (leaser s i)))
    ensures_checkpoint :
        (i : ℕ) (p : String) (start_of_stream : C)
        → Step s (commit s i (ensure_checkpoint start_of_stream p (leaser s i)).1)
    sets_checkpoint :
        (i : ℕ) (p : String) (c : C) (refused : String)
        → Step s (commit s i (set_checkpoint p c refused (leaser s i)).1)

  pub data Reach (s : System C) : System C → Type 0 where
    here : Reach s s
    next : {t u : System C} → Reach s t → Step t u → Reach s u
