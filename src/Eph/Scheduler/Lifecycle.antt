-- ===== src/Eph/Scheduler/Lifecycle.antt =====
-- What starting and stopping a receiver of eph/scheduler.go does to the scheduler's bookkeeping.
use azure_event_hubs_go.Base.{
  ℕ, String, ◌≡◌, ◌≢◌, refl, sym, true, ◌⊎◌, inl, inr, false, Option, none, some, List, [], ◌∷◌,
  arith, ◌==◌, eq_iff, if◌then◌else◌, Option-cases, Memᴰ, ◌∙◌, Bool-cases, ap, subst, num_eq,
}
use mathlib.Core.List.Memᴰ.{cases_cons}
use azure_event_hubs_go.Dict.Entries.{mem-lookup}
use azure_event_hubs_go.Go.{Error, Result-cases}
use azure_event_hubs_go.Dict.{Dict, lookup, lookup-insert, lookup-delete}
use azure_event_hubs_go.Eph.Lease.{Lease}
use azure_event_hubs_go.Eph.Scheduler.Services.{Leaser, Client}
use azure_event_hubs_go.Eph.Scheduler.Receivers.{
  LeasedReceiver, Scheduler, close, evict, start_receiver, stop_receiver, close_all, stop, without,
  has, end_renewal,
}

mem-without : (n k : ℕ) (ms : List ℕ) → Memᴰ n (without k ms) → Memᴰ n ms × (n ≢ k)
mem-without n k [] i = elim i [ ]
mem-without n k (m ∷ ms) i = elim (Bool-cases (num_eq m k)) [
  | inl e ↦ let (j, other) = mem-without n k ms (rw e at i) in (Memᴰ.tail j, other)
  | inr e ↦ elim (cases_cons (rw e at i)) [
    | inl same ↦ (Memᴰ.head same, ground arith)
    | inr j ↦ let (j', other) = mem-without n k ms j in (Memᴰ.tail j', other)
  ]
]

mem-end_renewal : (n k : ℕ) (ready ms : List ℕ) → Memᴰ n (end_renewal k ready ms) → Memᴰ n ms
mem-end_renewal n k ready ms i = elim (Bool-cases (has k ready)) [
  | inl e ↦ (mem-without n k ms (rw e at i)).0
  | inr e ↦ rw e at i
]

end_renewal-out :
    (n : ℕ) (ready ms : List ℕ) → has n ready ≡ true → ¬ Memᴰ n (end_renewal n ready ms)
end_renewal-out n ready ms e i = (mem-without n n ms (rw e at i)).1 refl

module _ {H W : Type 0} (leaser : Leaser W) (client : Client H W) where
  evict-receivers :
      (p q : String) (s : Scheduler H W)
      → lookup q (evict leaser client p s).receivers
        ≡ (if p == q then none else lookup q s.receivers)
  unfolding evict
  evict-receivers p q s = elim (Option-cases (lookup p s.receivers)) [
    | inl e ↦ ground (arith, eq_iff p q)
    | inr (r, e) ↦ elim (Option-cases r.handle) [
      | inl n ↦ ground (arith, lookup-delete p q s.receivers)
      | inr (h, n) ↦ ground (arith, lookup-delete p q s.receivers)
    ]
  ]

  -- startReceiver, on both of its branches: with a handle there is one receiver of the partition,
  -- the new one; without, there is none, and yet the renewal of the new one has begun, here as
  -- there. The receivers of other partitions stay.
  pub start_receiver-cases :
      (l : Lease) (s : Scheduler H W) (q : String)
      → let (e, s') = start_receiver leaser client l s in
        let n = (evict leaser client l.partition_id s).made in
        ((e ≡ none)
            × ((h : H) × (lookup q s'.receivers ≡ (
                  if l.partition_id == q
                  then some (record { id = n; lease = l; handle = some h })
                  else lookup q s.receivers)))
          ⊎ ((x : Error) × (e ≡ some x)
              × (lookup q s'.receivers
                  ≡ (if l.partition_id == q then none else lookup q s.receivers))))
        × (s'.renewing ≡ n ∷ (evict leaser client l.partition_id s).renewing)
  unfolding start_receiver
  start_receiver-cases l s q =
      let s' = evict leaser client l.partition_id s in
      let r = (client.receive l.partition_id l.epoch s'.world).0 in
      elim (Result-cases r) [
        | inl (h, e) ↦
            let lr : LeasedReceiver H = record { id = s'.made; lease = l; handle = some h } in
            (
              inl (
                ground arith,
                (
                  h,
                  ground (
                    arith,
                    evict-receivers l.partition_id q s,
                    lookup-insert l.partition_id q lr s'.receivers,
                  ),
                ),
              ),
              ground arith,
            )
        | inr (x, e) ↦ (
          inr (x, ground arith, ground (arith, evict-receivers l.partition_id q s)),
          ground arith,
        )
      ]

  -- If the partition has a receiver, stopReceiver takes it out and, if its goroutine has set
  -- lr.done, ends its renewal, whatever its Close returns, and leaves the receivers of other
  -- partitions.
  pub stop_receiver_lem :
      (l : Lease) (s : Scheduler H W) (r : LeasedReceiver H) (q : String)
      → lookup l.partition_id s.receivers ≡ some r
      → let s' = (stop_receiver leaser client l s).1 in
        (lookup q s'.receivers ≡ (if l.partition_id == q then none else lookup q s.receivers))
        × (s'.renewing ≡ end_renewal r.id s.ready s.renewing)
  unfolding stop_receiver
  stop_receiver_lem l s r q held = elim (Option-cases r.handle) [
    | inl n ↦ ground (arith, lookup-delete l.partition_id q s.receivers)
    | inr (h, n) ↦ ground (arith, lookup-delete l.partition_id q s.receivers)
  ]

  close-renewing :
      (lr : LeasedReceiver H) (s : Scheduler H W)
      → (close leaser client lr s).1.renewing ≡ end_renewal lr.id s.ready s.renewing
  unfolding close
  close-renewing lr s = ground arith

  close-ready :
      (lr : LeasedReceiver H) (s : Scheduler H W) → (close leaser client lr s).1.ready ≡ s.ready
  unfolding close
  close-ready lr s = ground arith

  abbrev after_close : LeasedReceiver H → Scheduler H W → Scheduler H W
  after_close lr s =
      let s' = (close leaser client lr s).1 in
      record s' { world = leaser.release_lease lr.lease.partition_id s'.world }

  abbrev after_error : Option Error → LeasedReceiver H → Scheduler H W → Option Error
  after_error last lr s = elim (close leaser client lr s).0 [ none ↦ last | some x ↦ some x ]

  close_all-keeps_out :
      (n : ℕ) (last : Option Error) (m : Dict (LeasedReceiver H)) (s : Scheduler H W)
      → ¬ Memᴰ n s.renewing
      → ¬ Memᴰ n (close_all leaser client last m s).1.renewing
  unfolding close_all
  close_all-keeps_out n last [] s out = out
  close_all-keeps_out n last ((p, lr) ∷ m) s out =
      close_all-keeps_out n (after_error last lr s) m (after_close lr s)
        (λ i. out (mem-end_renewal n lr.id s.ready s.renewing (rw close-renewing at i)))

  close_all-running :
      (last : Option Error) (m : Dict (LeasedReceiver H)) (s : Scheduler H W)
      → (close_all leaser client last m s).1.running ≡ s.running
  unfolding close_all
  close_all-running last [] s = refl
  close_all-running last ((p, lr) ∷ m) s =
      close_all-running (after_error last lr s) m (after_close lr s) ∙ unfold close in ground arith

  abbrev stopped : Scheduler H W → Scheduler H W
  stopped s = record s { running = if s.has_done then false else s.running }

  pub stop-running :
      (range : Dict (LeasedReceiver H) → Dict (LeasedReceiver H)) (s : Scheduler H W)
      → s.has_done ≡ true
      → (stop leaser client range s).1.running ≡ false
  unfolding stop
  stop-running range s set = close_all-running none (range s.receivers) (stopped s) ∙ rw set refl

  close_all-ends :
      (last : Option Error) (m : Dict (LeasedReceiver H)) (s : Scheduler H W) (p : String)
      (lr : LeasedReceiver H)
      → Memᴰ (p, lr) m
      → has lr.id s.ready ≡ true
      → ¬ Memᴰ lr.id (close_all leaser client last m s).1.renewing
  unfolding close_all
  close_all-ends last [] s p lr i ready = elim i [ ]
  close_all-ends last ((q, r) ∷ m) s p lr (Memᴰ.tail i) ready =
      close_all-ends (after_error last r s) m (after_close r s) p lr i (rw close-ready ready)
  close_all-ends last ((q, r) ∷ m) s p lr (Memᴰ.head e) ready =
      close_all-keeps_out lr.id (after_error last r s) m (after_close r s) (λ i.
        let same = ap (λ (x : String × LeasedReceiver H). x.1.id) e in
        let out =
          end_renewal-out r.id s.ready s.renewing (subst (λ n. has n s.ready ≡ true) same ready) in
        subst (λ n. ¬ Memᴰ n (end_renewal r.id s.ready s.renewing)) (sym same) out
          (rw close-renewing at i))

  -- If the range over the receivers meets each of them and Run has set s.done, then after Stop, in
  -- whatever order and whatever errors their handles return, no receiver of the scheduler whose
  -- goroutine has set lr.done renews its lease any more, and Run ends.
  pub stop-ends :
      (range : Dict (LeasedReceiver H) → Dict (LeasedReceiver H)) (s : Scheduler H W) (p : String)
      (lr : LeasedReceiver H)
      → ((x : String × LeasedReceiver H) → Memᴰ x s.receivers → Memᴰ x (range s.receivers))
      → lookup p s.receivers ≡ some lr
      → s.has_done ≡ true
      → has lr.id s.ready ≡ true
      → let s' = (stop leaser client range s).1 in (¬ Memᴰ lr.id s'.renewing) × (s'.running ≡ false)
  unfolding stop
  stop-ends range s p lr all held set ready = (
    close_all-ends none (range s.receivers) (stopped s) p lr
        (all (p, lr) (mem-lookup p lr s.receivers held)) ready,
    stop-running range s set,
  )
