-- ===== src/Eph/Scheduler/Served.antt =====
-- The operations of eph/scheduler.go keep the receivers of the scheduler in order.
use azure_event_hubs_go.Base.{
  suc, String, ◌≡◌, refl, inl, inr, some, ◌∷◌, arith, Option-cases, Memᴰ, Bool-cases, num_eq, subst,
  sym,
}
use azure_event_hubs_go.Go.{Result-cases}
use azure_event_hubs_go.Dict.{lookup, insert, delete}
use azure_event_hubs_go.Eph.Lease.{Lease}
use azure_event_hubs_go.Eph.Scheduler.Services.{Leaser, Client, got, Attempt-cases}
use azure_event_hubs_go.Eph.Scheduler.Receivers.{
  LeasedReceiver, Scheduler, close, evict, start_receiver, stop_receiver, set_lease, try_renew,
  renew_round, end_renewal, run, new_leased_receiver,
}
use azure_event_hubs_go.Eph.Scheduler.Serving.{
  IsServing, IsServing-suc, IsServing-delete, IsServing-insert,
}

module _ {H W : Type 0} where
  abbrev pub Serves : Scheduler H W → Type 0
  Serves s = IsServing s.receivers s.renewing s.made

  -- What the pointer to a receiver reads, while the map holds that receiver, is what the map
  -- holds.
  abbrev pub Current : LeasedReceiver H → Scheduler H W → Type 0
  Current lr s =
      (r : LeasedReceiver H)
      → lookup lr.lease.partition_id s.receivers ≡ some r
      → r.id ≡ lr.id
      → r ≡ lr

  pub carry : (s t : Scheduler H W) → Serves s → s ≡ t → Serves t
  carry s t i e = subst Serves e i

module _ {H W : Type 0} (leaser : Leaser W) (client : Client H W) where
  evict-Serves : (p : String) (s : Scheduler H W) → Serves s → Serves (evict leaser client p s)
  unfolding evict close
  evict-Serves p s i = elim (Option-cases (lookup p s.receivers)) [
    | inl e ↦ carry s (evict leaser client p s) i (ground arith)
    | inr (r, e) ↦
        let (h, e') = i.handled p r e in
        let after : Scheduler H W = record s {
          receivers = delete p s.receivers;
          renewing = end_renewal r.id s.ready s.renewing;
          world = (client.close h s.world).1;
        } in
        let same : after ≡ evict leaser client p s = ground arith in
        subst Serves same (IsServing-delete s.receivers s.ready s.renewing s.made p r i e)
  ]

  pub start_receiver-Serves :
      (l : Lease) (s : Scheduler H W) → Serves s → Serves (start_receiver leaser client l s).1
  unfolding start_receiver run new_leased_receiver
  start_receiver-Serves l s i =
      let p = l.partition_id in
      let s' = evict leaser client p s in
      let i' = evict-Serves p s i in
      let (r, w) = client.receive p l.epoch s'.world in
      let next = IsServing-suc s'.receivers s'.renewing s'.made s'.made i' in
      let begun : Scheduler H W = record s' {
        made = suc s'.made;
        renewing = s'.made ∷ s'.renewing;
        world = w;
      } in
      elim (Result-cases r) [
        | inr (x, e) ↦
            let same : begun ≡ (start_receiver leaser client l s).1 = ground arith in
            subst Serves same next
        | inl (h, e) ↦
            let lr : LeasedReceiver H = record { id = s'.made; lease = l; handle = some h } in
            let same : record begun { receivers = insert p lr s'.receivers }
                ≡ (start_receiver leaser client l s).1 =
              ground arith in
            subst Serves same (
              IsServing-insert s'.receivers begun.renewing begun.made p lr h next refl refl
                (omega arith) (Memᴰ.head refl)
                (λ q r' at clash. let b = i'.numbered q r' at in absurd (omega arith)))
      ]

  pub stop_receiver-Serves :
      (l : Lease) (s : Scheduler H W) → Serves s → Serves (stop_receiver leaser client l s).1
  unfolding stop_receiver close
  stop_receiver-Serves l s i = elim (Option-cases (lookup l.partition_id s.receivers)) [
    | inl e ↦ carry s (stop_receiver leaser client l s).1 i (ground arith)
    | inr (r, e) ↦
        let p = l.partition_id in
        let (h, e') = i.handled p r e in
        let after : Scheduler H W = record s {
          receivers = delete p s.receivers;
          renewing = end_renewal r.id s.ready s.renewing;
          world = (client.close h (leaser.release_lease p s.world)).1;
        } in
        let same : after ≡ (stop_receiver leaser client l s).1 = ground arith in
        subst Serves same (IsServing-delete s.receivers s.ready s.renewing s.made p r i e)
  ]

  set_lease-Serves :
      (lr : LeasedReceiver H) (l : Lease) (s : Scheduler H W)
      → Serves s
      → Current lr s
      → l.partition_id ≡ lr.lease.partition_id
      → Serves (set_lease leaser client lr l s).1
  unfolding set_lease
  set_lease-Serves lr l s i current key =
      elim (Option-cases (lookup lr.lease.partition_id s.receivers)) [
        | inl e ↦ carry s (set_lease leaser client lr l s).1 i (ground arith)
        | inr (r, e) ↦ elim (Bool-cases (num_eq r.id lr.id)) [
          | inr n ↦ carry s (set_lease leaser client lr l s).1 i (ground arith)
          | inl n ↦
              let p = lr.lease.partition_id in
              let is = current r e (ground arith) in
              let e' = subst (λ x. lookup p s.receivers ≡ some x) is e in
              let lr' : LeasedReceiver H = record lr { lease = l } in
              let same : record s { receivers = insert p lr' s.receivers }
                  ≡ (set_lease leaser client lr l s).1 =
                ground arith in
              let (h, handle) = i.handled p lr e' in
              subst Serves same (
                IsServing-insert s.receivers s.renewing s.made p lr' h i key handle
                  (i.numbered p lr e') (i.renewed p lr e')
                  (λ q r' at clash. i.distinct p q lr r' e' at (sym clash)))
        ]
      ]

  -- The leaser renews the lease of the partition that it is asked for.
  abbrev pub Renews : Type 0
  Renews =
      (p : String) (w : W) (l : Lease) → (leaser.renew_lease p w).0 ≡ got l → l.partition_id ≡ p

  pub renew_round-Serves :
      Renews
      → (lr : LeasedReceiver H) (s : Scheduler H W) → Serves s
      → Current lr s
      → Serves (renew_round leaser client lr s).1
  unfolding renew_round try_renew
  renew_round-Serves renews lr s i current =
      let p = lr.lease.partition_id in
      let (t, w) = leaser.renew_lease p s.world in
      let s' : Scheduler H W = record s { world = w } in
      let stopped = stop_receiver-Serves lr.lease s' i in
      elim (Attempt-cases t) [
        | inl (l, e) ↦
            carry (set_lease leaser client lr l s').1 (renew_round leaser client lr s).1
              (set_lease-Serves lr l s' i current (renews p s.world l e)) (ground arith)
        | inr (inl e) ↦
            carry (stop_receiver leaser client lr.lease s').1 (renew_round leaser client lr s).1
              stopped (ground arith)
        | inr (inr (x, e)) ↦
            carry (stop_receiver leaser client lr.lease s').1 (renew_round leaser client lr s).1
              stopped (ground arith)
      ]
