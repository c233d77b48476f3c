-- ===== src/Eph/Scheduler/Receivers.antt =====
-- eph/leasedReceiver.go and the receivers of eph/scheduler.go. A leasedReceiver is a pointer; `id`
-- tells those pointers apart. `renewing` lists the receivers whose renewal goroutine runs, `ready`
-- those whose goroutine has set lr.done; Close before that does not end the renewal. Spans and logs
-- are left out.
use azure_event_hubs_go.Base.{
  ℕ, suc, String, Bool, true, false, Option, none, some, List, [], ◌∷◌, if◌then◌else◌, num_eq,
}
use azure_event_hubs_go.Go.{Error, errors_new, Result, ok, err}
use azure_event_hubs_go.Dict.{Dict, lookup, insert, delete, keys}
use azure_event_hubs_go.Eph.Lease.{Lease}
use azure_event_hubs_go.Eph.Scheduler.Services.{Leaser, Client, got, refused, broken}

pub record LeasedReceiver (H : Type 0) : Type 0 where
  pub id : ℕ
  pub lease : Lease
  pub handle : Option H

-- The scheduler with the world that it acts on, and the number of receivers made so far.
pub record Scheduler (H W : Type 0) : Type 0 where
  pub world : W
  pub receivers : Dict (LeasedReceiver H)
  pub renewing : List ℕ
  pub ready : List ℕ
  pub made : ℕ
  -- whether the loop of Run goes on
  pub running : Bool
  -- whether Run has set s.done
  pub has_done : Bool

abbrev pub without : ℕ → List ℕ → List ℕ
without n [] = []
without n (m ∷ ms) = if num_eq m n then without n ms else m ∷ without n ms

abbrev pub has : ℕ → List ℕ → Bool
has n [] = false
has n (m ∷ ms) = if num_eq m n then true else has n ms

-- lr.done(), where lr.done is not nil.
abbrev pub end_renewal : ℕ → List ℕ → List ℕ → List ℕ
end_renewal n ready ms = if has n ready then without n ms else ms

unfoldable pub new_leased_receiver : {H : Type 0} → ℕ → Lease → LeasedReceiver H
new_leased_receiver n l = record { id = n; lease = l; handle = none }

unfoldable pub new_scheduler : {H W : Type 0} → W → Scheduler H W
new_scheduler w = record {
  world = w;
  receivers = [];
  renewing = [];
  ready = [];
  made = 0;
  running = false;
  has_done = false;
}

module _ {H W : Type 0} (leaser : Leaser W) (client : Client H W) where
  -- leasedReceiver.Close
  unfoldable pub close : LeasedReceiver H → Scheduler H W → Option Error × Scheduler H W
  close lr s =
      let s' = record s { renewing = end_renewal lr.id s.ready s.renewing } in
      elim lr.handle [
        | none ↦ (none, s')
        | some h ↦ let (e, w) = client.close h s'.world in (e, record s' { world = w })
      ]

  -- leasedReceiver.Run, whose goroutine sets lr.done later: `start_renewal`.
  unfoldable pub run : LeasedReceiver H → Scheduler H W → Result (LeasedReceiver H) × Scheduler H W
  run lr s =
      let (r, w) = client.receive lr.lease.partition_id lr.lease.epoch s.world in
      let s' = record s { renewing = lr.id ∷ s.renewing; world = w } in
      elim r [ err e ↦ (err e, s') | ok h ↦ (ok (record lr { handle = some h }), s') ]

  unfoldable pub start_renewal : ℕ → Scheduler H W → Scheduler H W
  start_renewal n s = record s { ready = n ∷ s.ready }

  -- startReceiver: a receiver that is there already is closed and taken out.
  unfoldable pub evict : String → Scheduler H W → Scheduler H W
  unfolding close
  evict p s = elim (lookup p s.receivers) [
    | none ↦ s
    | some r ↦ let (_, s') = close r s in record s' { receivers = delete p s'.receivers }
  ]

  unfoldable pub start_receiver : Lease → Scheduler H W → Option Error × Scheduler H W
  unfolding run new_leased_receiver
  start_receiver l s =
      let s' = evict l.partition_id s in
      let (r, s'') = run (new_leased_receiver s'.made l) (record s' { made = suc s'.made }) in
      elim r [
        | err e ↦ (some e, s'')
        | ok lr ↦ (none, record s'' { receivers = insert l.partition_id lr s''.receivers })
      ]

  unfoldable pub stop_receiver : Lease → Scheduler H W → Option Error × Scheduler H W
  unfolding close
  stop_receiver l s = elim (lookup l.partition_id s.receivers) [
    | none ↦ (none, s)
    | some r ↦
        let released = record s { world = leaser.release_lease l.partition_id s.world } in
        let (e, s') = close r released in
        (e, record s' { receivers = delete l.partition_id s'.receivers })
  ]

  -- lr.lease = lease, through the pointer: the map shows it if it holds this receiver.
  unfoldable pub set_lease :
      LeasedReceiver H → Lease → Scheduler H W → LeasedReceiver H × Scheduler H W
  set_lease lr l s =
      let lr' = record lr { lease = l } in
      elim (lookup lr.lease.partition_id s.receivers) [
        | none ↦ (lr', s)
        | some r ↦
            if num_eq r.id lr.id
            then (lr', record s { receivers = insert lr.lease.partition_id lr' s.receivers })
            else (lr', s)
      ]

  unfoldable pub try_renew :
      LeasedReceiver H → Scheduler H W → Option Error × (LeasedReceiver H × Scheduler H W)
  unfolding set_lease
  try_renew lr s =
      let (attempt, w) = leaser.renew_lease lr.lease.partition_id s.world in
      let s' = record s { world = w } in
      elim attempt [
        | broken e ↦ (some e, (lr, s'))
        | refused ↦ (some (errors_new "can't renew lease"), (lr, s'))
        | got l ↦ (none, set_lease lr l s')
      ]

  -- One round of periodicallyRenewLease, after its sleep.
  unfoldable pub renew_round : LeasedReceiver H → Scheduler H W → LeasedReceiver H × Scheduler H W
  unfolding try_renew stop_receiver
  renew_round lr s =
      let (e, (lr', s')) = try_renew lr s in
      elim e [ none ↦ (lr', s') | some x ↦ let (_, s'') = stop_receiver lr'.lease s' in (lr', s'') ]

  -- The loop of Stop over the receivers in the order in which Go ranges over the map.
  unfoldable pub close_all :
      Option Error → Dict (LeasedReceiver H) → Scheduler H W → Option Error × Scheduler H W
  close_all last_err [] s = (last_err, s)
  close_all last_err ((p, lr) ∷ m) s =
      let (e, s') = close lr s in
      close_all (elim e [ none ↦ last_err | some x ↦ some x ]) m
        (record s' { world = leaser.release_lease lr.lease.partition_id s'.world })

  unfoldable pub stop :
      (Dict (LeasedReceiver H) → Dict (LeasedReceiver H))
      → Scheduler H W
      → Option Error × Scheduler H W
  unfolding close_all
  stop range s =
      close_all none (range s.receivers)
        (record s { running = if s.has_done then false else s.running })

unfoldable pub partition_ids_being_processed : {H W : Type 0} → Scheduler H W → List String
partition_ids_being_processed s = keys s.receivers
