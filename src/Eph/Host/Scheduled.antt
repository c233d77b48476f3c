-- ===== src/Eph/Host/Scheduled.antt =====
-- The scheduler of eph/scheduler.go as the scheduler of a host, and what Close of a host does to it.
use azure_event_hubs_go.Base.{
  String, ◌≡◌, true, false, Option, some, arith, inl, inr, Memᴰ, Option-cases,
}
use azure_event_hubs_go.Go.{Error}
use azure_event_hubs_go.Dict.{Dict, lookup}
use azure_event_hubs_go.Eph.Scheduler.Services
use azure_event_hubs_go.Eph.Scheduler.Receivers.{
  Scheduler, LeasedReceiver, has, new_scheduler, stop, partition_ids_being_processed,
}
use azure_event_hubs_go.Eph.Scheduler.Lifecycle.{stop-ends}
use azure_event_hubs_go.Eph.Host.{Checkpointer, Leaser, Scheduling, EventProcessorHost}
use azure_event_hubs_go.Eph.Host.Running.{close}

module _ {R W : Type 0} where
  -- A scheduler in the world, and without it.
  abbrev pub scheduler_in : W → Scheduler R (Unit {0}) → Scheduler R W
  scheduler_in w s = record {
    world = w;
    receivers = s.receivers;
    renewing = s.renewing;
    ready = s.ready;
    made = s.made;
    running = s.running;
    has_done = s.has_done;
  }

  abbrev pub scheduler_alone : Scheduler R W → Scheduler R (Unit {0})
  scheduler_alone s = record {
    world = tt;
    receivers = s.receivers;
    renewing = s.renewing;
    ready = s.ready;
    made = s.made;
    running = s.running;
    has_done = s.has_done;
  }

module _ {R W : Type 0} (services : Services.Leaser W) (client : Services.Client R W)
    (range : Dict (LeasedReceiver R) → Dict (LeasedReceiver R)) where
  unfoldable pub scheduling : Scheduling (Scheduler R (Unit {0})) W
  unfolding new_scheduler stop partition_ids_being_processed
  scheduling = record {
    new_scheduler = λ name. new_scheduler tt;
    stop = λ s w.
        let (e, s') = stop services client range (scheduler_in w s) in
        (e, (scheduler_alone s', s'.world));
    get_partition_ids = λ s. partition_ids_being_processed s;
  }

  module _ {C F H P : Type 0} (leaser : Leaser W) (checkpointer : Checkpointer C W)
      (close_client : H → W → Option Error × (H × W)) where
    -- Where Run has set s.done and the goroutine of a receiver of the scheduler has set its
    -- lr.done, Close of the host ends the loop of the scheduler and the renewal of that receiver's
    -- lease, in whatever order Go ranges over the receivers, also where closing a receiver fails
    -- and Close returns its error, and whatever closing the hub does.
    pub close-stops :
        (h : EventProcessorHost F H P (Scheduler R (Unit {0})) W) (s : Scheduler R (Unit {0}))
        (p : String) (lr : LeasedReceiver R)
        → h.scheduler ≡ some s
        → ((x : String × LeasedReceiver R) → Memᴰ x s.receivers → Memᴰ x (range s.receivers))
        → lookup p s.receivers ≡ some lr
        → s.has_done ≡ true
        → has lr.id s.ready ≡ true
        → (s' : Scheduler R (Unit {0})) × ((close leaser checkpointer scheduling close_client
              h).1.scheduler
            ≡ some s')
          × (¬ Memᴰ lr.id s'.renewing)
          × (s'.running ≡ false)
    unfolding close scheduling
    close-stops h s p lr e all held set ready =
        let t = (stop services client range (scheduler_in h.world s)).1 in
        let (out, off) =
          stop-ends services client range (scheduler_in h.world s) p lr all held set ready in
        let kept : (close leaser checkpointer scheduling close_client h).1.scheduler
            ≡ some (scheduler_alone t) =
          elim (Option-cases (stop services client range (scheduler_in h.world s)).0) [
            | inl n ↦ elim (Option-cases h.client) [
              | inl m ↦ ground arith
              | inr (k, m) ↦ ground arith
            ]
            | inr (x, n) ↦ elim (Option-cases h.client) [
              | inl m ↦ ground arith
              | inr (k, m) ↦ ground arith
            ]
          ] in
        (scheduler_alone t, kept, out, off)
