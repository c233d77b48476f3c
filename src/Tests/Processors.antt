-- ===== src/Tests/Processors.antt =====
-- A host of eph/eph.go over the in-memory leaser.
use azure_event_hubs_go.Base.{
  ℕ, String, ◌≡◌, refl, true, false, Option, none, some, List, [], ◌∷◌, length, Memᴰ, All,
}
use azure_event_hubs_go.Go.{Error, errors_new, ok, returned}
use azure_event_hubs_go.Dict.{lookup}
use azure_event_hubs_go.Eph.Memory.Leaser
use azure_event_hubs_go.Eph.Memory.Leaser.{MemoryLeaser}
use azure_event_hubs_go.Eph.Memory.Store.{MemoryLease}
use azure_event_hubs_go.Eph.Host.{EventProcessorHost, Scheduling}
use azure_event_hubs_go.Eph.Scheduler.Services
use azure_event_hubs_go.Eph.Scheduler.Receivers.{Scheduler, LeasedReceiver}
use azure_event_hubs_go.Eph.Host.Running
use azure_event_hubs_go.Eph.Host.Scheduled.{scheduling as scheduling_by, close-stops}
use azure_event_hubs_go.Eph.Host.InMemory.{memory_leaser, memory_checkpointer}
use azure_event_hubs_go.Eph.Host.Running.{setup}
use azure_event_hubs_go.Eph.Host.Setup.{IsAmong, setup-leases}

abbrev scheduling : Scheduling ℕ (MemoryLeaser ℕ)
scheduling = record {
  new_scheduler = λ n. 0;
  stop = λ s w. (none, (s, w));
  get_partition_ids = λ s. [];
}

abbrev close_client : ℕ → MemoryLeaser ℕ → Option Error × (ℕ × MemoryLeaser ℕ)
close_client k w = (none, (k, w))

abbrev host : EventProcessorHost ℕ ℕ String ℕ (MemoryLeaser ℕ)
host = record {
  namespace = "ns";
  hub_name = "hub";
  name = "host";
  token_provider = "key";
  client = some 1;
  scheduler = none;
  handlers = [];
  partition_ids = "0" ∷ "1" ∷ [];
  no_banner = true;
  env = none;
  started = false;
  world = record {
    store = record { leases = none };
    processor = none;
    lease_duration = 100;
    leases = [];
  };
}

setup-leases_example :
    let (o, h') = setup memory_leaser (memory_checkpointer 0) scheduling close_client host in
    (o ≡ returned (ok tt))
    × (h'.scheduler ≡ some 0)
    × ((ls : List (MemoryLease ℕ)) × ((Leaser.get_leases h'.world).0 ≡ returned ls)
        × (length ls ≡ 2)
        × All (IsAmong h'.world ls) ("0" ∷ "1" ∷ []))
setup-leases_example = setup-leases 0 scheduling close_client host refl

-- The host with a scheduler that has one receiver, whose handle does not close.
abbrev leaser_of_scheduler : Services.Leaser (MemoryLeaser ℕ)
leaser_of_scheduler = record {
  get_leases = λ w. (ok [], w);
  is_expired = λ l w. (true, w);
  acquire_lease = λ p w. (Services.refused, w);
  renew_lease = λ p w. (Services.refused, w);
  release_lease = λ p w. w;
  release_lease_cancelled = λ p w. w;
}

abbrev client_of_scheduler : Services.Client ℕ (MemoryLeaser ℕ)
client_of_scheduler = record {
  receive = λ p n w. (ok 1, w);
  close = λ r w. (some (errors_new "not closed"), w);
}

abbrev leased_receiver : LeasedReceiver ℕ
leased_receiver = record {
  id = 0;
  lease = record { partition_id = "0"; epoch = 1; owner = "host" };
  handle = some 1;
}

abbrev running_scheduler : Scheduler ℕ (Unit {0})
running_scheduler = record {
  world = tt;
  receivers = ("0", leased_receiver) ∷ [];
  renewing = 0 ∷ [];
  ready = 0 ∷ [];
  made = 1;
  running = true;
  has_done = true;
}

abbrev running_host : EventProcessorHost ℕ ℕ String (Scheduler ℕ (Unit {0})) (MemoryLeaser ℕ)
running_host = record {
  namespace = "ns";
  hub_name = "hub";
  name = "host";
  token_provider = "key";
  client = some 1;
  scheduler = some running_scheduler;
  handlers = [];
  partition_ids = "0" ∷ [];
  no_banner = true;
  env = none;
  started = true;
  world = host.world;
}

close-stops_example :
    (s' : Scheduler ℕ (Unit {0})) × ((Running.close memory_leaser
        (memory_checkpointer 0)
        (scheduling_by leaser_of_scheduler client_of_scheduler (λ m. m))
        close_client
        running_host).1.scheduler
      ≡ some s')
    × (¬ Memᴰ 0 s'.renewing)
    × (s'.running ≡ false)
unfolding azure_event_hubs_go.Dict.lookup
close-stops_example =
    close-stops leaser_of_scheduler client_of_scheduler (λ m. m) memory_leaser
      (memory_checkpointer 0) close_client running_host running_scheduler "0" leased_receiver refl
      (λ x i. i) refl refl refl
