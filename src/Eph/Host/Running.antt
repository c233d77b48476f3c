-- ===== src/Eph/Host/Running.antt =====
-- eph/eph.go: setting up, starting and closing a host.
use azure_event_hubs_go.Base.{String, true, Option, none, some, List, [], ◌∷◌}
use azure_event_hubs_go.Go.{Outcome, returned, panicked, Error, errors_new, Result, ok, err, ◌>>◌}
use azure_event_hubs_go.Dict.{delete}
use azure_event_hubs_go.Event.{then_outcome}
use azure_event_hubs_go.Eph.Host.{Checkpointer, Leaser, Scheduling, EventProcessorHost}

abbrev pub no_handlers : Error
no_handlers =
    errors_new "no handlers have been registered; call RegisterHandler to setup an event handler"

module _ {C W : Type 0} (leaser : Leaser W) (checkpointer : Checkpointer C W) where
  -- The loop of setup over the partitions that are left.
  unfoldable pub ensure_all : List String → W → Outcome (Unit {0}) × W
  ensure_all [] w = (returned tt, w)
  ensure_all (p ∷ ps) w =
      let (o, w1) = leaser.ensure_lease p w in
      elim o [
        | panicked ↦ (panicked, w1)
        | returned u ↦
            let (c, w2) = checkpointer.ensure_checkpoint p w1 in
            elim c [ panicked ↦ (panicked, w2) | returned d ↦ ensure_all ps w2 ]
      ]

module _ {C F H P Q W : Type 0} (leaser : Leaser W) (checkpointer : Checkpointer C W)
    (scheduling : Scheduling Q W) (close_client : H → W → Option Error × (H × W)) where
  unfoldable pub setup :
      EventProcessorHost F H P Q W → Outcome (Result (Unit {0})) × EventProcessorHost F H P Q W
  unfolding ensure_all
  setup h = elim h.scheduler [
    | some s ↦ (returned (ok tt), h)
    | none ↦
        let w =
          checkpointer.set_event_host_processor h.name h.partition_ids
            (leaser.set_event_host_processor h.name h.partition_ids h.world) in
        let (stored, w1) = (leaser.ensure_store >> checkpointer.ensure_store) w in
        elim stored [
          | err e ↦ (returned (err e), record h { world = w1 })
          | ok u ↦
              let (o, w2) = ensure_all leaser checkpointer h.partition_ids w1 in
              elim o [
                | panicked ↦ (panicked, record h { world = w2 })
                | returned u' ↦ (
                  returned (ok tt),
                  record h { scheduler = some (scheduling.new_scheduler h.name); world = w2 },
                )
              ]
        ]
  ]

  -- h.client.Close; a nil client panics.
  abbrev pub close_hub :
      EventProcessorHost F H P Q W → Outcome (Option Error) × EventProcessorHost F H P Q W
  close_hub h = elim h.client [
    | none ↦ (panicked, h)
    | some k ↦
        let (e, (k', w)) = close_client k h.world in
        (returned e, record h { client = some k'; world = w })
  ]

  -- Close; the leaser and the checkpointer are not nil.
  unfoldable pub close :
      EventProcessorHost F H P Q W → Outcome (Option Error) × EventProcessorHost F H P Q W
  close h =
      let finish = λ (g : EventProcessorHost F H P Q W).
        close_hub (record g { world = checkpointer.close (leaser.close g.world) }) in
      elim h.scheduler [
        | none ↦ finish h
        | some s ↦
            let (e, (s', w)) = scheduling.stop s h.world in
            let h' = record h { scheduler = some s'; world = w } in
            elim e [
              | none ↦ finish h'
              | some x ↦ elim h'.client [
                | none ↦ (returned (some x), h')
                | some k ↦ (returned (some x), (close_hub h').1)
              ]
            ]
      ]

  unfoldable pub unregister_handler :
      String → EventProcessorHost F H P Q W → Outcome (Unit {0}) × EventProcessorHost F H P Q W
  unfolding close
  unregister_handler id h =
      let rest = delete id h.handlers in
      let h' = record h { handlers = rest } in
      elim rest [
        | x ∷ xs ↦ (returned tt, h')
        | [] ↦ let (o, h'') = close h' in (then_outcome o (λ _. returned tt), h'')
      ]

  unfoldable pub start_non_blocking :
      EventProcessorHost F H P Q W → Outcome (Result (Unit {0})) × EventProcessorHost F H P Q W
  unfolding setup
  start_non_blocking h =
      let (o, h') = setup h in
      elim o [
        | panicked ↦ (panicked, h')
        | returned r ↦ elim r [
          | err e ↦ (returned (err e), h')
          | ok u ↦ (returned (ok tt), record h' { started = true })
        ]
      ]

  -- `wait` is what happens until the signal to quit arrives.
  unfoldable pub start :
      (EventProcessorHost F H P Q W → EventProcessorHost F H P Q W)
      → EventProcessorHost F H P Q W
      → Outcome (Option Error) × EventProcessorHost F H P Q W
  unfolding start_non_blocking close
  start wait h = elim h.handlers [
    | [] ↦ (returned (some no_handlers), h)
    | f ∷ fs ↦
        let (o, h') = start_non_blocking h in
        elim o [
          | panicked ↦ (panicked, h')
          | returned r ↦ elim r [ err e ↦ (returned (some e), h') | ok u ↦ close (wait h') ]
        ]
  ]

  -- PartitionIDsBeingProcessed panics before the host has a scheduler.
  unfoldable pub partition_ids_being_processed :
      EventProcessorHost F H P Q W → Outcome (List String)
  partition_ids_being_processed h = elim h.scheduler [
    | none ↦ panicked
    | some s ↦ returned (scheduling.get_partition_ids s)
  ]
