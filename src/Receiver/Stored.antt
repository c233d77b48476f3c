-- ===== src/Receiver/Stored.antt =====
-- Which offset the handling of messages leaves in the persister.
use azure_event_hubs_go.Base.{
  true, false, Bool-cases, ◌≡◌, refl, ◌∙◌, ℕ, String, Option, some, List, [], ◌∷◌, arith, inl, inr,
  Bool,
}
use azure_event_hubs_go.Go.{
  Error, Outcome, returned, panicked, ok, err, Outcome-cases, Method, Result,
}
use azure_event_hubs_go.Event.{Message, Event, event_from_msg, get_checkpoint}
use azure_event_hubs_go.Receiver.Handling.{handle_message, handle_messages}
use azure_event_hubs_go.Receiver.{Service, Receiver, store_last_received_offset}

module _ {B T K N L C W : Type 0} (service : Service K N L (Message B T) C W) (zero_time : T)
    (new_checkpoint : String → ℕ → T → C) (handler : Event B T → Method W (Result (Unit {0})))
    (stored : W → Option C) (succeeds : Event B T → Bool) where
  -- `stored` reads what the persister holds under the key of a receiver: the namespace, the hub, its
  -- consumer group and its partition. A write under that key makes it the checkpoint that is
  -- written, of writes under other keys nothing is said, and the other calls leave it; `succeeds`
  -- tells of which events the handler returns no error.
  pub record IsPersister (group partition : String) : Type 0 where
    pub written :
        (c : C) (w : W)
        → stored (service.write service.namespace_name service.hub_name group partition c w).1
          ≡ some c
    pub kept : (m : Message B T) (w : W) → stored (service.accept m w) ≡ stored w
    pub modified : (m : Message B T) (w : W) → stored (service.modify m w) ≡ stored w
    pub handled : (e : Event B T) (w : W) → stored (handler e w).1 ≡ stored w
    pub accepted : (e : Event B T) (w : W) → succeeds e ≡ true → (handler e w).0 ≡ returned (ok tt)
    pub refused :
        (e : Event B T) (w : W)
        → succeeds e ≡ false
        → (x : Error) × ((handler e w).0 ≡ returned (err x))

  -- The checkpoint of the last message whose event the handler accepts, else what there was;
  -- `none` where a message has no event or an annotation of a wrong type.
  abbrev pub last_handled : List (Message B T) → Option C → Outcome (Option C)
  last_handled [] c = returned c
  last_handled (m ∷ ms) c = elim (event_from_msg m) [
    | panicked ↦ panicked
    | returned e ↦ elim (succeeds e) [
      | false ↦ last_handled ms c
      | true ↦ elim (get_checkpoint zero_time new_checkpoint e) [
        | panicked ↦ panicked
        | returned c' ↦ last_handled ms (some c')
      ]
    ]
  ]

  -- If the persister holds what was last written to it under the key of the receiver and the other
  -- calls leave that, if the handler does not panic and answers by the event alone, and if no
  -- message makes the code panic by a missing event or an annotation of a wrong type, then after
  -- the messages the persister holds the checkpoint of the last message whose event the handler
  -- accepted, or what it held before if there is none.
  pub stored-handle_messages :
      (ms : List (Message B T)) (r : Receiver K N L W) (c : Option C)
      → IsPersister r.consumer_group r.partition_id
      → last_handled ms (stored r.world) ≡ returned c
      → (handle_messages service zero_time new_checkpoint handler ms r).0 ≡ returned tt
        × stored (handle_messages service zero_time new_checkpoint handler ms r).1.world ≡ c
  unfolding handle_messages handle_message
  stored-handle_messages [] r c h e = (refl, ground arith)
  stored-handle_messages (m ∷ ms) r c h e = elim (Outcome-cases (event_from_msg m)) [
    | inr n ↦ absurd (ground arith)
    | inl (ev, n) ↦ elim (Bool-cases (succeeds ev)) [
      | inr k ↦
          let (x, a) = h.refused ev r.world k in
          let r' = record r { world = service.modify m (handler ev r.world).1 } in
          let same = h.modified m (handler ev r.world).1 ∙ h.handled ev r.world in
          let (done, left) = stored-handle_messages ms r' c h (ground (arith, same)) in
          (ground (arith, done, a), ground (arith, left, a))
      | inl k ↦ elim (Outcome-cases (get_checkpoint zero_time new_checkpoint ev)) [
        | inr q ↦ absurd (ground arith)
        | inl (c', q) ↦
            let r' =
              (store_last_received_offset service c'
                (record r { world = service.accept m (handler ev r.world).1 })).1 in
            let (done, left) =
              stored-handle_messages ms r' c h
                (ground (arith, h.written c' (service.accept m (handler ev r.world).1))) in
            (
              ground (arith, done, h.accepted ev r.world k),
              ground (arith, left, h.accepted ev r.world k),
            )
      ]
    ]
  ]
