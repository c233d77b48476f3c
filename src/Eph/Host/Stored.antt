-- ===== src/Eph/Host/Stored.antt =====
-- Which checkpoint a receiver of the host leaves, with the handlers of the host.
use azure_event_hubs_go.Base.{
  ℕ, String, ◌≡◌, refl, ◌∙◌, true, Option, some, List, [], ◌∷◌, All, arith,
}
use azure_event_hubs_go.Go.{returned, Call, Method, Result}
use azure_event_hubs_go.Dict.{Dict}
use azure_event_hubs_go.Event.{Message, Event}
use azure_event_hubs_go.Receiver.{Service, Receiver}
use azure_event_hubs_go.Receiver.Handling.{handle_messages}
use azure_event_hubs_go.Receiver.Stored.{last_handled, stored-handle_messages}
use azure_event_hubs_go.Eph.Host.Composite.{run_handlers, composite_handlers}

module _ {B T K N L C W : Type 0} (service : Service K N L (Message B T) C W) (zero_time : T)
    (new_checkpoint : String → ℕ → T → C) (stored : W → Option C) where
  abbrev pub Handlers : Type 0
  Handlers = Dict (Event B T → Call W (Unit {0}))

  -- A handler as the receiver calls it, which returns.
  abbrev pub calls : (Event B T → Call W (Unit {0})) → Event B T → Method W (Result (Unit {0}))
  calls f e w = let (r, w') = f e w in (returned r, w')

  -- None of the handlers changes what the persister holds.
  abbrev pub AreApart : Handlers → Type 0
  AreApart hs = All (λ x. (e : Event B T) (w : W) → stored (x.1 e w).1 ≡ stored w) hs

  run_handlers-apart :
      (hs : Handlers) (e : Event B T) (w : W)
      → AreApart hs
      → stored (run_handlers hs e w) ≡ stored w
  unfolding run_handlers
  run_handlers-apart [] e w h = refl
  run_handlers-apart ((id, f) ∷ fs) e w h = run_handlers-apart fs e (f e w).1 h.1 ∙ h.0 e w

  -- If the persister holds what was last written to it under the key of the receiver and neither
  -- the other calls nor the handlers change it, and no message lacks its event or has an annotation
  -- of a wrong type, then after the messages that a receiver has handled with the handlers of a
  -- host, in any order of them, the persister holds the checkpoint of the last message, or what it
  -- held before if there is none, whichever handlers have returned errors.
  pub stored-composite_handlers :
      (range : Handlers → Handlers) (handlers : Handlers) (ms : List (Message B T))
      (r : Receiver K N L W) (c : Option C)
      → ((c : C) (w : W)
          → stored
              (service.write service.namespace_name service.hub_name r.consumer_group r.partition_id
                c w).1
            ≡ some c)
      → ((m : Message B T) (w : W)
          → (stored (service.accept m w) ≡ stored w) × (stored (service.modify m w) ≡ stored w))
      → AreApart (range handlers)
      → last_handled service zero_time new_checkpoint
          (calls (composite_handlers range handlers))
          stored
          (λ _. true)
          ms
          (stored r.world)
        ≡ returned c
      → let (o, r') =
          handle_messages service zero_time new_checkpoint
            (calls (composite_handlers range handlers))
            ms
            r in
        (o ≡ returned tt) × (stored r'.world ≡ c)
  unfolding composite_handlers
  stored-composite_handlers range handlers ms r c written others apart e =
      stored-handle_messages service zero_time new_checkpoint
        (calls (composite_handlers range handlers)) stored (λ _. true) ms r c
        (record {
          written = written;
          kept = λ m w. (others m w).0;
          modified = λ m w. (others m w).1;
          handled = λ ev w. run_handlers-apart (range handlers) ev w apart;
          accepted = λ ev w _. refl;
          refused = λ ev w n. absurd (ground arith);
        })
        e
