-- ===== src/Eph/Host/Composite.antt =====
-- eph/eph.go: the handler that a host gives to its receivers.
use azure_event_hubs_go.Base.{[], ◌∷◌}
use azure_event_hubs_go.Go.{ok, Call}
use azure_event_hubs_go.Dict.{Dict}

-- The handlers run at once and the call waits for all of them; they come here one after the other,
-- in any order `range` of the map. Their errors are dropped.
module _ {E W : Type 0} where
  unfoldable pub run_handlers : Dict (E → Call W (Unit {0})) → E → W → W
  run_handlers [] e w = w
  run_handlers ((id, f) ∷ fs) e w = run_handlers fs e (f e w).1

  unfoldable pub composite_handlers :
      (Dict (E → Call W (Unit {0})) → Dict (E → Call W (Unit {0})))
      → Dict (E → Call W (Unit {0}))
      → E
      → Call W (Unit {0})
  unfolding run_handlers
  composite_handlers range handlers e w = (ok tt, run_handlers (range handlers) e w)
