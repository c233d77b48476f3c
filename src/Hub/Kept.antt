-- ===== src/Hub/Kept.antt =====
-- What the options, the constructors and the operations of hub.go keep of a hub.
use Prim.Native.String.{len}
use azure_event_hubs_go.Base.{
  ℕ, ◌≤◌, String, ◌≡◌, refl, ◌∙◌, ap, sym, inl, inr, some, List, [], ◌∷◌, arith, subst,
}
use azure_event_hubs_go.Go.{Result, ok, Call, Result-cases}
use azure_event_hubs_go.Dict.{lookup}
use azure_event_hubs_go.Event.{Event, Message}
use azure_event_hubs_go.Receiver.{Receiver}
use azure_event_hubs_go.Receiver
use azure_event_hubs_go.Hub.{
  Hub, Setting, append_agent, hub_with_partitioned_sender, hub_with_offset_persistence,
  hub_with_user_agent, hub_with_environment, apply_options, configure, hub_of, Sender, Namespace,
}
use azure_event_hubs_go.Hub.Options.{
  IsOption, AreOptions, partitioned, persisted, agent, environment,
}
use azure_event_hubs_go.Hub.Client.{Amqp, receiver_in, receiver_service, get_sender}
use azure_event_hubs_go.Hub.Sending.{send_by}

module _ {K N L S M C P O W : Type 0} (amqp : Amqp K N L S M C P O W) (decimal : ℕ → String) where
  -- The user agent is short enough, and each receiver stands under its own identifier and has a
  -- connection, so that closing it does not panic.
  pub record IsHub (h : Hub K N L S P O W) : Type 0 where
    pub short : len h.user_agent ≤ 128
    pub keyed :
        (key : String) (r : Receiver K N L (Unit {0}))
        → lookup key h.receivers ≡ some r
        → (Receiver.get_identifier (receiver_service amqp h) decimal (receiver_in h.world r) ≡ key)
          × ((k : K) × (r.connection ≡ some k))

  pub identifier-same :
      (h h' : Hub K N L S P O W) (r : Receiver K N L (Unit {0}))
      → h'.name ≡ h.name
      → Receiver.get_identifier (receiver_service amqp h') decimal (receiver_in h'.world r)
        ≡ Receiver.get_identifier (receiver_service amqp h) decimal (receiver_in h.world r)
  unfolding Receiver.get_identifier Receiver.get_address receiver_service
  identifier-same h h' r e = rw e refl

  pub identifier-named :
      (h h' : Hub K N L S P O W) (r : Receiver K N L W)
      → h'.name ≡ h.name
      → Receiver.get_identifier (receiver_service amqp h') decimal r
        ≡ Receiver.get_identifier (receiver_service amqp h) decimal r
  unfolding Receiver.get_identifier Receiver.get_address receiver_service
  identifier-named h h' r e = rw e refl

  -- What changes neither the name nor the receivers keeps the invariant.
  pub at_receivers :
      (h h' : Hub K N L S P O W)
      → IsHub h
      → h'.name ≡ h.name
      → h'.receivers ≡ h.receivers
      → len h'.user_agent ≤ 128
      → IsHub h'
  at_receivers h h' i name same bound = record {
    short = bound;
    keyed = λ key r e.
        let (is, has) = i.keyed key r (ap (lookup key) (sym same) ∙ e) in
        (identifier-same h h' r name ∙ is, has);
  }

  option-keeps :
      (o : Call (Hub K N L S P O W) (Unit {0})) (h : Hub K N L S P O W)
      → IsOption o
      → IsHub h
      → IsHub (o h).1
  unfolding hub_with_partitioned_sender hub_with_offset_persistence hub_with_environment
      hub_with_user_agent append_agent
  option-keeps o h (partitioned p) i = at_receivers h _ i refl refl i.short
  option-keeps o h (persisted p) i = at_receivers h _ i refl refl i.short
  option-keeps o h (environment env) i = at_receivers h _ i refl refl i.short
  option-keeps o h (agent a) i =
      let same = i.short in
      at_receivers h (append_agent a h).1 i (ground arith) (ground arith) (ground arith)

  apply_options-keeps :
      (os : List (Call (Hub K N L S P O W) (Unit {0}))) (h : Hub K N L S P O W)
      → AreOptions os
      → IsHub h
      → IsHub (apply_options os h).1
  unfolding apply_options
  apply_options-keeps [] h a i = i
  apply_options-keeps (o ∷ os) h a i = elim (Result-cases (o h).0) [
    | inl (_, e) ↦
        subst IsHub (ground arith) (apply_options-keeps os (o h).1 a.1 (option-keeps o h a.0 i))
    | inr (_, e) ↦ subst IsHub (ground arith) (option-keeps o h a.0 i)
  ]

  -- The hub that a constructor starts from.
  pub configure-makes :
      (setting : Setting P O W) (ns : Namespace P) (name : String)
      (os : List (Call (Hub K N L S P O W) (Unit {0}))) (w : W) (h : Hub K N L S P O W)
      → AreOptions os
      → (configure os (hub_of setting ns name w)).0 ≡ ok h
      → IsHub h
  unfolding configure hub_of
  configure-makes setting ns name os w h a e =
      let start : Hub K N L S P O W = hub_of setting ns name w in
      let i : IsHub start = record {
        short = omega arith;
        keyed = λ key r e. absurd (unfold lookup in ground arith);
      } in
      subst IsHub (ground arith) (apply_options-keeps os start a i)

  pub get_sender-keeps : (h : Hub K N L S P O W) → IsHub h → IsHub (get_sender amqp h).1
  unfolding get_sender
  get_sender-keeps h i =
      let short = i.short in
      at_receivers h (get_sender amqp h).1 i (ground arith) (ground arith) (ground arith)

module _ {B T K N L S C P O W : Type 0} (amqp : Amqp K N L S (Message B T) C P O W)
    (decimal : ℕ → String) (new_message : B → Message B T)
    (inject : Event B T → Call W (Event B T)) where
  pub send_by-keeps :
      (rounds : ℕ) (options : List (Event B T → Result (Event B T))) (e : Event B T)
      (s : Sender K N S W) (h : Hub K N L S P O W)
      → IsHub amqp decimal h
      → IsHub amqp decimal (send_by amqp new_message inject rounds options e s h).1
  unfolding send_by
  send_by-keeps rounds options e s h i = at_receivers amqp decimal h _ i refl refl i.short
