-- ===== src/Batching/Received.antt =====
-- The batchWriter of batchWriter.go as main.go joins it with a receiver: its handler, and its
-- offset persister.
use azure_event_hubs_go.Base.{
  ◌≡◌, refl, ◌∙◌, String, List, [], ◌∷◌, ◌++◌, Option, arith, ◌⊎◌, inl, inr, ℕ, subst, ap, sym,
}
use mathlib.Core.List.{append_assoc, append-nil}
use azure_event_hubs_go.Go.{Outcome, returned, Error, Outcome-cases}
use azure_event_hubs_go.Event.{Message, event_from_msg, get_checkpoint}
use azure_event_hubs_go.Receiver.{Service, Receiver, store_last_received_offset}
use azure_event_hubs_go.Receiver.Handling.{handle_message, handle_messages}
use azure_event_hubs_go.Batching.{PersistRecord, BatchWriter, Output, handle_event}
use azure_event_hubs_go.Batching
use azure_event_hubs_go.Batching.Buffer.{Entry, IsOutput, IsBuffer, IsOpen, Refuses, alike}
use azure_event_hubs_go.Batching.Main.{batching_service, batching_handler}
use azure_event_hubs_go.Batching.Flushing.{handle_event-keeps}
use azure_event_hubs_go.Batching.Writing.{write-keeps}
use azure_event_hubs_go.Batching.Entries.{
  Chosen, nothing, taken, left_out, IsQuiet, entries, entries-cons,
}

module _ {B T K N L C W : Type 0} (output : Output C W) (text : B → String)
    (service : Service K N L (Message B T) C W) (zero_time : T)
    (new_checkpoint : String → ℕ → T → C) (lines : W → List String)
    (stored : W → Option (PersistRecord C)) (before : List String)
    (earlier : Option (PersistRecord C)) where
  abbrev Buffer : List (Entry C) → List (Entry C) → BatchWriter C W → Type 0
  Buffer = IsBuffer output lines stored before earlier

  abbrev pub run :
      List (Message B T)
      → Receiver K N L (BatchWriter C W)
      → Outcome (Unit {0}) × Receiver K N L (BatchWriter C W)
  run =
      handle_messages (batching_service output service) zero_time new_checkpoint
        (batching_handler output text)

  -- How the entries that were written or pending, and those of the messages, stand in x: a part of
  -- the new ones follows the old ones, all of them are written or pending in this order, and the
  -- new ones are left out only where the writer can refuse a line.
  abbrev pub Keeps :
      Outcome (Unit {0}) × Receiver K N L (BatchWriter C W)
      → List (Entry C)
      → List (Entry C)
      → Type 0
  Keeps x held es =
      (x.0 ≡ returned tt)
      × (accepted : List (Entry C)) × (written : List (Entry C)) × (pending : List (Entry C))
      × (held ++ accepted ≡ written ++ pending)
      × Chosen C accepted es
      × Buffer written pending x.1.world
      × ((accepted ≡ es) ⊎ ((e : Error) × Refuses output e))

  abbrev Open : String → List (Entry C) → List (Entry C) → BatchWriter C W → Type 0
  Open = IsOpen output lines stored before earlier

  module _ (is : IsOutput output lines stored) (quiet : IsQuiet service lines stored) where
    accept-opens :
        (m : Message B T) (s : String) (written pending : List (Entry C)) (w : BatchWriter C W)
        → Open s written pending w
        → Open s written pending (record w { world = service.accept m w.world })
    accept-opens m s written pending w i = record {
      is_written =
          alike output lines stored before earlier written w _ i.is_written
            (quiet.accept_lines m w.world) (quiet.accept_stored m w.world) refl;
      batch = i.batch;
      records = i.records;
      room = i.room;
    }

    modify-keeps :
        (m : Message B T) (written pending : List (Entry C)) (w : BatchWriter C W)
        → Buffer written pending w
        → Buffer written pending (record w { world = service.modify m w.world })
    modify-keeps m written pending w i = record {
      is_written =
          alike output lines stored before earlier written w _ i.is_written
            (quiet.modify_lines m w.world) (quiet.modify_stored m w.world) refl;
      batch = i.batch;
      records = i.records;
      fits = i.fits;
    }

    -- One message more, whose event is accepted, or is left out because the writer refuses a line.
    prepend :
        (x : Outcome (Unit {0}) × Receiver K N L (BatchWriter C W)) (entry : Entry C)
        (es out left held : List (Entry C))
        → held ≡ out ++ left
        → Keeps x (out ++ (left ++ (entry ∷ []))) es
        → Keeps x held (entry ∷ es)
    prepend x entry es out left held same (o, accepted, written, pending, order, chosen, k, all) = (
      o,
      entry ∷ accepted,
      written,
      pending,
      ap (λ l. l ++ (entry ∷ accepted)) same
          ∙ append_assoc out left (entry ∷ accepted)
          ∙ ap (λ l. out ++ l) (sym (append_assoc left (entry ∷ []) accepted))
          ∙ sym (append_assoc out (left ++ (entry ∷ [])) accepted)
          ∙ order,
      taken entry accepted es chosen,
      k,
      elim all [ inl e ↦ inl (ap (λ l. entry ∷ l) e) | inr e ↦ inr e ],
    )

    leave_out :
        (x : Outcome (Unit {0}) × Receiver K N L (BatchWriter C W)) (entry : Entry C)
        (es out left held : List (Entry C)) (e : Error)
        → held ≡ out ++ left
        → Refuses output e
        → Keeps x (out ++ left) es
        → Keeps x held (entry ∷ es)
    leave_out x entry es out left held e same refusal
          (o, accepted, written, pending, order, chosen, k, all) =
        (
          o,
          accepted,
          written,
          pending,
          ap (λ l. l ++ accepted) same ∙ order,
          left_out entry accepted es chosen,
          k,
          inr (e, refusal),
        )

    -- A receiver whose handler is HandleEvent of the batchWriter and whose offset persister is
    -- that batchWriter goes through any messages that have data and annotations of the right types
    -- without a panic. If the buffer was in order, it is so after them: the events accepted are
    -- all of the messages' events, or some of them in their order where the writer can refuse a
    -- line; the lines written since the start, and then those in the buffer, at most ten, are
    -- those of the events accepted so far, in their order; and the checkpoint in the persister is
    -- of an event whose line is written, unless it is the one from before the start.
    pub handle_messages-keeps :
        (ms : List (Message B T)) (es written pending : List (Entry C))
        (r : Receiver K N L (BatchWriter C W))
        → entries service text zero_time new_checkpoint r.consumer_group r.partition_id ms
          ≡ returned es
        → Buffer written pending r.world
        → Keeps (run ms r) (written ++ pending) es
    unfolding handle_messages handle_message store_last_received_offset
    handle_messages-keeps [] es written pending r e i = (
      refl,
      [],
      written,
      pending,
      append-nil (written ++ pending),
      subst (Chosen C []) (ground arith) nothing,
      i,
      inl (ground arith),
    )
    handle_messages-keeps (m ∷ ms) es written pending r e i =
        elim (Outcome-cases (event_from_msg m)) [
          | inr p ↦ absurd (ground arith)
          | inl (ev, p) ↦ elim (Outcome-cases (get_checkpoint zero_time new_checkpoint ev)) [
            | inr q ↦ absurd (ground arith)
            | inl (c, q) ↦
                let (fs, t, rest) =
                  entries-cons service text zero_time new_checkpoint r.consumer_group r.partition_id
                    m ms es ev c p q e in
                let s = text ev.payload in
                elim (handle_event-keeps output lines stored before earlier is s written pending
                  r.world i) [
                    | inl (out, left, o, same, k) ↦
                        let w = (handle_event output s r.world).1 in
                        let r' = record r {
                          world =
                              (Batching.write output service.namespace_name service.hub_name
                                r.consumer_group r.partition_id c
                                (record w { world = service.accept m w.world })).1;
                        } in
                        let entry : Entry C = (
                          s,
                          record {
                            namespace = service.namespace_name;
                            name = service.hub_name;
                            consumer_group = r.consumer_group;
                            partition_id = r.partition_id;
                            checkpoint = c;
                          },
                        ) in
                        let k' =
                          write-keeps output lines stored before earlier is s out left
                            service.namespace_name service.hub_name r.consumer_group r.partition_id
                            c _ (accept-opens m s out left w k) in
                        let all = handle_messages-keeps ms fs out (left ++ (entry ∷ [])) r' t k' in
                        let done : run ms r' ≡ run (m ∷ ms) r = ground arith in
                        subst (Keeps (run (m ∷ ms) r) (written ++ pending)) (sym rest) (
                          prepend (run (m ∷ ms) r) entry fs out left (written ++ pending) same
                            (subst (λ x. Keeps x (out ++ (left ++ (entry ∷ []))) fs) done all))
                    | inr (x, out, left, o, same, k, refusal) ↦
                        let w = (handle_event output s r.world).1 in
                        let r' = record r {
                          world = record w { world = service.modify m w.world };
                        } in
                        let all =
                          handle_messages-keeps ms fs out left r' t (modify-keeps m out left w k) in
                        let done : run ms r' ≡ run (m ∷ ms) r = ground arith in
                        subst (Keeps (run (m ∷ ms) r) (written ++ pending)) (sym rest) (
                          leave_out (run (m ∷ ms) r) _ fs out left (written ++ pending) x same
                            refusal (subst (λ x. Keeps x (out ++ left) fs) done all))
                  ]
          ]
        ]
