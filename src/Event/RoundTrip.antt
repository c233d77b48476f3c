-- ===== src/Event/RoundTrip.antt =====
-- What becomes of an event on its way through a message.
use azure_event_hubs_go.Base.{
  ◌≡◌, refl, none, some, List, [], ◌∷◌, Option-cases, List-cases, inl, inr, map,
}
use azure_event_hubs_go.Go.{returned, Result, ok}
use azure_event_hubs_go.Dict.{lookup}
use azure_event_hubs_go.Event.{
  Message, Event, EventBatch, event_of, event_from_msg, fill, marshal_events, batch_message,
  to_event,
}

module _ {B T : Type 0} (new_message : B → Message B T) where
  -- amqp.NewMessage(d) has the data d and nothing else that the code reads.
  abbrev pub IsNewMessage : B → Type 0
  IsNewMessage b =
      (new_message b).payload ≡ b ∷ []
      × (new_message b).application_properties ≡ []
      × (new_message b).annotations ≡ []

  pub fill-properties :
      (e : Event B T) (m : Message B T)
      → m.application_properties ≡ []
      → (fill new_message e m).application_properties ≡ e.properties
  unfolding fill
  fill-properties e m h = elim (List-cases e.properties) [
    | inl n ↦ rw n h
    | inr (x, xs, n) ↦ rw n refl
  ]

  -- The partition key is written as a *string, which is not read back as a string.
  pub fill-partition_key :
      (e : Event B T) (m : Message B T)
      → m.annotations ≡ []
      → (event_of e.payload (fill new_message e m)).partition_key ≡ none
  unfolding fill event_of lookup
  fill-partition_key e m h = elim (Option-cases e.partition_key) [
    | inl n ↦ rw (n, h) refl
    | inr (k, n) ↦ rw n refl
  ]

  pub event_from_msg-first :
      (m : Message B T) (b : B) (bs : List B)
      → m.payload ≡ b ∷ bs
      → event_from_msg m ≡ returned (event_of b m)
  unfolding event_from_msg
  event_from_msg-first m b bs h = simp (h, event_from_msg)

  pub marshal_events-map :
      (marshal : Message B T → Result B) (encode : B → B)
      → ((b : B) → marshal (new_message b) ≡ ok (encode b))
      → (es : List (Event B T))
      → marshal_events new_message marshal es ≡ ok (map (λ e. encode e.payload) es)
  unfolding marshal_events
  marshal_events-map marshal encode h [] = refl
  marshal_events-map marshal encode h (e ∷ es) =
      rw (h e.payload, marshal_events-map marshal encode h es, marshal_events) refl

  -- A batch of at least one event, whose events can all be encoded, becomes one event: its message
  -- holds the encodings in order under the id of the batch, and it has neither the partition key
  -- nor the properties of the batch.
  pub to_event-holds :
      (marshal : Message B T → Result B) (encode : B → B)
      → ((b : B) → marshal (new_message b) ≡ ok (encode b))
      → (batch : EventBatch B T) (e : Event B T) (es : List (Event B T)) → batch.events ≡ e ∷ es
      → to_event new_message marshal batch
        ≡ returned (
            ok (record {
              payload = encode e.payload;
              partition_key = none;
              properties = [];
              id = batch.id;
              message =
                  some
                    (batch_message new_message batch.id (map (λ f. encode f.payload) batch.events));
            }))
  unfolding to_event event_from_msg event_of lookup
  to_event-holds marshal encode h batch e es k =
      rw (k, marshal_events-map marshal encode h (e ∷ es), to_event) refl
