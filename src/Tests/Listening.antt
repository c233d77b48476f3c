-- ===== src/Tests/Listening.antt =====
-- A receiver of receiver.go whose link gives two messages and is then stolen. Its world is what is to
-- come.
use azure_event_hubs_go.Base.{ℕ, ◌≡◌, refl, Bool, true, false, none, some, List, [], ◌∷◌}
use azure_event_hubs_go.Go.{Error, errors_new, external, ok, err}
use azure_event_hubs_go.Receiver.{Service, Receiver, Session, receiver_of, new_session_and_link}
use azure_event_hubs_go.Receiver.Linked.{new_session_and_link-opens}
use azure_event_hubs_go.Receiver.Listening.{
  done, retryable, final, Retry, stopped, listen_for_messages,
}
use azure_event_hubs_go.Receiver.Listening.Ending.{
  rounds_for, IsStream, listen_for_messages-delivers,
}

abbrev stolen : Error → Bool
stolen (errors_new s) = true
stolen (external s) = false

abbrev service : Service ℕ ℕ ℕ ℕ ℕ (List ℕ)
service = record {
  hub_name = "hub";
  namespace_name = "ns";
  offset = λ c. "7";
  new_connection = λ w. (ok 1, w);
  negotiate_claim = λ k a w. (ok tt, w);
  new_session = λ k w. (ok 2, w);
  new_uuid = λ w. (ok "id", w);
  new_receiver = λ n o w. (ok 3, w);
  close_connection = λ k w. (ok tt, w);
  receive = λ l w. elim w [ [] ↦ (err (errors_new "stolen"), []) | m ∷ ms ↦ (ok m, ms) ];
  accept = λ m w. w;
  modify = λ m w. w;
  read = λ a b g p w. (ok 7, w);
  write = λ a b g p c w. (ok tt, w);
}

abbrev retry : Retry (Receiver ℕ ℕ ℕ (List ℕ))
retry n f r =
    let (a, r') = f r in (elim a [ done ↦ ok tt | retryable e ↦ err e | final e ↦ err e ], r')

abbrev ended_context : Error
ended_context = external "context canceled"

abbrev receiver : Receiver ℕ ℕ ℕ (List ℕ)
receiver = record (receiver_of "0" (4 ∷ 5 ∷ [])) { link = some 3; listening = some true }

abbrev coming : List ℕ → List ℕ
coming w = w

stream : IsStream service "-1" stolen ended_context retry coming
stream = record {
  gives = λ l w m ms e. rw e (refl, refl);
  ends = λ l w e. rw e (errors_new "stolen", refl, refl);
}

listen_for_messages-delivers_example :
    let (out, (status, r')) =
      listen_for_messages service "-1" stolen ended_context retry
        (rounds_for {M = ℕ} (4 ∷ 5 ∷ []))
        receiver in
    (out ≡ 4 ∷ 5 ∷ []) × (status ≡ stopped) × (r'.listening ≡ some false) × (r'.last_error ≡ none)
listen_for_messages-delivers_example =
    listen_for_messages-delivers service "-1" stolen ended_context retry coming (4 ∷ 5 ∷ [])
      receiver 3 stream refl refl refl

abbrev unlinked : Receiver ℕ ℕ ℕ (List ℕ)
unlinked = receiver_of "0" []

new_session_and_link-opens_example :
    let r' = (new_session_and_link service "-1" unlinked).1 in
    (k : ℕ) × (s : Session ℕ) × (l : ℕ) × (r'.connection ≡ some k)
    × (r'.session ≡ some s)
    × (r'.link ≡ some l)
    × (((service.new_connection []).0 ≡ ok k)
        × ((service.negotiate_claim k "hub/ConsumerGroups/$Default/Partitions/0" []).0 ≡ ok tt)
        × ((service.new_session k []).0 ≡ ok s.session)
        × ((service.new_uuid []).0 ≡ ok s.session_id)
        × ((service.new_receiver s.session
              (record {
                source_address = "hub/ConsumerGroups/$Default/Partitions/0";
                credit = 1000;
                selector_filter = "amqp.annotation.x-opt-offset > '7'";
                epoch = none;
              })
              []).0
            ≡ ok l))
unfolding new_session_and_link
new_session_and_link-opens_example = new_session_and_link-opens service "-1" unlinked refl
