-- ===== src/Requests/Connection/Ends.antt =====
-- The invariants over a whole connection, and what is left of a client once its connection has ended.
use time_tracker.Common.{
  ℕ, String, ◌≡◌, refl, sym, subst, inl, inr, Bool, false, Bool-cases, ◌==◌, Option, Option-cases,
  none, some, List, [], ◌∷◌, arith,
}
use time_tracker.Store.Engine.{Lawful}
use time_tracker.Websocket.{
  Clients, get_client, delete_client, ServerState, remove_client, add_client, new_client,
  install_sender, create_tracking_status_message,
}
use time_tracker.Websocket.Clients.{IsKeyed, delete_client-IsKeyed, change_client-IsKeyed}
use time_tracker.Websocket.Server.{insert_client-IsKeyed}
use time_tracker.Requests.{Service, World}
use time_tracker.Requests.Dispatch.{handle_message}
use time_tracker.Requests.Sound.{IsSound, handle_message-IsSound}
use time_tracker.Requests.Connection.{
  Incoming, closes, other, would_block, fails, message, Round, Done, inbox_of, take_outgoing,
  on_clients, response_text, send_answer, read_incoming, take_round, handle_client_messages,
  handle_connection,
}

-- A change of the clients that keeps each under one id.
on_clients-IsSound :
    (f : ServerState → ServerState) (st : Service)
    → (IsKeyed st.server.clients → IsKeyed (f st.server).clients)
    → IsSound st
    → IsSound (on_clients f st)
on_clients-IsSound f st keeps v = record {
  consistent = v.consistent;
  registered = v.registered;
  keyed = keeps v.keyed;
}

remove-IsSound : (id : ℕ) (st : Service) → IsSound st → IsSound (on_clients (remove_client id) st)
remove-IsSound id st =
    on_clients-IsSound (remove_client id) st (delete_client-IsKeyed id st.server.clients)

take-IsSound : (id : ℕ) (st : Service) → IsSound st → IsSound (on_clients (take_outgoing id) st)
take-IsSound id st =
    on_clients-IsSound (take_outgoing id) st
      (change_client-IsKeyed id _ (λ c. refl) st.server.clients)

-- A client that is held once under its id is gone once it has been deleted.
get_client-delete_client :
    (id : ℕ) (cs : Clients) → IsKeyed cs → get_client id (delete_client id cs) ≡ none
unfolding get_client delete_client
get_client-delete_client id [] h = refl
get_client-delete_client id (c ∷ cs) h = elim (Bool-cases (c.id == id)) [
  | inl e ↦ ground (arith, h.0, e)
  | inr e ↦ ground (arith, e, get_client-delete_client id cs h.1)
]

module _ (w : World) (law : Lawful w.engine) (id : ℕ) where
  send_answer-service :
      (o : Option String) (b : Bool) (st : Service) → (send_answer o b st).service ≡ st
  send_answer-service none b st = refl
  send_answer-service (some text) b st = refl

  read_incoming-IsSound :
      (r : Round) (i : Incoming) (st : Service)
      → IsSound st
      → IsSound (read_incoming w id r i st).service
  unfolding read_incoming
  read_incoming-IsSound r closes st v = v
  read_incoming-IsSound r other st v = v
  read_incoming-IsSound r would_block st v = v
  read_incoming-IsSound r fails st v = v
  read_incoming-IsSound r (message text) st v =
      let done = handle_message w r.clock (some id) text st in
      subst IsSound
        (sym (send_answer-service (response_text w.printer done.1) r.sends_answer done.0))
        (handle_message-IsSound w law r.clock (some id) text st v)

  take_round-IsSound :
      (r : Round) (st : Service) → IsSound st → IsSound (take_round w id r st).service
  unfolding take_round
  take_round-IsSound r st v = elim (Option-cases (inbox_of (get_client id st.server.clients))) [
    | inl q ↦ rw q (read_incoming-IsSound r r.incoming st v)
    | inr (text, q) ↦ elim (Bool-cases r.sends_outgoing) [
      | inl b ↦ rw (q, b) (read_incoming-IsSound r r.incoming _ (take-IsSound id st v))
      | inr b ↦ rw (q, b) (take-IsSound id st v)
    ]
  ]

  -- What holds after the loop: the invariants, and no client under the id if the loop has ended.
  record Ended (d : Done) : Type 0 where
    sound : IsSound d.service
    gone : d.goes_on ≡ false → get_client id d.service.server.clients ≡ none

  removed :
      (st : Service) (sent : List String)
      → IsSound st
      → Ended (record { service = on_clients (remove_client id) st; sent = sent; goes_on = false })
  removed st sent v = record {
    sound = remove-IsSound id st v;
    gone = λ h. get_client-delete_client id st.server.clients v.keyed;
  }

  handle_client_messages-Ended :
      (rs : List Round) (st : Service) → IsSound st → Ended (handle_client_messages w id rs st)
  unfolding handle_client_messages
  handle_client_messages-Ended [] st v = record { sound = v; gone = λ h. cc }
  handle_client_messages-Ended (r ∷ rs) st v =
      let v' = take_round-IsSound r st v in
      elim (Bool-cases (take_round w id r st).goes_on) [
        | inl b ↦
            let rest = handle_client_messages-Ended rs (take_round w id r st).service v' in
            rw b (record { sound = rest.sound; gone = rest.gone })
        | inr b ↦ rw b (removed (take_round w id r st).service _ v')
      ]

  -- A connection that was accepted, over any rounds of its loop, with any messages, failures of sends and
  -- of the lawful database: the invariants of the service are kept, and if the connection has ended, no client is
  -- held under its id.
  pub handle_connection-IsSound :
      (sends : Bool) (rs : List Round) (st : Service)
      → IsSound st
      → IsSound (handle_connection w id sends rs st).service
        × ((handle_connection w id sends rs st).goes_on ≡ false
            → get_client id (handle_connection w id sends rs st).service.server.clients ≡ none)
  unfolding handle_connection
  handle_connection-IsSound sends rs st v =
      let joined = on_clients (add_client (new_client id)) st in
      let v' : IsSound joined =
        on_clients-IsSound (add_client (new_client id)) st
          (insert_client-IsKeyed (new_client id) st.server.clients) v in
      let begun : IsSound (on_clients (install_sender id) joined) =
        on_clients-IsSound (install_sender id) joined
          (change_client-IsKeyed id _ (λ c. refl) joined.server.clients) v' in
      elim (Option-cases (create_tracking_status_message w.printer joined.server.tracking_status)) [
        | inl q ↦ let d = removed joined [] v' in rw q (d.sound, d.gone)
        | inr (text, q) ↦ elim (Bool-cases sends) [
          | inl b ↦ let d = handle_client_messages-Ended rs _ begun in rw (q, b) (d.sound, d.gone)
          | inr b ↦ let d = removed joined [] v' in rw (q, b) (d.sound, d.gone)
        ]
      ]
