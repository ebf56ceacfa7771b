-- ===== src/Requests/Connection.antt =====
-- websocket/client.rs: a client's connection, from its start to its end.
pub mod Ends
use time_tracker.Common.{
  ℕ, String, Bool, true, false, Option, none, some, List, [], ◌∷◌, ◌++◌, if◌then◌else◌, Result, ok,
  err,
}
use time_tracker.Messages.{error_message, tracking_status_update_message}
use time_tracker.Websocket.{
  WebSocketClient, get_client, change_client, ServerState, Printer, and_print,
  create_tracking_status_message, to_json, add_client, remove_client, new_client, install_sender,
}
use time_tracker.Requests.{Service, World, Clock}
use time_tracker.Requests.Dispatch.{handle_message}

-- What `websocket.read()` gives: a close, a message that is neither text nor binary, a message by what `to_text`
-- makes of it, nothing yet, or an error.
pub data Incoming : Type 0 where
  closes other would_block fails : Incoming
  message : Result String → Incoming

-- A round of the loop: the clock, what comes in, and whether the two calls of `send` go through.
pub record Round : Type 0 where
  pub clock : Clock
  pub incoming : Incoming
  pub sends_outgoing : Bool
  pub sends_answer : Bool

-- The texts that a round sends, and whether the loop goes on.
pub record Done : Type 0 where
  pub service : Service
  pub sent : List String
  pub goes_on : Bool

abbrev pub drop_first : List String → List String
drop_first [] = []
drop_first (m ∷ ms) = ms

abbrev pub first_text : List String → Option String
first_text [] = none
first_text (m ∷ ms) = some m

abbrev pub inbox_of : Option WebSocketClient → Option String
inbox_of none = none
inbox_of (some c) = first_text c.inbox

-- outgoing_receiver.try_recv()
abbrev pub take_outgoing : ℕ → ServerState → ServerState
take_outgoing id s = record s {
  clients = change_client id (λ c. record c { inbox = drop_first c.inbox }) s.clients;
}

abbrev pub on_clients : (ServerState → ServerState) → Service → Service
on_clients f st = record st { server = f st.server }

-- The text of an answer, or the error as a message; none if even that cannot be printed.
abbrev pub response_text : Printer → Result String → Option String
response_text s (ok text) = some text
response_text s (err e) = to_json s (error_message e)

abbrev pub send_answer : Option String → Bool → Service → Done
send_answer none works st = record { service = st; sent = []; goes_on = true }
send_answer (some text) works st = record {
  service = st;
  sent = if works then text ∷ [] else [];
  goes_on = works;
}

module _ (w : World) (id : ℕ) where
  unfoldable pub read_incoming : Round → Incoming → Service → Done
  read_incoming r closes st = record { service = st; sent = []; goes_on = false }
  read_incoming r other st = record { service = st; sent = []; goes_on = true }
  read_incoming r would_block st = record { service = st; sent = []; goes_on = true }
  read_incoming r fails st = record { service = st; sent = []; goes_on = false }
  read_incoming r (message text) st =
      let done = handle_message w r.clock (some id) text st in
      send_answer (response_text w.printer done.1) r.sends_answer done.0

  abbrev pub and_sent : String → Done → Done
  and_sent text d = record d { sent = text ∷ d.sent }

  -- The texts of the connection's channel come first, one in a round.
  abbrev pub send_outgoing : Round → Option String → Service → Done
  send_outgoing r none st = read_incoming r r.incoming st
  send_outgoing r (some text) st =
      if r.sends_outgoing
      then and_sent text (read_incoming r r.incoming (on_clients (take_outgoing id) st))
      else record { service = on_clients (take_outgoing id) st; sent = []; goes_on = false }

  unfoldable pub take_round : Round → Service → Done
  unfolding read_incoming
  take_round r st = send_outgoing r (inbox_of (get_client id st.server.clients)) st

  -- The loop, over the rounds that it is given, and what follows it once it has ended: the client is removed.
  unfoldable pub handle_client_messages : List Round → Service → Done
  unfolding take_round
  handle_client_messages [] st = record { service = st; sent = []; goes_on = true }
  handle_client_messages (r ∷ rs) st =
      let d = take_round r st in
      let rest = handle_client_messages rs d.service in
      if d.goes_on then record rest { sent = d.sent ++ rest.sent } else record {
        service = on_clients (remove_client id) d.service;
        sent = d.sent;
        goes_on = false;
      }

  -- The start of a connection that was accepted. `sends` is whether the first `send` goes through.
  abbrev pub greet : Option String → Bool → List Round → Service → Done
  greet none sends rs st = record {
    service = on_clients (remove_client id) st;
    sent = [];
    goes_on = false;
  }
  greet (some text) false rs st = record {
    service = on_clients (remove_client id) st;
    sent = [];
    goes_on = false;
  }
  greet (some text) true rs st =
      let d = handle_client_messages rs (on_clients (install_sender id) st) in
      record d { sent = text ∷ d.sent }

  unfoldable pub handle_connection : Bool → List Round → Service → Done
  unfolding handle_client_messages
  handle_connection sends rs st =
      let joined = on_clients (add_client (new_client id)) st in
      greet (create_tracking_status_message w.printer joined.server.tracking_status) sends rs joined
