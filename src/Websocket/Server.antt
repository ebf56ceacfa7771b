-- ===== src/Websocket/Server.antt =====
-- The turns of the server's threads: its calls from the connections, from the trackers and from the
-- broadcast loop, and what the network does to a client's channel.
use time_tracker.Common.{
  ℕ, String, ◌≡◌, refl, false, ◌==◌, ==_iff, some, List, [], ◌∷◌, if◌then◌else◌, arith,
}
use time_tracker.Structs.{App, Timeline, TrackingStatus}
use time_tracker.Websocket.{
  SubscriptionTopic, BroadcastMessage, WebSocketClient, Printer, Clients, get_client, insert_client,
  change_client, ServerState, add_client, remove_client, broadcast_tracking_status,
  broadcast_apps_update, broadcast_timeline_update, subscribe_client, unsubscribe_client,
  new_client, install_sender, handle_broadcast,
}
use time_tracker.Websocket.Clients.{IsKeyed}

pub data Turn : Type 0 where
  accepts installs closes takes hangs_up : ℕ → Turn
  reports_status : TrackingStatus → Turn
  reports_apps : List App → Turn
  reports_timeline : List Timeline → Turn
  subscribes unsubscribes : ℕ → List SubscriptionTopic → Turn
  broadcasts : Turn

abbrev pub drop_first : List String → List String
drop_first [] = []
drop_first (m ∷ ms) = ms

-- `takes` is `outgoing_receiver.try_recv()`, `hangs_up` the end of a connection's thread, which drops
-- the receiver, and `broadcasts` one turn of the broadcast loop.
abbrev pub broadcast_next : Printer → List BroadcastMessage → ServerState → ServerState
broadcast_next s [] st = st
broadcast_next s (m ∷ ms) st = record st { queue = ms; clients = handle_broadcast s m st.clients }

abbrev pub serve : Printer → Turn → ServerState → ServerState
serve s (accepts id) st = add_client (new_client id) st
serve s (installs id) st = install_sender id st
serve s (closes id) st = remove_client id st
serve s (takes id) st = record st {
  clients = change_client id (λ c. record c { inbox = drop_first c.inbox }) st.clients;
}
serve s (hangs_up id) st = record st {
  clients = change_client id (λ c. record c { connected = false }) st.clients;
}
serve s (reports_status x) st = broadcast_tracking_status x st
serve s (reports_apps l) st = broadcast_apps_update l st
serve s (reports_timeline rows) st = broadcast_timeline_update rows st
serve s (subscribes id topics) st = subscribe_client id topics st
serve s (unsubscribes id topics) st = unsubscribe_client id topics st
serve s broadcasts st = broadcast_next s st.queue st

abbrev pub serve_all : Printer → List Turn → ServerState → ServerState
serve_all s [] st = st
serve_all s (t ∷ ts) st = serve_all s ts (serve s t st)

get_client-insert_client :
    (c : WebSocketClient) (id : ℕ) (cs : Clients)
    → get_client id (insert_client c cs) ≡ (if c.id == id then some c else get_client id cs)
unfolding get_client insert_client
get_client-insert_client c id [] = refl
get_client-insert_client c id (d ∷ cs) =
    ground
      (arith, get_client-insert_client c id cs, ==_iff d.id c.id, ==_iff d.id id, ==_iff c.id id)

pub insert_client-IsKeyed :
    (c : WebSocketClient) (cs : Clients) → IsKeyed cs → IsKeyed (insert_client c cs)
unfolding get_client insert_client
insert_client-IsKeyed c [] h = (refl, tt)
insert_client-IsKeyed c (d ∷ cs) h = ground (
  arith,
  insert_client-IsKeyed c cs h.1,
  get_client-insert_client c d.id cs,
  ==_iff d.id c.id,
  ==_iff c.id d.id,
  h.0,
)
