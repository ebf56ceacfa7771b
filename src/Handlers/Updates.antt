-- ===== src/Handlers/Updates.antt =====
-- From a client's request to subscribe to the update in its channel.
use time_tracker.Common.{ℕ, String, ◌≡◌, ap, ◌∙◌, true, Option, some, List, [], ◌∷◌, ◌++◌, length}
use time_tracker.Json.{Json, Fields}
use time_tracker.Structs.{App}
use time_tracker.Websocket.{
  SubscriptionTopic, apps, Printer, ServerState, get_client, WebSocketClient, is_subscribed,
  apply_topics, create_apps_message, broadcast_apps_update, subscribe,
}
use time_tracker.Websocket.Clients.{IsKeyed}
use time_tracker.Websocket.Delivery.{texts_run, topics_run}
use time_tracker.Websocket.Server.{serve_all}
use time_tracker.Websocket.Updates.{turns_of, serve_all-broadcasts, subscribe-apps_update}
use time_tracker.Handlers.{handle_subscribe}
use time_tracker.Handlers.Topics.{Asks, handle_subscribe-Asks}

-- A connected client, whose id no other client has, asks for topics, the apps among them; then an update of the
-- apps that can be printed is broadcast; then the broadcast loop takes as many turns as there are messages
-- in its channel. Then the client has the topics that it asked for beside those of the messages that waited, and the update's text
-- stands last in its channel, behind the texts of the messages that waited.
pub handle_subscribe-broadcast_apps_update :
    (s : Printer) (read_id : Json → Option ℕ) (id : ℕ) (params : Fields)
    (ts : List SubscriptionTopic) (l : List App) (text : String) (st : ServerState)
    (c : WebSocketClient)
    → IsKeyed st.clients
    → get_client id st.clients ≡ some c
    → c.connected ≡ true
    → Asks params ts
    → is_subscribed apps ts ≡ true
    → create_apps_message s l ≡ some text
    → let told = broadcast_apps_update l (handle_subscribe s read_id (some id) params st).0 in
      get_client id (serve_all s (turns_of (length told.queue)) told).clients
      ≡ some (record c {
        subscriptions = apply_topics true ts (topics_run id st.queue c.subscriptions);
        inbox = c.inbox ++ (texts_run s id st.queue c.subscriptions ++ text ∷ []);
      })
handle_subscribe-broadcast_apps_update s read_id id params ts l text st c keyed found live asked
      topic printed =
    ap
      (λ (z : ServerState).
        let told = broadcast_apps_update l z in
        get_client id (serve_all s (turns_of (length told.queue)) told).clients)
      (handle_subscribe-Asks s read_id id params ts st asked)
    ∙ ap (λ (z : ServerState). get_client id z.clients)
        (serve_all-broadcasts s
          (broadcast_apps_update l (record st { queue = st.queue ++ subscribe id ts ∷ [] })))
    ∙ subscribe-apps_update s id ts l text st.queue st.clients c keyed found live topic printed
