-- ===== src/Websocket.antt =====
-- websocket/: the connected clients, their subscriptions, and the broadcast loop, as functions on
-- the server's state (server.rs, broadcast.rs, client.rs).
pub mod Clients
pub mod Delivery
pub mod Server
pub mod Updates
use Prim.Native.String.{◌++◌ as ◌+++◌}
use time_tracker.Common.{
  ℕ, String, Bool, true, false, not, ◌&&◌, ◌==◌, Option, none, some, List, [], ◌∷◌, ◌++◌, is_empty,
  map, if◌then◌else◌, any, filter, str_eq,
}
use time_tracker.Common.Word.{I32}
use time_tracker.Json.{Json}
use time_tracker.Structs.{App, Timeline, TrackingStatus, Checkpoint, SessionCount, AppStatistics}
use time_tracker.Tracker.{idle_status}
use time_tracker.Messages.{
  WebSocketMessage, message_tag, message_payload, tracking_status_update_message, apps_list_message,
  timeline_data_message,
}

pub data SubscriptionTopic : Type 0 where
  apps timeline tracking_status : SubscriptionTopic

abbrev pub topic_eq : SubscriptionTopic → SubscriptionTopic → Bool
topic_eq apps apps = true
topic_eq timeline timeline = true
topic_eq tracking_status tracking_status = true
topic_eq _ _ = false

-- `SubscriptionTopic::from_str` and `as_str`
unfoldable pub topic_from_str : String → Option SubscriptionTopic
topic_from_str s =
    if str_eq s "apps"
    then some apps
    else if str_eq s "timeline"
    then some timeline
    else if str_eq s "tracking_status"
    then some tracking_status
    else none

abbrev pub as_str : SubscriptionTopic → String
as_str apps = "apps"
as_str timeline = "timeline"
as_str tracking_status = "tracking_status"

pub data BroadcastMessage : Type 0 where
  tracking_status_update : TrackingStatus → BroadcastMessage
  apps_update : List App → BroadcastMessage
  timeline_update : List Timeline → BroadcastMessage
  client_connected client_disconnected : ℕ → BroadcastMessage
  subscribe unsubscribe : ℕ → List SubscriptionTopic → BroadcastMessage

-- A client: the topics that it subscribed to, what waits in its channel, and whether the channel's
-- receiver is still held.
pub record WebSocketClient : Type 0 where
  pub id : ℕ
  pub subscriptions : List SubscriptionTopic
  pub inbox : List String
  pub connected : Bool

-- serde_json, which prints the payloads and the messages around them.
pub record Printer : Type 0 where
  pub value_json : Json → Option String
  pub app_json : App → Option String
  pub checkpoints_json : List Checkpoint → Option String
  pub counts_json : List SessionCount → Option String
  pub statistics_json : List AppStatistics → Option String
  -- The object of a checkpoint's id and its rows, as `json!` builds and prints it.
  pub durations_text : I32 → List Checkpoint → String
  pub status_json : TrackingStatus → Option String
  pub apps_json : List App → Option String
  pub timeline_json : List Timeline → Option String
  pub message_json : String → String → Option String

-- The `HashMap<ClientId, WebSocketClient>`, which holds each client under its id.
abbrev pub Clients : Type 0
Clients = List WebSocketClient

unfoldable pub get_client : ℕ → Clients → Option WebSocketClient
get_client id [] = none
get_client id (c ∷ cs) = if c.id == id then some c else get_client id cs

unfoldable pub insert_client : WebSocketClient → Clients → Clients
insert_client new [] = new ∷ []
insert_client new (c ∷ cs) = if c.id == new.id then new ∷ cs else c ∷ insert_client new cs

-- `clients.get_mut(&id)`, changed by `f`.
unfoldable pub change_client : ℕ → (WebSocketClient → WebSocketClient) → Clients → Clients
change_client id f [] = []
change_client id f (c ∷ cs) = if c.id == id then f c ∷ cs else c ∷ change_client id f cs

unfoldable pub delete_client : ℕ → Clients → Clients
delete_client id [] = []
delete_client id (c ∷ cs) = if c.id == id then cs else c ∷ delete_client id cs

-- `HashSet::contains`, `insert` and `remove` on the topics.
abbrev pub is_subscribed : SubscriptionTopic → List SubscriptionTopic → Bool
is_subscribed t = any (topic_eq t)

abbrev pub add_topic : SubscriptionTopic → List SubscriptionTopic → List SubscriptionTopic
add_topic t ts = if is_subscribed t ts then ts else t ∷ ts

abbrev pub drop_topic : SubscriptionTopic → List SubscriptionTopic → List SubscriptionTopic
drop_topic t = filter (λ u. not (topic_eq t u))

abbrev pub apply_topics :
    Bool → List SubscriptionTopic → List SubscriptionTopic → List SubscriptionTopic
apply_topics on [] subs = subs
apply_topics on (t ∷ ts) subs =
    apply_topics on ts (if on then add_topic t subs else drop_topic t subs)

unfoldable pub handle_subscription : ℕ → List SubscriptionTopic → Bool → Clients → Clients
handle_subscription client_id topics on =
    change_client client_id
      (λ c. record c { subscriptions = apply_topics on topics c.subscriptions })

-- `client.sender.send(message)`, for the clients that subscribed.
abbrev pub send_to : SubscriptionTopic → String → WebSocketClient → WebSocketClient
send_to topic message c =
    if is_subscribed topic c.subscriptions && c.connected
    then record c { inbox = c.inbox ++ message ∷ [] }
    else c

abbrev pub is_lost : SubscriptionTopic → WebSocketClient → Bool
is_lost topic c = is_subscribed topic c.subscriptions && not c.connected

abbrev pub delete_clients : List ℕ → Clients → Clients
delete_clients [] cs = cs
delete_clients (id ∷ ids) cs = delete_clients ids (delete_client id cs)

abbrev pub lost_clients : SubscriptionTopic → Clients → List ℕ
lost_clients topic cs = map (λ c. c.id) (filter (is_lost topic) cs)

unfoldable pub broadcast_to_subscribers : SubscriptionTopic → Option String → Clients → Clients
broadcast_to_subscribers topic none cs = cs
broadcast_to_subscribers topic (some message) cs =
    let disconnected_clients = lost_clients topic cs in
    let sent = map (send_to topic message) cs in
    if is_empty disconnected_clients then sent else delete_clients disconnected_clients sent

abbrev pub and_print : Option String → (String → Option String) → Option String
and_print none k = none
and_print (some json) k = k json

-- `message.to_json().ok()`
abbrev pub to_json : Printer → WebSocketMessage → Option String
to_json s m = s.message_json (message_tag m) (message_payload m)

module _ (s : Printer) where
  abbrev pub create_tracking_status_message : TrackingStatus → Option String
  create_tracking_status_message st =
      and_print (s.status_json st) (λ json. to_json s (tracking_status_update_message json))

  abbrev pub create_apps_message : List App → Option String
  create_apps_message l = and_print (s.apps_json l) (λ json. to_json s (apps_list_message json))

  abbrev pub create_timeline_message : List Timeline → Option String
  create_timeline_message rows =
      and_print (s.timeline_json rows) (λ json. to_json s (timeline_data_message json))

  -- One turn of the loop of `handle_broadcasts`.
  unfoldable pub handle_broadcast : BroadcastMessage → Clients → Clients
  handle_broadcast (tracking_status_update st) cs =
      broadcast_to_subscribers tracking_status (create_tracking_status_message st) cs
  handle_broadcast (apps_update l) cs = broadcast_to_subscribers apps (create_apps_message l) cs
  handle_broadcast (timeline_update rows) cs =
      broadcast_to_subscribers timeline (create_timeline_message rows) cs
  handle_broadcast (client_connected id) cs = cs
  handle_broadcast (client_disconnected id) cs = cs
  handle_broadcast (subscribe id topics) cs = handle_subscription id topics true cs
  handle_broadcast (unsubscribe id topics) cs = handle_subscription id topics false cs

-- What the server's threads share. `queue` is the channel to the broadcast loop.
pub record ServerState : Type 0 where
  pub tracking_status : TrackingStatus
  pub clients : Clients
  pub queue : List BroadcastMessage

abbrev pub new_server : ServerState
new_server = record { tracking_status = idle_status; clients = []; queue = [] }

abbrev pub enqueue : BroadcastMessage → ServerState → ServerState
enqueue m s = record s { queue = s.queue ++ m ∷ [] }

abbrev pub add_client : WebSocketClient → ServerState → ServerState
add_client c s = enqueue (client_connected c.id) (record s { clients = insert_client c s.clients })

abbrev pub remove_client : ℕ → ServerState → ServerState
remove_client id s =
    enqueue (client_disconnected id) (record s { clients = delete_client id s.clients })

abbrev pub broadcast_tracking_status : TrackingStatus → ServerState → ServerState
broadcast_tracking_status st s =
    enqueue (tracking_status_update st) (record s { tracking_status = st })

abbrev pub broadcast_apps_update : List App → ServerState → ServerState
broadcast_apps_update l = enqueue (apps_update l)

abbrev pub broadcast_timeline_update : List Timeline → ServerState → ServerState
broadcast_timeline_update rows = enqueue (timeline_update rows)

abbrev pub subscribe_client : ℕ → List SubscriptionTopic → ServerState → ServerState
subscribe_client id topics = enqueue (subscribe id topics)

abbrev pub unsubscribe_client : ℕ → List SubscriptionTopic → ServerState → ServerState
unsubscribe_client id topics = enqueue (unsubscribe id topics)

-- `handle_connection`: a client is added with a channel that nobody reads, and gets its own channel
-- once the initial status is sent; the client is removed again if that fails.
abbrev pub new_client : ℕ → WebSocketClient
new_client id = record { id = id; subscriptions = []; inbox = []; connected = false }

abbrev pub install_sender : ℕ → ServerState → ServerState
install_sender id s = record s {
  clients = change_client id (λ c. record c { inbox = []; connected = true }) s.clients;
}
