-- ===== src/Tests/Servers.antt =====
-- The theorems on the websocket server, on two clients, and on the statistics.
use time_tracker.Common.{
  String, ℕ, ◌≡◌, refl, true, some, none, ◌⊎◌, err, List, [], ◌∷◌, ◌++◌, ◌≤◌, arith,
}
use time_tracker.Structs.{Timeline}
use time_tracker.Json.{Fields, field, end}
use time_tracker.Handlers.{handle_subscribe, handle_unsubscribe}
use time_tracker.Handlers.Topics.{strings, Asks, handle_subscribe_lem}
use time_tracker.Statistics.{add_entry, fold_entries, calculate_duration_statistics}
use time_tracker.Statistics.Sums.{calculate_duration_statistics_lem}
use time_tracker.Websocket.{
  SubscriptionTopic, apps, BroadcastMessage, apps_update, timeline_update, subscribe, unsubscribe,
  WebSocketClient, Printer, Clients, get_client, handle_broadcast,
}
use time_tracker.Websocket.Delivery.{
  turn_of, handle_broadcast-get_client, handle_broadcasts, handle_broadcasts-get_client, texts_run,
  topics_run,
}
use time_tracker.Websocket.Clients.{IsKeyed, then_client}
use time_tracker.Websocket.Server.{}
use time_tracker.Websocket.{new_server}

abbrev pub printer : Printer
printer = record {
  value_json = λ v. some "value";
  app_json = λ a. a.name;
  checkpoints_json = λ l. some "[]";
  counts_json = λ l. some "[]";
  statistics_json = λ l. some "[]";
  durations_text = λ id l. "{}";
  status_json = λ s. some "{}";
  apps_json = λ l. some "[]";
  timeline_json = λ rows. none;
  message_json = λ kind payload. some payload;
}

abbrev pub client : ℕ → WebSocketClient
client id = record { id = id; subscriptions = []; inbox = []; connected = true }

abbrev pub clients : Clients
clients = client 1 ∷ client 2 ∷ []

pub clients-IsKeyed : IsKeyed clients
unfolding get_client
clients-IsKeyed = (refl, (refl, tt))

pub second : get_client 2 clients ≡ some (client 2)
unfolding get_client
second = refl

abbrev pub messages : List BroadcastMessage
messages = apps_update [] ∷ subscribe 2 (apps ∷ []) ∷ apps_update [] ∷ timeline_update [] ∷ []

handle_broadcasts-get_client_example :
    get_client 2 (handle_broadcasts printer messages clients)
    ≡ some (record (client 2) {
      subscriptions = topics_run 2 messages [];
      inbox = [] ++ texts_run printer 2 messages [];
    })
handle_broadcasts-get_client_example =
    handle_broadcasts-get_client printer messages 2 clients (client 2) clients-IsKeyed second refl

handle_broadcast-get_client_example :
    (get_client 2 (handle_broadcast printer (subscribe 2 (apps ∷ [])) clients)
      ≡ then_client (get_client 2 clients) (turn_of printer 2 (subscribe 2 (apps ∷ []))))
    × IsKeyed (handle_broadcast printer (subscribe 2 (apps ∷ [])) clients)
handle_broadcast-get_client_example =
    handle_broadcast-get_client printer (subscribe 2 (apps ∷ [])) 2 clients clients-IsKeyed

abbrev pub entry : ℕ → ℕ → Timeline
entry day n = record { id = 1; date = some day; duration = some n; app_id = some 1 }

abbrev pub entries : List Timeline
entries = entry 1000 5 ∷ entry 995 6 ∷ entry 980 7 ∷ entry 900 8 ∷ []

calculate_duration_statistics_lem_example :
    (calculate_duration_statistics 1000 entries
      ≡ record { total = 26; sessions = 4; today_sum = 5; week_sum = 11; month_sum = 18 })
    × (5 ≤ 11)
    × (11 ≤ 18)
    × (18 ≤ 26)
unfolding calculate_duration_statistics fold_entries add_entry
calculate_duration_statistics_lem_example =
    calculate_duration_statistics_lem 1000 entries (omega arith) (omega arith)

abbrev pub payload : Fields
payload = field "topics" (strings ("apps" ∷ "timeline" ∷ [])) end

handle_subscribe_lem_example :
    ((ts : List SubscriptionTopic) × Asks payload ts
      × ((handle_subscribe printer (λ v. none) (some 7) payload new_server).0
          ≡ record new_server { queue = [] ++ subscribe 7 ts ∷ [] })
      × ((handle_unsubscribe printer (λ v. none) (some 7) payload new_server).0
          ≡ record new_server { queue = [] ++ unsubscribe 7 ts ∷ [] }))
    ⊎ ((x : String) × ((ts : List SubscriptionTopic) → Asks payload ts → ⊥)
        × (handle_subscribe printer (λ v. none) (some 7) payload new_server ≡ (new_server, err x))
        × (handle_unsubscribe printer (λ v. none) (some 7) payload new_server
            ≡ (new_server, err x)))
handle_subscribe_lem_example = handle_subscribe_lem printer (λ v. none) 7 payload new_server
