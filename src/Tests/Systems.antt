-- ===== src/Tests/Systems.antt =====
-- The theorems on the parts of the program together: threads and the event loop, requests and broadcasts,
-- the command line and the next start.
use time_tracker.Common.{
  String, ◌≡◌, refl, ap, sym, ◌∙◌, Bool, true, false, none, some, List, [], ◌∷◌, ◌++◌, map, length,
  inl, inr, ok, arith,
}
use time_tracker.Common.Map.{Map, lookup, insert}
use time_tracker.Entities.{AppModel}
use time_tracker.Store.{Db, apps}
use time_tracker.Store.Memory.{memory, memory-Lawful, memory-Reliable}
use time_tracker.Queries.Activation.{Keyed}
use time_tracker.Registry.{
  Registry, Outcome, add_process, add_unless_known, finish_add, start, load_processes,
}
use time_tracker.Events.{
  duration, timeline_tick, get_processes, put_data, insert_app, broadcast_apps,
}
use time_tracker.Processes.{are_processes_running}
use time_tracker.Processes.Windows.{
  entries, live, nt_are_processes_running, nt_are_processes_running-are_processes_running,
}
use time_tracker.Tracker.{ProcessMap, check_round}
use time_tracker.Tracker.Counting.{System, count_threads}
use time_tracker.Tracker.Single.{Reach, adds, here, next}
use time_tracker.Tracker.Progress.{start_all, check_round-start_thread}
use time_tracker.Tracker.Threads.{run_thread_lem}
use time_tracker.Tracker.Totals.{Received, at_id, ticked, handle_events, run_thread-handle_events}
use time_tracker.Websocket.{
  SubscriptionTopic, apps_update, apply_topics, get_client, ServerState, new_server,
  broadcast_apps_update,
}
use time_tracker.Websocket.Delivery.{texts_run, topics_run}
use time_tracker.Websocket.Server.{serve_all}
use time_tracker.Websocket.Updates.{turns_of}
use time_tracker.Handlers.{handle_subscribe}
use time_tracker.Handlers.Updates.{handle_subscribe-broadcast_apps_update}
use time_tracker.CommandLine.{
  Postgres, db_url, db_url_lem, AddArgs, added, initialised, handle_client,
}
use time_tracker.CommandLine.Adding.{handle_client-handle_client}
use time_tracker.Tests.{app, two_checkpoints, silent}
use time_tracker.Tests.Checkpoints.{two_checkpoints-IsUnique}
use time_tracker.Tests.Trackers.{
  names, table, aliases, views, thread, covers_quake, empty_system, empty_system-IsSingle,
}
use time_tracker.Tests.Servers.{printer, client, clients, clients-IsKeyed, second, payload}
use time_tracker.Tests.Trackers
use time_tracker.Tracker.Single.{Reach-IsSingle}
use time_tracker.Tracker.Counting.{IsSingle}

added-IsSingle : IsSingle Trackers.added
unfolding lookup insert
added-IsSingle = Reach-IsSingle empty_system-IsSingle (next here (adds "quake" refl refl))

check_round-start_thread_example :
    (t : System) × Reach Trackers.added t
    × (t.pending ≡ [])
    × (count_threads "quake" t.threads ≡ 1)
    × ((pm : ProcessMap) × (spawn : List String) × (check_round names aliases table
            Trackers.added.processes
          ≡ some (pm, spawn))
        × (t.processes ≡ pm)
        × (t.threads ≡ start_all false true "noon" ([] ++ spawn) []))
unfolding lookup
check_round-start_thread_example =
    check_round-start_thread false true "noon" Trackers.added "quake" names aliases table false
      false added-IsSingle refl refl covers_quake

abbrev received : List Received
received =
    record { active = true; today = 19000; now = 5; event = ("quake", duration) }
    ∷ record { active = true; today = 19000; now = 6; event = ("quake", timeline_tick) }
    ∷ record { active = true; today = 19000; now = 7; event = ("quake", duration) }
    ∷ record { active = true; today = 19000; now = 8; event = ("quake", timeline_tick) }
    ∷ []

id_path : {r s : AppModel} → r ≡ s → r.id ≡ s.id
id_path h = ap (λ (r : AppModel). r.id) h

two_apps-Keyed : Keyed apps two_checkpoints.apps
two_apps-Keyed r s (inl m) (inl n) e = m ∙ sym n
two_apps-Keyed r s (inl m) (inr (inl n)) e = absurd (omega (arith, id_path m, id_path n, e))
two_apps-Keyed r s (inr (inl m)) (inl n) e = absurd (omega (arith, id_path m, id_path n, e))
two_apps-Keyed r s (inr (inl m)) (inr (inl n)) e = m ∙ sym n
two_apps-Keyed r s (inr (inr m)) n e = absurd m
two_apps-Keyed r s m (inr (inr n)) e = absurd n

run_thread-handle_events_example :
    (handle_events memory silent received two_checkpoints).apps
    ≡ map (at_id (ticked 2 (app 1 "quake")) 1) two_checkpoints.apps
unfolding lookup
run_thread-handle_events_example =
    run_thread-handle_events memory silent memory-Lawful memory-Reliable views thread received
      two_checkpoints (app 1 "quake") refl (omega arith)
      (sym (run_thread_lem views thread refl (omega arith)).0) (inl refl) refl
      two_checkpoints-IsUnique two_apps-Keyed

abbrev busy : ServerState
busy = record new_server { clients = clients; queue = apps_update [] ∷ apps_update [] ∷ [] }

abbrev both : List SubscriptionTopic
both = SubscriptionTopic.apps ∷ SubscriptionTopic.timeline ∷ []

handle_subscribe-broadcast_apps_update_example :
    let told =
      broadcast_apps_update [] (handle_subscribe printer (λ v. none) (some 2) payload busy).0 in
    get_client 2 (serve_all printer (turns_of (length told.queue)) told).clients
    ≡ some (record (client 2) {
      subscriptions = apply_topics true both (topics_run 2 busy.queue []);
      inbox = [] ++ (texts_run printer 2 busy.queue [] ++ "{\"apps\": []}" ∷ []);
    })
handle_subscribe-broadcast_apps_update_example =
    handle_subscribe-broadcast_apps_update printer (λ v. none) 2 payload both [] "{\"apps\": []}"
      busy (client 2) clients-IsKeyed second refl refl refl refl

nt_are_processes_running-are_processes_running_example :
    (m : Map Bool) × (nt_are_processes_running names
        (some aliases)
        (entries "quake" ("doom.x86" ∷ []))
      ≡ ok m)
    × (lookup "doom" m
        ≡ lookup "doom"
            (are_processes_running names (some aliases) (map live ("quake" ∷ "doom.x86" ∷ []))))
nt_are_processes_running-are_processes_running_example =
    nt_are_processes_running-are_processes_running names (some aliases) "quake" ("doom.x86" ∷ [])
      "doom"

abbrev postgres : Postgres
postgres = record { user = "tt"; url = "localhost"; password = none; database = some "games" }

db_url_lem_example : db_url (some postgres) ≡ some "postgres://tt@localhost:5432/games"
db_url_lem_example = db_url_lem (some postgres)

abbrev tetris : AppModel
tetris = record {
  id = 3;
  duration = some 0;
  launches = some 0;
  longest_session = some 0;
  name = some "tetris";
  product_name = some "tetris";
  longest_session_on = none;
}

abbrev db_after : Db
db_after = record two_checkpoints { apps = two_checkpoints.apps ++ tetris ∷ [] }

abbrev outcome : Outcome
outcome = record {
  registry = record { db = db_after; processes = ("tetris", (false, false)) ∷ [] };
  answer = ok tt;
  sent = [];
}

abbrev args : AddArgs
args = record { process_name = "tetris"; path = "/games/tetris" }

adds_tetris : handle_client memory silent (λ path. none) two_checkpoints (some args) ≡ added outcome
unfolding handle_client add_process add_unless_known finish_add get_processes put_data insert_app
    memory insert broadcast_apps
adds_tetris = refl

abbrev next_start : Registry
next_start = record {
  db = db_after;
  processes =
      ("quake", (false, false)) ∷ ("doom", (false, false)) ∷ ("tetris", (false, false)) ∷ [];
}

starts_again :
    handle_client memory silent (λ path. none) db_after none ≡ initialised (ok next_start)
unfolding handle_client start get_processes load_processes memory insert
starts_again = refl

handle_client-handle_client_example : lookup "tetris" next_start.processes ≡ some (false, false)
handle_client-handle_client_example =
    handle_client-handle_client memory silent memory-Lawful (λ path. none) args two_checkpoints
      outcome next_start adds_tetris refl starts_again
