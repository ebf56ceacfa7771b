-- ===== src/Tests/Requests.antt =====
-- The theorems on requests, in a small world.
use Prim.Native.String.{◌++◌ as ◌+++◌}
use time_tracker.Common.{
  String, Option, ◌≡◌, refl, true, false, none, some, List, [], ◌∷◌, map, Has, ◌⊎◌, ok, err,
}
use time_tracker.Common.Word.{rank}
use time_tracker.Json.{array, of_list, string}
use time_tracker.Entities.{AppModel, TimelineModel, CheckpointModel}
use time_tracker.Store.{apps, checkpoints}
use time_tracker.Store.Engine.{asc, desc, Selects, Relates}
use time_tracker.Store.Memory.{memory, memory-Lawful, memory-Reliable}
use time_tracker.Queries.{by_id}
use time_tracker.Structs.{AppStatistics}
use time_tracker.Requests.Reports.{handle_get_session_counts, handle_get_statistics}
use time_tracker.Requests.Reporting.{
  sessions_of, AreStatistics, handle_get_session_counts_lem, handle_get_statistics_lem,
}
use time_tracker.Requests.Entries.{entry_json, handle_get_timeline_lem}
use time_tracker.Events.{by_name}
use time_tracker.Rows.Shown.{shown_app, shown_checkpoint}
use time_tracker.Messages
use time_tracker.Messages.{
  wrap_text, command_of, session_counts_data_message, statistics_data_message,
  timeline_data_message, apps_list_message, app_message, checkpoints_list_message,
}
use time_tracker.Websocket.{get_client}
use time_tracker.Registry.Names.{IsRegistered}
use time_tracker.Registry.Consistent.{apply_requests-start}
use time_tracker.Requests.{display, missing_parameter, parse_payload, i32_param}
use time_tracker.Requests.Apps.{
  handle_get_apps, handle_get_timeline, handle_get_app_by_name, handle_add_process,
  handle_delete_process,
}
use time_tracker.Requests.Checkpoints.{handle_get_checkpoints}
use time_tracker.Requests.Dispatch.{handle_command}
use time_tracker.Requests.Reading.{handle_command-question}
use time_tracker.Requests.Missing.{handle_command-missing}
use time_tracker.Requests.Listing.{
  answer, asked_for, handle_get_apps_lem, handle_get_checkpoints_lem,
}
use time_tracker.Requests.Finding.{handle_get_app_by_name_lem}
use time_tracker.Requests.Sound.{IsSound, Arrival, serve, serve-IsSound}
use time_tracker.Requests.Connection.{Round, message, closes, handle_connection}
use time_tracker.Requests.Connection.Ends.{handle_connection-IsSound}
use time_tracker.Rpc.{rpc_add_process, rpc_delete_process}
use time_tracker.Rpc.Agreement.{
  Agree, rpc_add_process-handle_add_process, rpc_delete_process-handle_delete_process,
}
use time_tracker.Tests.{silent, two_checkpoints}
use time_tracker.Tests.Checkpoints.{
  two_checkpoints-IsConsistent, two_checkpoints-IsUnique, at_start, starts_up,
}
use time_tracker.Tests.Worlds.{world, clock, service, quake_params, world-IsUsual}

at_start-IsRegistered : IsRegistered at_start
at_start-IsRegistered =
    apply_requests-start memory silent memory-Lawful [] two_checkpoints at_start
      two_checkpoints-IsUnique starts_up

service-IsSound : IsSound service
service-IsSound = record {
  consistent = two_checkpoints-IsConsistent;
  registered = at_start-IsRegistered;
  keyed = tt;
}

abbrev arrival : String → Arrival
arrival tag = record { clock = clock; client_id = some 7; text = ok tag }

abbrev arrivals : List Arrival
arrivals =
    arrival "add_process"
    ∷ arrival "set_active_checkpoint"
    ∷ arrival "delete_process"
    ∷ record { clock = clock; client_id = none; text = err "no text" }
    ∷ []

serve-IsSound_example : IsSound (serve world arrivals service)
serve-IsSound_example = serve-IsSound world memory-Lawful arrivals service service-IsSound

handle_command-question_example :
    (handle_command world clock (some 7) (Messages.get_checkpoints "payload") service).0 ≡ service
handle_command-question_example =
    handle_command-question world clock (some 7) (Messages.get_checkpoints "payload") service refl

parsed : parse_payload world.reader "payload" ≡ ok quake_params
unfolding parse_payload
parsed = refl

handle_command-missing_example :
    handle_command world clock (some 7) (Messages.create_checkpoint "payload") service
    ≡ (service, err (display (missing_parameter "app_id")))
handle_command-missing_example =
    handle_command-missing world clock (some 7) quake_params (display (missing_parameter "app_id"))
      (Messages.create_checkpoint "payload") service parsed refl

handle_get_apps_lem_example :
    (xs : List AppModel) × Selects apps (λ r. true) (asc (λ r. rank r.id)) two_checkpoints xs
    × (handle_get_apps world service ≡ (
      service,
      answer world.printer
          (world.printer.apps_json (map shown_app xs))
          "Failed to serialize apps"
          apps_list_message,
    ))
handle_get_apps_lem_example = handle_get_apps_lem world service world-IsUsual

handle_get_checkpoints_lem_example :
    (xs : List CheckpointModel) × Selects checkpoints
      (asked_for world service world-IsUsual (i32_param quake_params "app_id"))
      (desc by_id)
      two_checkpoints
      xs
    × (handle_get_checkpoints world "payload" service ≡ (
      service,
      answer world.printer
          (world.printer.checkpoints_json (map shown_checkpoint xs))
          "Failed to serialize checkpoints"
          checkpoints_list_message,
    ))
handle_get_checkpoints_lem_example =
    handle_get_checkpoints_lem world service world-IsUsual "payload" quake_params parsed

handle_get_app_by_name_lem_example :
    ((a : AppModel) × Has a two_checkpoints.apps
      × (by_name "quake" a ≡ true)
      × (handle_get_app_by_name world "payload" service ≡ (
        service,
        answer world.printer
            (world.printer.app_json (shown_app a))
            "Failed to serialize app"
            app_message,
      )))
    ⊎ (((a : AppModel) → Has a two_checkpoints.apps → by_name "quake" a ≡ false)
        × (handle_get_app_by_name world "payload" service
            ≡ (service, err ("App '" +++ ("quake" +++ "' not found")))))
handle_get_app_by_name_lem_example =
    handle_get_app_by_name_lem world service world-IsUsual "payload" "quake" quake_params parsed
      refl refl

abbrev round : Round
round = record {
  clock = clock;
  incoming = message (ok "add_process");
  sends_outgoing = true;
  sends_answer = true;
}

abbrev rounds : List Round
rounds = round ∷ record round { incoming = closes } ∷ []

handle_connection-IsSound_example :
    IsSound (handle_connection world 7 true rounds service).service
    × ((handle_connection world 7 true rounds service).goes_on ≡ false
        → get_client 7 (handle_connection world 7 true rounds service).service.server.clients
          ≡ none)
handle_connection-IsSound_example =
    handle_connection-IsSound world memory-Lawful 7 true rounds service service-IsSound

rpc_add_process-handle_add_process_example :
    Agree
      (wrap_text "message" "Successfully added process: tetris")
      "process successfully added"
      (rpc_add_process world (some (string "tetris" ∷ string "/games/tetris" ∷ [])) service)
      (handle_add_process world "payload" service)
rpc_add_process-handle_add_process_example =
    rpc_add_process-handle_add_process world "payload" quake_params "tetris" [] parsed refl
      (wrap_text "message" "Successfully added process: tetris") "/games/tetris" service refl refl

rpc_delete_process-handle_delete_process_example :
    Agree
      (wrap_text "message" "Successfully deleted process: tetris")
      "process successfully deleted"
      (rpc_delete_process world (some (string "tetris" ∷ [])) service)
      (handle_delete_process world "payload" service)
rpc_delete_process-handle_delete_process_example =
    rpc_delete_process-handle_delete_process world "payload" quake_params "tetris" [] parsed refl
      (wrap_text "message" "Successfully deleted process: tetris") service refl

handle_get_session_counts_lem_example :
    (xs : List AppModel) × Selects apps (λ r. true) (asc (λ r. rank r.id)) two_checkpoints xs
    × (handle_get_session_counts world service ≡ (
      service,
      answer world.printer
          (world.printer.counts_json (map (λ r. sessions_of two_checkpoints r.id) xs))
          "Failed to serialize session counts"
          session_counts_data_message,
    ))
handle_get_session_counts_lem_example =
    handle_get_session_counts_lem world memory-Lawful memory-Reliable service

handle_get_statistics_lem_example :
    (xs : List AppModel) × Selects apps (λ r. true) (asc (λ r. rank r.id)) two_checkpoints xs
    × ((stats : List AppStatistics) × AreStatistics world clock service world-IsUsual
          (map shown_app xs)
          stats
        × (handle_get_statistics world clock service ≡ (
          service,
          answer world.printer
              (world.printer.statistics_json stats)
              "Failed to serialize statistics"
              statistics_data_message,
        )))
handle_get_statistics_lem_example = handle_get_statistics_lem world clock service world-IsUsual

handle_get_timeline_lem_example :
    (xs : List (TimelineModel × Option CheckpointModel)) × Relates
      (desc (λ r. r.date))
      two_checkpoints
      xs
    × (handle_get_timeline world service ≡ (
      service,
      answer world.printer
          (world.printer.value_json (array (of_list (map (entry_json world.calendar) xs))))
          "Failed to serialize timeline data"
          timeline_data_message,
    ))
handle_get_timeline_lem_example = handle_get_timeline_lem world service world-IsUsual
