-- ===== src/Requests/Apps.antt =====
-- websocket/handlers.rs: the requests about apps and processes.
use Prim.Native.String.{◌++◌ as ◌+++◌}
use time_tracker.Common.{String, true, Option, List, [], ◌∷◌, filter, head?, is_text, ok, ok_or}
use time_tracker.Structs.{App}
use time_tracker.Rows.{convert_to_apps}
use time_tracker.Messages.{
  success_message, apps_list_message, timeline_data_message, app_message, tracking_status_message,
}
use time_tracker.Websocket.{ServerState, broadcast_apps_update, broadcast_timeline_update}
use time_tracker.Events.{Broadcast, apps_update, timeline_update, get_all_apps}
use time_tracker.Queries.{get_timeline_with_checkpoints}
use time_tracker.Registry.{Outcome, Registry, add_process, delete_process}
use time_tracker.Requests.{
  World, S, ◌>>=◌, ◌>>◌, pure, lift, asks, with_context, parse_payload, extract_string_param,
  call_db_method, converted, printed, respond,
}

-- What a function of the program hands to the broadcaster reaches the server's channel.
unfoldable pub deliver : List Broadcast → ServerState → ServerState
deliver [] s = s
deliver (apps_update l ∷ bs) s = deliver bs (broadcast_apps_update l s)
deliver (timeline_update rows ∷ bs) s = deliver bs (broadcast_timeline_update rows s)

-- A call of add_process or delete_process, its error behind a text. The server is running, so there is
-- a broadcaster.
unfoldable pub change_registry : (Registry → Outcome) → String → S (Unit {0})
change_registry change context st =
    let out = change st.registry in
    (
      record st { registry = out.registry; server = deliver out.sent st.server },
      with_context context out.answer,
    )

module _ (w : World) where
  -- The apps as both requests below read them.
  unfoldable pub listed_apps : S (List App)
  listed_apps = do
    apps_data ← call_db_method (get_all_apps w.engine w.codec) "Failed to retrieve apps"
    pure (converted (convert_to_apps w.printer.value_json w.calendar) apps_data)

  unfoldable pub handle_get_apps : S String
  unfolding listed_apps
  handle_get_apps = do
    apps ← listed_apps
    apps_json ← printed (w.printer.apps_json apps) "Failed to serialize apps"
    respond w.printer (apps_list_message apps_json)

  unfoldable pub handle_get_timeline : S String
  handle_get_timeline = do
    timeline_data ←
        call_db_method (get_timeline_with_checkpoints w.engine w.codec)
          "Failed to retrieve timeline data"
    timeline_json ← printed (w.printer.value_json timeline_data) "Failed to serialize timeline data"
    respond w.printer (timeline_data_message timeline_json)

  abbrev pub find_app : String → List App → Option App
  find_app app_name apps = head? (filter (λ (app : App). is_text app.name app_name) apps)

  unfoldable pub handle_get_app_by_name : String → S String
  unfolding listed_apps
  handle_get_app_by_name payload = do
    params ← lift (parse_payload w.reader payload)
    app_name ← lift (extract_string_param params "name")
    apps ← listed_apps
    found_app ← lift (ok_or (find_app app_name apps) ("App '" +++ (app_name +++ "' not found")))
    app_json ← printed (w.printer.app_json found_app) "Failed to serialize app"
    respond w.printer (app_message app_json)

  unfoldable pub handle_add_process : String → S String
  unfolding change_registry
  handle_add_process payload = do
    params ← lift (parse_payload w.reader payload)
    process_name ← lift (extract_string_param params "process_name")
    path ← lift (extract_string_param params "path")
    change_registry (add_process w.engine w.codec true process_name (w.reader.ver_query_value path))
        ("Failed to add process '" +++ (process_name +++ "'"))
    respond w.printer (success_message ("Successfully added process: " +++ process_name))

  unfoldable pub handle_delete_process : String → S String
  unfolding change_registry
  handle_delete_process payload = do
    params ← lift (parse_payload w.reader payload)
    process_name ← lift (extract_string_param params "process_name")
    change_registry (delete_process w.engine w.codec true process_name)
        ("Failed to delete process '" +++ (process_name +++ "'"))
    respond w.printer (success_message ("Successfully deleted process: " +++ process_name))

  unfoldable pub handle_get_tracking_status : S String
  handle_get_tracking_status = do
    status ← asks (λ st. ok st.server.tracking_status)
    status_json ← printed (w.printer.status_json status) "Failed to serialize tracking status"
    respond w.printer (tracking_status_message status_json)
