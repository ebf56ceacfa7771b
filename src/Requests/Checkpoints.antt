-- ===== src/Requests/Checkpoints.antt =====
-- websocket/handlers.rs: the requests about checkpoints.
use Prim.Native.String.{◌++◌ as ◌+++◌}
use time_tracker.Common.{
  String, false, none, some, List, [], ◌∷◌, if◌then◌else◌, unwrap_or, Result, ok, err,
}
use time_tracker.Common.Word.{I32}
use time_tracker.Json.{Json, get, as_bool}
use time_tracker.Text.{show_i32}
use time_tracker.Structs.{Checkpoint}
use time_tracker.Rows.{and_option, convert_to_checkpoints}
use time_tracker.Messages.{
  WebSocketMessage, success_message, checkpoints_list_message, active_checkpoints_message,
  checkpoint_stats_message,
}
use time_tracker.Queries.{
  get_checkpoints_for_app, get_all_checkpoints, create_checkpoint, set_checkpoint_active,
  delete_checkpoint, get_active_checkpoints_for_app, get_active_checkpoints,
  get_checkpoint_durations_by_ids,
}
use time_tracker.Requests.{
  World, Clock, S, ◌>>=◌, ◌>>◌, pure, lift, settled, parse_payload, extract_string_param,
  extract_i32_param, string_param, i32_param, call_db_method, converted, printed, respond,
}

module _ (w : World) where
  abbrev pub to_checkpoints : Json → List Checkpoint
  to_checkpoints = converted (convert_to_checkpoints w.printer.value_json w.calendar)

  unfoldable pub handle_get_checkpoints : String → S String
  handle_get_checkpoints payload = do
    params ← lift (parse_payload w.reader payload)
    checkpoints_data ←
        call_db_method
          (elim (i32_param params "app_id") [
            | some app_id ↦ get_checkpoints_for_app w.engine w.codec app_id
            | none ↦ get_all_checkpoints w.engine w.codec
          ])
          "Failed to retrieve checkpoints"
    checkpoints_json ←
        printed (w.printer.checkpoints_json (to_checkpoints checkpoints_data))
          "Failed to serialize checkpoints"
    respond w.printer (checkpoints_list_message checkpoints_json)

  -- The answer of `handle_create_checkpoint`: the checkpoints of the app, or a text if they cannot be read.
  abbrev pub created_response : String → Result Json → S WebSocketMessage
  created_response name (ok checkpoints_data) = do
    checkpoints_json ←
        printed (w.printer.checkpoints_json (to_checkpoints checkpoints_data))
          "Failed to serialize checkpoints"
    pure (checkpoints_list_message checkpoints_json)
  created_response name (err x) =
      pure (success_message ("Successfully created checkpoint: " +++ name))

  unfoldable pub list_created : String → I32 → S WebSocketMessage
  list_created name app_id =
      settled (
        call_db_method (get_checkpoints_for_app w.engine w.codec app_id)
          "Failed to get updated checkpoints")
      >>= created_response name

  unfoldable pub handle_create_checkpoint : Clock → String → S String
  unfolding list_created
  handle_create_checkpoint clock payload = do
    params ← lift (parse_payload w.reader payload)
    name ← lift (extract_string_param params "name")
    app_id ← lift (extract_i32_param params "app_id")
    call_db_method
        (create_checkpoint w.engine name (string_param params "description") app_id clock.now)
        ("Failed to create checkpoint '" +++ (name +++ "'"))
    response ← list_created name app_id
    respond w.printer response

  unfoldable pub handle_set_active_checkpoint : Clock → String → S String
  handle_set_active_checkpoint clock payload = do
    params ← lift (parse_payload w.reader payload)
    checkpoint_id ← lift (extract_i32_param params "checkpoint_id")
    is_active ← pure (unwrap_or (and_option (get params "is_active") as_bool) false)
    call_db_method (set_checkpoint_active w.engine checkpoint_id is_active clock.earlier clock.now)
        ("Failed to update checkpoint " +++ show_i32 checkpoint_id)
    respond w.printer (
        success_message (
          "Successfully "
          +++ ((if is_active then "activated" else "deactivated")
              +++ (" checkpoint with ID: " +++ show_i32 checkpoint_id))))

  unfoldable pub handle_delete_checkpoint : String → S String
  handle_delete_checkpoint payload = do
    params ← lift (parse_payload w.reader payload)
    checkpoint_id ← lift (extract_i32_param params "checkpoint_id")
    call_db_method (delete_checkpoint w.engine checkpoint_id)
        ("Failed to delete checkpoint " +++ show_i32 checkpoint_id)
    respond w.printer
        (success_message ("Successfully deleted checkpoint with ID: " +++ show_i32 checkpoint_id))

  unfoldable pub handle_get_active_checkpoints : String → S String
  handle_get_active_checkpoints payload = do
    params ← lift (parse_payload w.reader payload)
    active_checkpoints_data ← elim (i32_param params "app_id") [
      | some app_id ↦
          call_db_method (get_active_checkpoints_for_app w.engine w.codec app_id)
            ("Failed to get active checkpoints for app " +++ show_i32 app_id)
      | none ↦
          call_db_method (get_active_checkpoints w.engine w.codec)
            "Failed to get active checkpoints"
    ]
    checkpoints_json ←
        printed (w.printer.checkpoints_json (to_checkpoints active_checkpoints_data))
          "Failed to serialize active checkpoints"
    respond w.printer (active_checkpoints_message checkpoints_json)

  unfoldable pub handle_get_checkpoint_stats : String → S String
  handle_get_checkpoint_stats payload = do
    params ← lift (parse_payload w.reader payload)
    checkpoint_id ← lift (extract_i32_param params "checkpoint_id")
    durations_data ←
        call_db_method (get_checkpoint_durations_by_ids w.engine w.codec (checkpoint_id ∷ []))
          ("Failed to get durations for checkpoint " +++ show_i32 checkpoint_id)
    respond w.printer (
        checkpoint_stats_message
          (w.printer.durations_text checkpoint_id (to_checkpoints durations_data)))
