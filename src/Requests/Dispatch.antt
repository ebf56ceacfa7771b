-- ===== src/Requests/Dispatch.antt =====
-- websocket/handlers.rs: handle_message_with_client_id.
use time_tracker.Common.{ℕ, String, Option, Result, ok_or}
use time_tracker.Messages.{
  WebSocketCommand, get_apps, get_timeline, get_app_by_name, add_process, delete_process,
  get_tracking_status, get_statistics, get_session_counts, get_checkpoints, create_checkpoint,
  set_active_checkpoint, delete_checkpoint, get_active_checkpoints, get_checkpoint_stats,
  update_config, subscribe, unsubscribe, command_of,
}
use time_tracker.Websocket.{ServerState}
use time_tracker.Handlers.{handle_subscribe, handle_unsubscribe}
use time_tracker.Requests.{World, Clock, S, ◌>>=◌, lift, parse_payload}
use time_tracker.Requests.Apps.{
  handle_get_apps, handle_get_timeline, handle_get_app_by_name, handle_add_process,
  handle_delete_process, handle_get_tracking_status,
}
use time_tracker.Requests.Checkpoints.{
  handle_get_checkpoints, handle_create_checkpoint, handle_set_active_checkpoint,
  handle_delete_checkpoint, handle_get_active_checkpoints, handle_get_checkpoint_stats,
}
use time_tracker.Requests.Reports.{
  handle_get_session_counts, handle_get_statistics, handle_update_config,
}

-- A handler that changes the server's state only.
unfoldable pub on_server : (ServerState → ServerState × Result String) → S String
on_server f st = let done = f st.server in (record st { server = done.0 }, done.1)

module _ (w : World) (clock : Clock) (client_id : Option ℕ) where
  unfoldable pub handle_command : WebSocketCommand → S String
  handle_command (get_apps payload) = handle_get_apps w
  handle_command (get_timeline payload) = handle_get_timeline w
  handle_command (get_app_by_name payload) = handle_get_app_by_name w payload
  handle_command (add_process payload) = handle_add_process w payload
  handle_command (delete_process payload) = handle_delete_process w payload
  handle_command (get_checkpoints payload) = handle_get_checkpoints w payload
  handle_command (create_checkpoint payload) = handle_create_checkpoint w clock payload
  handle_command (set_active_checkpoint payload) = handle_set_active_checkpoint w clock payload
  handle_command (delete_checkpoint payload) = handle_delete_checkpoint w payload
  handle_command (get_active_checkpoints payload) = handle_get_active_checkpoints w payload
  handle_command (get_tracking_status payload) = handle_get_tracking_status w
  handle_command (get_session_counts payload) = handle_get_session_counts w
  handle_command (get_statistics payload) = handle_get_statistics w clock
  handle_command (get_checkpoint_stats payload) = handle_get_checkpoint_stats w payload
  handle_command (update_config payload) = handle_update_config w payload
  handle_command (subscribe payload) = lift (parse_payload w.reader payload) >>= λ params.
      on_server (handle_subscribe w.printer w.reader.read_id client_id params)
  handle_command (unsubscribe payload) = lift (parse_payload w.reader payload) >>= λ params.
      on_server (handle_unsubscribe w.printer w.reader.read_id client_id params)

  -- `text` is what `msg.to_text()` gave. Of serde's errors the text is not modelled.
  unfoldable pub handle_message : Result String → S String
  handle_message text = do
    json ← lift text
    tagged ← lift (w.reader.read_tagged json)
    command ← lift (ok_or (command_of tagged.0 tagged.1) "unknown variant")
    handle_command command
