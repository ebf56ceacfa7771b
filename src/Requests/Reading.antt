-- ===== src/Requests/Reading.antt =====
-- The commands that only ask.
use time_tracker.Common.{ℕ, ◌≡◌, Bool, true, false, Option}
use time_tracker.Messages.{
  WebSocketCommand, get_apps, get_timeline, get_app_by_name, add_process, delete_process,
  get_tracking_status, get_statistics, get_session_counts, get_checkpoints, create_checkpoint,
  set_active_checkpoint, delete_checkpoint, get_active_checkpoints, get_checkpoint_stats,
  update_config, subscribe, unsubscribe,
}
use time_tracker.Requests.{Service, World, Clock}
use time_tracker.Requests.Dispatch.{handle_command}
use time_tracker.Requests.Quiet.{
  Quiet, handle_get_apps-Quiet, handle_get_timeline-Quiet, handle_get_app_by_name-Quiet,
  handle_get_tracking_status-Quiet, handle_get_checkpoints-Quiet,
  handle_get_active_checkpoints-Quiet, handle_get_checkpoint_stats-Quiet,
  handle_get_session_counts-Quiet, handle_get_statistics-Quiet,
}

-- The commands whose names begin with `get`.
abbrev pub is_question : WebSocketCommand → Bool
is_question (add_process payload) = false
is_question (delete_process payload) = false
is_question (create_checkpoint payload) = false
is_question (set_active_checkpoint payload) = false
is_question (delete_checkpoint payload) = false
is_question (update_config payload) = false
is_question (subscribe payload) = false
is_question (unsubscribe payload) = false
is_question _ = true

module _ (w : World) (clock : Clock) (client_id : Option ℕ) where
  refuse : {P : Type 0} → false ≡ true → P
  refuse h = cc

  pub handle_command-Quiet :
      (command : WebSocketCommand)
      → is_question command ≡ true
      → Quiet (handle_command w clock client_id command)
  unfolding handle_command
  handle_command-Quiet (get_apps payload) h = handle_get_apps-Quiet w
  handle_command-Quiet (get_timeline payload) h = handle_get_timeline-Quiet w
  handle_command-Quiet (get_app_by_name payload) h = handle_get_app_by_name-Quiet w payload
  handle_command-Quiet (get_tracking_status payload) h = handle_get_tracking_status-Quiet w
  handle_command-Quiet (get_statistics payload) h = handle_get_statistics-Quiet w clock
  handle_command-Quiet (get_session_counts payload) h = handle_get_session_counts-Quiet w
  handle_command-Quiet (get_checkpoints payload) h = handle_get_checkpoints-Quiet w payload
  handle_command-Quiet (get_active_checkpoints payload) h =
      handle_get_active_checkpoints-Quiet w payload
  handle_command-Quiet (get_checkpoint_stats payload) h =
      handle_get_checkpoint_stats-Quiet w payload
  handle_command-Quiet (add_process payload) h = refuse h
  handle_command-Quiet (delete_process payload) h = refuse h
  handle_command-Quiet (create_checkpoint payload) h = refuse h
  handle_command-Quiet (set_active_checkpoint payload) h = refuse h
  handle_command-Quiet (delete_checkpoint payload) h = refuse h
  handle_command-Quiet (update_config payload) h = refuse h
  handle_command-Quiet (subscribe payload) h = refuse h
  handle_command-Quiet (unsubscribe payload) h = refuse h

  -- A command that asks for data, with any payload and whichever calls of the database fail, changes
  -- neither the database, nor the process map, nor the server's state, nor the delays.
  pub handle_command-question :
      (command : WebSocketCommand) (st : Service)
      → is_question command ≡ true
      → (handle_command w clock client_id command st).0 ≡ st
  handle_command-question command st h = (handle_command-Quiet command h).same st
