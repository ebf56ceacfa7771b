-- ===== src/Messages.antt =====
-- The messages and the commands of the websocket protocol (structs.rs).
use Prim.Native.String.{◌++◌ as ◌+++◌}
use time_tracker.Common.{String, Option, none, some, if◌then◌else◌, str_eq}

pub data WebSocketMessage : Type 0 where
  apps_list : String → WebSocketMessage
  timeline_data : String → WebSocketMessage
  app : String → WebSocketMessage
  error : String → WebSocketMessage
  success : String → WebSocketMessage
  tracking_status_update : String → WebSocketMessage
  statistics_data : String → WebSocketMessage
  session_counts : String → WebSocketMessage
  checkpoints_list : String → WebSocketMessage
  checkpoint : String → WebSocketMessage
  active_checkpoints : String → WebSocketMessage
  tracking_status : String → WebSocketMessage
  session_counts_data : String → WebSocketMessage
  statistics : String → WebSocketMessage
  checkpoint_stats : String → WebSocketMessage

-- The tag and the payload that serde writes for a message.
abbrev pub message_tag : WebSocketMessage → String
message_tag (WebSocketMessage.apps_list p) = "apps_list"
message_tag (WebSocketMessage.timeline_data p) = "timeline_data"
message_tag (WebSocketMessage.app p) = "app"
message_tag (WebSocketMessage.error p) = "error"
message_tag (WebSocketMessage.success p) = "success"
message_tag (WebSocketMessage.tracking_status_update p) = "tracking_status_update"
message_tag (WebSocketMessage.statistics_data p) = "statistics_data"
message_tag (WebSocketMessage.session_counts p) = "session_counts_legacy"
message_tag (WebSocketMessage.checkpoints_list p) = "checkpoints_list"
message_tag (WebSocketMessage.checkpoint p) = "checkpoint"
message_tag (WebSocketMessage.active_checkpoints p) = "active_checkpoints"
message_tag (WebSocketMessage.tracking_status p) = "tracking_status"
message_tag (WebSocketMessage.session_counts_data p) = "session_counts"
message_tag (WebSocketMessage.statistics p) = "statistics"
message_tag (WebSocketMessage.checkpoint_stats p) = "checkpoint_stats"

abbrev pub message_payload : WebSocketMessage → String
message_payload (WebSocketMessage.apps_list p) = p
message_payload (WebSocketMessage.timeline_data p) = p
message_payload (WebSocketMessage.app p) = p
message_payload (WebSocketMessage.error p) = p
message_payload (WebSocketMessage.success p) = p
message_payload (WebSocketMessage.tracking_status_update p) = p
message_payload (WebSocketMessage.statistics_data p) = p
message_payload (WebSocketMessage.session_counts p) = p
message_payload (WebSocketMessage.checkpoints_list p) = p
message_payload (WebSocketMessage.checkpoint p) = p
message_payload (WebSocketMessage.active_checkpoints p) = p
message_payload (WebSocketMessage.tracking_status p) = p
message_payload (WebSocketMessage.session_counts_data p) = p
message_payload (WebSocketMessage.statistics p) = p
message_payload (WebSocketMessage.checkpoint_stats p) = p

-- `{"field": json}`, and the same with a text, as it is, between quotes.
abbrev pub wrap : String → String → String
wrap key json = "{\"" +++ (key +++ ("\": " +++ (json +++ "}")))

abbrev pub wrap_text : String → String → String
wrap_text key text = wrap key ("\"" +++ (text +++ "\""))

-- The functions of `impl WebSocketMessage`.
abbrev pub error_message : String → WebSocketMessage
error_message payload = WebSocketMessage.error (wrap_text "message" payload)

abbrev pub success_message : String → WebSocketMessage
success_message payload = WebSocketMessage.success (wrap_text "message" payload)

abbrev pub apps_list_message : String → WebSocketMessage
apps_list_message payload = WebSocketMessage.apps_list (wrap "apps" payload)

abbrev pub timeline_data_message : String → WebSocketMessage
timeline_data_message payload = WebSocketMessage.timeline_data (wrap "timeline" payload)

abbrev pub app_message : String → WebSocketMessage
app_message payload = WebSocketMessage.app (wrap "app" payload)

abbrev pub checkpoints_list_message : String → WebSocketMessage
checkpoints_list_message payload = WebSocketMessage.checkpoints_list (wrap "checkpoints" payload)

abbrev pub active_checkpoints_message : String → WebSocketMessage
active_checkpoints_message payload =
    WebSocketMessage.active_checkpoints (wrap "active_checkpoints" payload)

abbrev pub tracking_status_message : String → WebSocketMessage
tracking_status_message payload = WebSocketMessage.tracking_status (wrap "status" payload)

abbrev pub tracking_status_update_message : String → WebSocketMessage
tracking_status_update_message payload =
    WebSocketMessage.tracking_status_update (wrap "status" payload)

abbrev pub session_counts_data_message : String → WebSocketMessage
session_counts_data_message payload = WebSocketMessage.session_counts_data (wrap "counts" payload)

abbrev pub statistics_data_message : String → WebSocketMessage
statistics_data_message payload = WebSocketMessage.statistics_data (wrap "statistics" payload)

abbrev pub checkpoint_stats_message : String → WebSocketMessage
checkpoint_stats_message payload = WebSocketMessage.checkpoint_stats payload

-- A command, with its payload.
pub data WebSocketCommand : Type 0 where
  get_apps : String → WebSocketCommand
  get_timeline : String → WebSocketCommand
  get_app_by_name : String → WebSocketCommand
  add_process : String → WebSocketCommand
  delete_process : String → WebSocketCommand
  get_tracking_status : String → WebSocketCommand
  get_statistics : String → WebSocketCommand
  get_session_counts : String → WebSocketCommand
  get_checkpoints : String → WebSocketCommand
  create_checkpoint : String → WebSocketCommand
  set_active_checkpoint : String → WebSocketCommand
  delete_checkpoint : String → WebSocketCommand
  get_active_checkpoints : String → WebSocketCommand
  get_checkpoint_stats : String → WebSocketCommand
  update_config : String → WebSocketCommand
  subscribe : String → WebSocketCommand
  unsubscribe : String → WebSocketCommand

-- How serde reads a command from its tag and its payload.
unfoldable pub command_of : String → String → Option WebSocketCommand
command_of tag payload =
    if str_eq tag "get_apps"
    then some (WebSocketCommand.get_apps payload)
    else if str_eq tag "get_timeline"
    then some (WebSocketCommand.get_timeline payload)
    else if str_eq tag "get_app_by_name"
    then some (WebSocketCommand.get_app_by_name payload)
    else if str_eq tag "add_process"
    then some (WebSocketCommand.add_process payload)
    else if str_eq tag "delete_process"
    then some (WebSocketCommand.delete_process payload)
    else if str_eq tag "get_tracking_status"
    then some (WebSocketCommand.get_tracking_status payload)
    else if str_eq tag "get_statistics"
    then some (WebSocketCommand.get_statistics payload)
    else if str_eq tag "get_session_counts"
    then some (WebSocketCommand.get_session_counts payload)
    else if str_eq tag "get_checkpoints"
    then some (WebSocketCommand.get_checkpoints payload)
    else if str_eq tag "create_checkpoint"
    then some (WebSocketCommand.create_checkpoint payload)
    else if str_eq tag "set_active_checkpoint"
    then some (WebSocketCommand.set_active_checkpoint payload)
    else if str_eq tag "delete_checkpoint"
    then some (WebSocketCommand.delete_checkpoint payload)
    else if str_eq tag "get_active_checkpoints"
    then some (WebSocketCommand.get_active_checkpoints payload)
    else if str_eq tag "get_checkpoint_stats"
    then some (WebSocketCommand.get_checkpoint_stats payload)
    else if str_eq tag "update_config"
    then some (WebSocketCommand.update_config payload)
    else if str_eq tag "subscribe"
    then some (WebSocketCommand.subscribe payload)
    else if str_eq tag "unsubscribe"
    then some (WebSocketCommand.unsubscribe payload)
    else none
