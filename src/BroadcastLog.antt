-- ===== src/BroadcastLog.antt =====
-- websocket/broadcast_logger.rs: the broadcasts that the rest of the program makes, with a line for the log.
use Prim.Native.String.{◌++◌ as ◌+++◌}
use time_tracker.Common.{
  ℕ, ◌-◌, ltb, ◌==◌, String, Bool, true, false, Option, none, some, List, [], ◌∷◌, length, take,
  filter_map, unwrap_or, if◌then◌else◌, Result, ok, err,
}
use time_tracker.Common.Word.{I32, add32}
use time_tracker.Text.{show_digits, show_i32}
use time_tracker.Entities.{Date}
use time_tracker.Structs.{App, Timeline, TrackingStatus}
use time_tracker.Rows.{Calendar}
use time_tracker.Websocket.{
  ServerState, broadcast_apps_update, broadcast_timeline_update, broadcast_tracking_status,
}

pub data LogLine : Type 0 where
  info warn error : String → LogLine

-- The number of digits of a `usize`.
abbrev show_count : ℕ → String
show_count n = show_digits 20 n

unfoldable pub join : String → List String → String
join sep [] = ""
join sep (s ∷ []) = s
join sep (s ∷ t ∷ rest) = s +++ (sep +++ join sep (t ∷ rest))

unfoldable pub app_names_text : List App → String
unfolding join
app_names_text apps =
    let app_names = join ", " (take 3 (filter_map (λ (a : App). a.name) apps)) in
    if ltb 3 (length apps)
    then app_names +++ (" and " +++ (show_count (length apps - 3) +++ " more"))
    else app_names

-- The server's state is there exactly while a broadcaster is registered.
abbrev pub Logged : Type 0
Logged = LogLine × Option ServerState

unfoldable pub log_apps_update : List App → Option ServerState → Logged
unfolding app_names_text
log_apps_update apps none =
    (warn "Attempted to broadcast apps update but no active WebSocket broadcaster found", none)
log_apps_update apps (some st) = (
  info (
      "Broadcasting apps update: "
      +++ (show_count (length apps) +++ (" apps (" +++ (app_names_text apps +++ ")")))),
  some (broadcast_apps_update apps st),
)

unfoldable pub total_of : List Timeline → I32
total_of [] = 0
total_of (t ∷ ts) = add32 (unwrap_or t.duration 0) (total_of ts)

abbrev last_of : Timeline → List Timeline → Timeline
last_of t [] = t
last_of t (u ∷ us) = last_of u us

abbrev dates_text : Calendar → Option Date → Option Date → String
dates_text cal (some f) (some l) =
    if f == l then cal.show_date f else cal.show_date f +++ (" to " +++ cal.show_date l)
dates_text cal _ _ = "unknown dates"

unfoldable pub date_range : Calendar → List Timeline → String
date_range cal [] = "no entries"
date_range cal (t ∷ ts) = dates_text cal t.date (last_of t ts).date

unfoldable pub log_timeline_update : Calendar → List Timeline → Option ServerState → Logged
unfolding total_of date_range
log_timeline_update cal rows none =
    (warn "Attempted to broadcast timeline update but no active WebSocket broadcaster found", none)
log_timeline_update cal rows (some st) = (
  info (
      "Broadcasting timeline update: "
      +++ (show_count (length rows)
          +++ (" entries, "
              +++ (show_i32 (total_of rows)
                  +++ (" total duration, dates: " +++ date_range cal rows))))),
  some (broadcast_timeline_update rows st),
)

abbrev tracking_state : Bool → Bool → String
tracking_state true false = "Active"
tracking_state true true = "Paused"
tracking_state false is_paused = "Stopped"

unfoldable pub log_tracking_status_update : TrackingStatus → Option ServerState → Logged
log_tracking_status_update status none = (
  warn "Attempted to broadcast tracking status update but no active WebSocket broadcaster found",
  none,
)
log_tracking_status_update status (some st) = (
  info (
      "Broadcasting tracking status update: "
      +++ (tracking_state status.is_tracking status.is_paused
          +++ (" - "
              +++ (unwrap_or status.current_app "None"
                  +++ (" (session: "
                      +++ (show_i32 status.current_session_duration
                          +++ ("s, checkpoints: "
                              +++ (show_count (length status.active_checkpoint_ids) +++ ")")))))))),
  some (broadcast_tracking_status status st),
)

-- with_broadcast_logging: the lines of the log, and the result with the operation's name in its error.
unfoldable pub with_broadcast_logging {ℓ} :
    {T : Type ℓ} → String → Result T → List LogLine × Result T
with_broadcast_logging operation_name (ok result) = (
  info ("Starting broadcast operation: " +++ operation_name)
      ∷ info ("Broadcast operation completed successfully: " +++ operation_name)
      ∷ [],
  ok result,
)
with_broadcast_logging operation_name (err e) = (
  info ("Starting broadcast operation: " +++ operation_name)
      ∷ error ("Broadcast operation failed: " +++ (operation_name +++ (" - Error: " +++ e)))
      ∷ [],
  err ("Broadcast operation '" +++ (operation_name +++ ("' failed: " +++ e))),
)
