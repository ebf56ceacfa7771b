-- ===== src/Requests/Reports.antt =====
-- websocket/handlers.rs: session counts, statistics, and the delays.
use Prim.Native.String.{◌++◌ as ◌+++◌}
use time_tracker.Common.{
  ℕ, ltb, String, Option, none, some, List, [], ◌∷◌, if◌then◌else◌, unwrap_or, take, Result, ok,
  err, ok_or,
}
use time_tracker.Common.Word.{I32, gt32, i64_mod, i64_half}
use time_tracker.Json.{Json, number, other_number, get}
use time_tracker.Text.{show_i32, read_nat}
use time_tracker.Entities.{Date}
use time_tracker.Structs.{App, Timeline, SessionCount, Average, nothing, ratio, AppStatistics}
use time_tracker.Statistics.{calculate_duration_statistics}
use time_tracker.Rows.{and_option, convert_to_apps, convert_to_timeline}
use time_tracker.Messages.{success_message, session_counts_data_message, statistics_data_message}
use time_tracker.Queries.{get_all_app_ids, get_session_count_for_app}
use time_tracker.Events.{get_all_apps, get_timeline_data}
use time_tracker.Requests.{
  Service, World, Clock, TimeTrackingConfig, S, ◌>>=◌, ◌>>◌, pure, lift, asks, call_db_method,
  converted, printed, respond,
}

-- `value.as_u64()`: an `i64` that is not negative, or a greater number that is written in digits.
abbrev pub below_u64 : Option ℕ → Option ℕ
below_u64 none = none
below_u64 (some n) = if ltb n i64_mod then some n else none

unfoldable pub as_u64 : Json → Option ℕ
as_u64 (number n) = if ltb n i64_half then some n else none
as_u64 (other_number text) = below_u64 (read_nat text)
as_u64 _ = none

unfoldable pub set_config : TimeTrackingConfig → S (Unit {0})
set_config config st = (record st { config = config }, ok tt)

module _ (w : World) where
  -- The `try_join_all` over the apps.
  unfoldable pub count_sessions : List I32 → S (List SessionCount)
  count_sessions [] = pure []
  count_sessions (app_id ∷ app_ids) = do
    session_count_value ←
        call_db_method (get_session_count_for_app w.engine app_id)
          ("Failed to get session count for app " +++ show_i32 app_id)
    counts ← count_sessions app_ids
    pure (record { app_id = app_id; session_count = session_count_value } ∷ counts)

  unfoldable pub handle_get_session_counts : S String
  unfolding count_sessions
  handle_get_session_counts = do
    app_ids ← call_db_method (get_all_app_ids w.engine) "Failed to retrieve app IDs"
    session_counts ← count_sessions app_ids
    counts_json ←
        printed (w.printer.counts_json session_counts) "Failed to serialize session counts"
    respond w.printer (session_counts_data_message counts_json)

abbrev pub average : I32 → I32 → Average
average total session_count = if gt32 session_count 0 then ratio total session_count else nothing

-- What `calculate_app_statistics` makes of the entries that it read.
unfoldable pub statistics_of : Date → App → List Timeline → AppStatistics
statistics_of today app entries =
    let d = calculate_duration_statistics today entries in
    record {
      app = app;
      total_duration = unwrap_or app.duration 0;
      today_duration = d.today_sum;
      week_duration = d.week_sum;
      month_duration = d.month_sum;
      average_session_length = average d.total d.sessions;
      recent_sessions = take 10 entries;
    }

module _ (w : World) (clock : Clock) where
  unfoldable pub calculate_app_statistics : App → S AppStatistics
  unfolding statistics_of
  calculate_app_statistics app = do
    timeline_data ← asks (λ st.
        (get_timeline_data w.engine w.codec app.name 30 (clock.cutoff_day app) st.registry.db).1)
    pure (
        statistics_of (clock.statistics_day app) app
          (converted (convert_to_timeline w.printer.value_json w.calendar) timeline_data))

  -- An app whose statistics fail is left out.
  abbrev pub push_statistics : Result AppStatistics → List AppStatistics → List AppStatistics
  push_statistics (ok stats) rest = stats ∷ rest
  push_statistics (err x) rest = rest

  unfoldable pub collect_statistics : List App → Service → List AppStatistics
  unfolding calculate_app_statistics
  collect_statistics [] st = []
  collect_statistics (app ∷ apps) st =
      push_statistics (calculate_app_statistics app st).1 (collect_statistics apps st)

  unfoldable pub handle_get_statistics : S String
  unfolding collect_statistics
  handle_get_statistics = do
    apps_data ← call_db_method (get_all_apps w.engine w.codec) "Failed to retrieve apps"
    app_statistics ← asks (λ st. ok (
        collect_statistics (converted (convert_to_apps w.printer.value_json w.calendar) apps_data)
          st))
    statistics_json ←
        printed (w.printer.statistics_json app_statistics) "Failed to serialize statistics"
    respond w.printer (statistics_data_message statistics_json)

-- Of the build with the feature `memory`.
unfoldable pub handle_update_config : World → String → S String
unfolding as_u64
handle_update_config w payload = do
  params ← lift (w.reader.read_params payload)
  tracking_delay_ms ← lift (
      ok_or (and_option (get params "tracking_delay_ms") as_u64)
        "tracking_delay_ms parameter is required")
  check_delay_ms ← lift (
      ok_or (and_option (get params "check_delay_ms") as_u64)
        "check_delay_ms parameter is required")
  set_config (record { tracking_delay_ms = tracking_delay_ms; check_delay_ms = check_delay_ms })
  respond w.printer (success_message "Configuration updated successfully")
