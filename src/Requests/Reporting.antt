-- ===== src/Requests/Reporting.antt =====
-- websocket/handlers.rs: what the session counts and the statistics hold.
use time_tracker.Common.{
  map-map, if◌then◌else◌, unwrap_or, take, ◌-◌, ◌%◌, String, ◌≡◌, refl, Bool, true, ◌&&◌, ◌==◌, leb,
  Option, none, some, List, [], ◌∷◌, map, Has, filter, length, is_text, ok,
}
use time_tracker.Common.Word.{gt32, I32, i32_mod, rank}
use time_tracker.Json.{to_list-of_list, array, of_list}
use time_tracker.Entities.{AppModel, TimelineModel, Date}
use time_tracker.Statistics.Sums.{sum_all, sum_where, calculate_duration_statistics-sums}
use time_tracker.Structs.{Timeline, ratio, nothing, App, SessionCount, AppStatistics}
use time_tracker.Store.{Db, apps, timeline}
use time_tracker.Store.Engine.{Lawful, Reliable, asc, desc, Selects, Joins}
use time_tracker.Store.Monad
use time_tracker.Store.Codec.{model_to_json}
use time_tracker.Store.Calls.{on_ok}
use time_tracker.Queries.{select_json, get_all_app_ids, get_session_count_for_app}
use time_tracker.Events.{get_all_apps, get_timeline_data}
use time_tracker.Rows.{convert_json_rows, convert_to_timeline, timeline_from_pg_row}
use time_tracker.Rows.Shown.{shown_app, shown_timeline, timeline_fields, timeline_from_pg_row_lem}
use time_tracker.Messages.{session_counts_data_message, statistics_data_message}
use time_tracker.Requests.{Service, World, Clock, ◌>>=◌, lift, asks, call_db_method, converted}
use time_tracker.Requests.Reports.{
  count_sessions, handle_get_session_counts, statistics_of, calculate_app_statistics,
  collect_statistics, handle_get_statistics,
}
use time_tracker.Requests.Listing.{
  IsUsual, answer, print_and_send, convert_json_rows-map, apps_shown, selected, called,
}

-- The number of the app's rows of the timeline, as a 32-bit number.
abbrev pub sessions_of : Db → I32 → SessionCount
sessions_of db k = record {
  app_id = k;
  session_count = length (filter (λ (r : TimelineModel). r.app_id == k) db.timeline) % i32_mod;
}

module _ (w : World) (law : Lawful w.engine) (sure : Reliable w.engine) (st : Service) where
  session_count_lem :
      (k : I32) (context : String)
      → call_db_method (get_session_count_for_app w.engine k) context st ≡ (
        st,
        ok (
            length (filter (λ (r : TimelineModel). r.app_id == k) st.registry.db.timeline)
            % i32_mod),
      )
  unfolding call_db_method get_session_count_for_app
  session_count_lem k context =
      let (n, q) = sure.count_answers timeline (λ r. r.app_id == k) st.registry.db in
      let same = on_ok _ _ (law.count_law timeline (λ r. r.app_id == k) st.registry.db) q in
      rw (q, Monad.and_then, same) refl

  count_sessions_lem :
      (ks : List I32) → count_sessions w ks st ≡ (st, ok (map (sessions_of st.registry.db) ks))
  unfolding count_sessions ◌>>=◌ lift
  count_sessions_lem [] = refl
  count_sessions_lem (k ∷ ks) = rw (session_count_lem k _, count_sessions_lem ks) refl

  app_ids_lem :
      (xs : List AppModel) × Selects apps (λ r. true) (asc (λ r. rank r.id)) st.registry.db xs
      × (call_db_method (get_all_app_ids w.engine) "Failed to retrieve app IDs" st
          ≡ (st, ok (map (λ r. r.id) xs)))
  unfolding call_db_method get_all_app_ids
  app_ids_lem =
      let (xs, q) = sure.select_answers apps (λ r. true) (asc (λ r. rank r.id)) st.registry.db in
      (
        xs,
        on_ok _ _ (law.select_law apps (λ r. true) (asc (λ r. rank r.id)) st.registry.db) q,
        rw (q, Monad.and_then) refl,
      )

  -- With a lawful and reliable database, the answer to GetSessionCounts is the printed list that has for each
  -- app, by ascending id, the number of the rows of the timeline that belong to it, as a 32-bit number; nothing
  -- changes.
  pub handle_get_session_counts_lem :
      (xs : List AppModel) × Selects apps (λ r. true) (asc (λ r. rank r.id)) st.registry.db xs
      × (handle_get_session_counts w st ≡ (
        st,
        answer w.printer
            (w.printer.counts_json (map (λ r. sessions_of st.registry.db r.id) xs))
            "Failed to serialize session counts"
            session_counts_data_message,
      ))
  unfolding handle_get_session_counts ◌>>=◌
  handle_get_session_counts_lem =
      let (xs, sel, q) = app_ids_lem in
      (
        xs,
        sel,
        rw
            (
              q,
              count_sessions_lem (map (λ r. r.id) xs),
              map-map (sessions_of st.registry.db) (λ (r : AppModel). r.id) xs,
            )
            (print_and_send w.printer _ "Failed to serialize session counts"
              session_counts_data_message st),
      )

-- The sum of the durations of the entries whose date passes the test, as a 32-bit number.
abbrev pub sum_in : (Date → Bool) → List Timeline → I32
sum_in p entries = sum_where p entries % i32_mod

-- The statistics of an app as sums over its entries: of today, since 7 days ago and since 30 days ago; the sum of
-- all entries over their number; and the ten that come first.
abbrev pub expected_statistics : Date → App → List Timeline → AppStatistics
expected_statistics today app entries = record {
  app = app;
  total_duration = unwrap_or app.duration 0;
  today_duration = sum_in (λ d. d == today) entries;
  week_duration = sum_in (λ d. leb (today - 7) d) entries;
  month_duration = sum_in (λ d. leb (today - 30) d) entries;
  average_session_length =
      if gt32 (length entries % i32_mod) 0
      then ratio (sum_all entries % i32_mod) (length entries % i32_mod)
      else nothing;
  recent_sessions = take 10 entries;
}

statistics_of_lem :
    (today : Date) (app : App) (entries : List Timeline)
    → statistics_of today app entries ≡ expected_statistics today app entries
unfolding statistics_of
statistics_of_lem today app entries = rw (calculate_duration_statistics-sums today entries) refl

-- The rows of the timeline that the statistics of an app are made of, newest first: those from the first
-- day on that belong to an app of the name, or those of all apps if the app has no name.
abbrev pub InPeriod : Option String → Date → Db → List TimelineModel → Type 0
InPeriod none first db rows = Selects timeline (λ r. leb first r.date) (desc (λ r. r.date)) db rows
InPeriod (some name) first db rows =
    Joins (λ r a. is_text a.name name && leb first r.date) (desc (λ r. r.date)) db rows

module _ (w : World) (clock : Clock) (st : Service) (usual : IsUsual w st.registry.db) where
  timeline_shown :
      (xs : List TimelineModel)
      → ((r : TimelineModel) → Has r xs → Has r st.registry.db.timeline)
      → converted
          (convert_to_timeline w.printer.value_json w.calendar)
          (array (of_list (map (model_to_json w.codec timeline) xs)))
        ≡ map shown_timeline xs
  unfolding model_to_json convert_json_rows timeline_from_pg_row
  timeline_shown xs there = rw (to_list-of_list (map (model_to_json w.codec timeline) xs)) (
      convert_json_rows-map w.printer.value_json (timeline_from_pg_row w.calendar)
        (model_to_json w.codec timeline) (timeline_fields w.calendar) shown_timeline xs
        (λ r m. rw (usual.derived.timeline_encoded r) refl)
        (λ r m.
          let (a, b, c) = usual.words.2 r (there r m) in
          timeline_from_pg_row_lem w.printer.value_json w.calendar usual.reads r a b c))

  timeline_read :
      (name : Option String) (today : Date)
      → (rows : List TimelineModel) × InPeriod name (today - 30) st.registry.db rows
        × ((r : TimelineModel) → Has r rows → Has r st.registry.db.timeline)
        × ((get_timeline_data w.engine w.codec name 30 today st.registry.db).1
            ≡ ok (array (of_list (map (model_to_json w.codec timeline) rows))))
  unfolding get_timeline_data select_json
  timeline_read none today =
      let p : TimelineModel → Bool = λ r. leb (today - 30) r.date in
      let (rows, q) = usual.sure.select_answers timeline p (desc (λ r. r.date)) st.registry.db in
      let sel = on_ok _ _ (usual.law.select_law timeline p (desc (λ r. r.date)) st.registry.db) q in
      (rows, sel, (λ r m. (sel.sound r m).0), rw (q, Monad.and_then) refl)
  timeline_read (some name) today =
      let p : TimelineModel → AppModel → Bool =
        λ r a. is_text a.name name && leb (today - 30) r.date in
      let (rows, q) = usual.sure.join_answers p (desc (λ r. r.date)) st.registry.db in
      let joins = on_ok _ _ (usual.law.join_law p (desc (λ r. r.date)) st.registry.db) q in
      (rows, joins, (λ r m. (joins.sound r m).0), rw (q, Monad.and_then) refl)

  -- The statistics of each app, in the same order.
  abbrev pub AreStatistics : List App → List AppStatistics → Type 0
  AreStatistics [] [] = Unit
  AreStatistics (app ∷ l) (s ∷ ss) =
      ((rows : List TimelineModel) × InPeriod app.name (clock.cutoff_day app - 30) st.registry.db
          rows
        × (s ≡ expected_statistics (clock.statistics_day app) app (map shown_timeline rows)))
      × AreStatistics l ss
  AreStatistics [] (s ∷ ss) = ⊥
  AreStatistics (app ∷ l) [] = ⊥

  calculate_app_statistics_lem :
      (app : App)
      → (rows : List TimelineModel) × InPeriod app.name
          (clock.cutoff_day app - 30)
          st.registry.db
          rows
        × (calculate_app_statistics w clock app st ≡ (
          st,
          ok (expected_statistics (clock.statistics_day app) app (map shown_timeline rows)),
        ))
  unfolding calculate_app_statistics ◌>>=◌ lift asks
  calculate_app_statistics_lem app =
      let (rows, period, there, q) = timeline_read app.name (clock.cutoff_day app) in
      (
        rows,
        period,
        rw
            (
              q,
              timeline_shown rows there,
              statistics_of_lem (clock.statistics_day app) app (map shown_timeline rows),
            )
            refl,
      )

  collect_statistics_lem : (l : List App) → AreStatistics l (collect_statistics w clock l st)
  unfolding collect_statistics
  collect_statistics_lem [] = tt
  collect_statistics_lem (app ∷ l) =
      let (rows, period, q) = calculate_app_statistics_lem app in
      rw q ((rows, period, refl), collect_statistics_lem l)

  -- With a lawful and reliable database, the derived serialization, dates that are read as they were printed, and
  -- numbers of 32 bits: the answer to GetStatistics is the printed list with one entry for each app, by ascending id,
  -- over the rows of the timeline from the last 30 days that belong to an app of its name, newest first, each once for each
  -- such app, or to any app if it has no name: the app's own duration; the sums, modulo 2^32, of the rows of today, since 7 days ago and
  -- since 30 days ago; the average as the sum of all those rows over their number; and the ten newest of them. Nothing changes.
  pub handle_get_statistics_lem :
      (xs : List AppModel) × Selects apps (λ r. true) (asc (λ r. rank r.id)) st.registry.db xs
      × ((stats : List AppStatistics) × AreStatistics (map shown_app xs) stats
          × (handle_get_statistics w clock st ≡ (
            st,
            answer w.printer
                (w.printer.statistics_json stats)
                "Failed to serialize statistics"
                statistics_data_message,
          )))
  unfolding handle_get_statistics get_all_apps ◌>>=◌ asks
  handle_get_statistics_lem =
      let (xs, sel, q) = selected w st usual apps (λ r. true) (asc (λ r. rank r.id)) in
      (
        xs,
        sel,
        (
          collect_statistics w clock (map shown_app xs) st,
          collect_statistics_lem (map shown_app xs),
          rw
              (
                called w st usual (get_all_apps w.engine w.codec) "Failed to retrieve apps" _ q,
                apps_shown w st usual xs (λ r m. (sel.sound r m).0),
              )
              (print_and_send w.printer _ "Failed to serialize statistics" statistics_data_message
                st),
        ),
      )
