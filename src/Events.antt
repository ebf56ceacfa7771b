-- ===== src/Events.antt =====
-- The event loop's handlers of seaorm_client.rs, and the queries that they make. The clock is an
-- argument: `today` and `now` are readings of `chrono::Local::now()`.
pub mod Checkpoints
pub mod Rounds
pub mod Effects
pub mod Ticks
use time_tracker.Common.{
  ℕ, ◌-◌, String, Bool, true, false, ◌&&◌, ◌==◌, leb, Option, none, some, List, [], ◌∷◌, map,
  is_text, unwrap_or, if◌then◌else◌, ok, err, filter_map,
}
use time_tracker.Common.Word.{I32, add32, gt32, rank}
use time_tracker.Json.{Json, array, of_list, as_array}
use time_tracker.Structs.{App, Timeline}
use time_tracker.Text.{split, parse_i32}
use time_tracker.Entities.{AppModel, TimelineModel, CheckpointModel, Date, DateTime}
use time_tracker.Store.{Db, apps, timeline, checkpoints}
use time_tracker.Store.Engine.{Engine, asc, desc, unordered}
use time_tracker.Store.Monad.{M, ◌>>=◌, ◌>>◌, pure, query, execute, logged, for_each}
use time_tracker.Store.Codec.{Codec, model_to_json}
use time_tracker.Queries.{select_json, get_active_checkpoints_for_app}

pub data ReceiveType : Type 0 where
  longest_session duration launches timeline_tick : ReceiveType

-- What a handler hands to the broadcaster.
pub data Broadcast : Type 0 where
  apps_update : List App → Broadcast
  timeline_update : List Timeline → Broadcast

abbrev pub by_name : String → AppModel → Bool
by_name item a = is_text a.name item

-- `x.unwrap_or(0) + 1`
abbrev pub bump : Option I32 → I32
bump x = add32 (unwrap_or x 0) 1

-- `max.flatten().map_or(1, |id| id + 1)`
abbrev pub next_id : Option I32 → I32
next_id none = 1
next_id (some id) = add32 id 1

abbrev pub set_duration : I32 → AppModel → AppModel
set_duration n a = record a { duration = some n }

abbrev pub set_launches : I32 → AppModel → AppModel
set_launches n a = record a { launches = some n }

abbrev pub set_longest : I32 → Date → AppModel → AppModel
set_longest n today a = record a { longest_session = some n; longest_session_on = some today }

abbrev pub add_time : I32 → DateTime → CheckpointModel → CheckpointModel
add_time n now c = record c { duration = some n; last_updated = some now }

abbrev pub add_session : I32 → DateTime → CheckpointModel → CheckpointModel
add_session n now c = record c { sessions_count = some n; last_updated = some now }

abbrev pub is_entry : I32 → Date → TimelineModel → Bool
is_entry app_id today r = (r.app_id == app_id) && (r.date == today)

-- The parts of a `LongestSession` message, if it has two. What is no number counts as 0.
unfoldable pub session_of : List String → Option (String × I32)
session_of (p ∷ n ∷ _) = some (p, unwrap_or (parse_i32 n) 0)
session_of _ = none

-- `x` where there is one, and nothing to do where there is none.
abbrev pub when_some : {A : Type 0} → Option A → (A → M (Unit {0})) → M (Unit {0})
when_some none f = pure tt
when_some (some a) f = f a

module _ (e : Engine) (c : Codec) where
  unfoldable pub get_all_apps : M Json
  get_all_apps = select_json e c apps (λ a. true) (asc (λ a. rank a.id))

  -- `cutoff` is the day `days` before today.
  unfoldable pub get_timeline_data : Option String → ℕ → Date → M Json
  get_timeline_data app_name days today =
      let cutoff = today - days in
      elim app_name [
        | none ↦ select_json e c timeline (λ r. leb cutoff r.date) (desc (λ r. r.date))
        | some name ↦ do
          found ←
              query
                (e.join_apps (λ r a. is_text a.name name && leb cutoff r.date) (desc (λ r. r.date)))
          pure (array (of_list (map (model_to_json c timeline) found)))
      ]

  -- One round of the loops over the active checkpoints: `set` is given the row that was read.
  unfoldable pub update_checkpoint :
      (CheckpointModel → CheckpointModel → CheckpointModel) → Json → M (Unit {0})
  update_checkpoint set value = elim (c.decode value) [
    | err x ↦ pure tt
    | ok checkpoint ↦ λ db. elim (e.one checkpoints (λ r. r.id == checkpoint.id) db) [
      | ok (some r) ↦ logged (execute (e.update checkpoints r.id (set checkpoint))) db
      | _ ↦ pure tt db
    ]
  ]

  unfoldable pub update_each :
      (CheckpointModel → CheckpointModel → CheckpointModel) → List Json → M (Unit {0})
  update_each set values = for_each values (update_checkpoint set)

  unfoldable pub update_listed :
      (CheckpointModel → CheckpointModel → CheckpointModel) → Json → M (Unit {0})
  update_listed set value = when_some (as_array value) (update_each set)

  unfoldable pub update_checkpoints :
      (CheckpointModel → CheckpointModel → CheckpointModel) → I32 → M (Unit {0})
  update_checkpoints set app_id = get_active_checkpoints_for_app e c app_id >>= update_listed set

  unfoldable pub update_checkpoint_durations : I32 → DateTime → M (Unit {0})
  update_checkpoint_durations app_id now =
      update_checkpoints (λ read. add_time (bump read.duration) now) app_id

  unfoldable pub update_checkpoint_sessions : I32 → DateTime → M (Unit {0})
  update_checkpoint_sessions app_id now =
      update_checkpoints (λ read. add_session (bump read.sessions_count) now) app_id

  -- The first of the active checkpoints, newest first; an error counts as none.
  unfoldable pub get_first_active_checkpoint_id : I32 → Db → Option I32
  get_first_active_checkpoint_id app_id db = elim (get_active_checkpoints_for_app e c app_id db).1 [
    | err x ↦ none
    | ok value ↦ elim (as_array value) [
      | some (v ∷ _) ↦ elim (c.decode v) [ ok checkpoint ↦ some checkpoint.id | err x ↦ none ]
      | _ ↦ none
    ]
  ]

  -- What each handler does with the app that it found.
  unfoldable pub keep_longest : I32 → Date → AppModel → M (Unit {0})
  keep_longest current_session today app =
      if gt32 current_session (unwrap_or app.longest_session 0)
      then execute (e.update apps app.id (set_longest current_session today))
      else pure tt

  unfoldable pub add_duration : DateTime → AppModel → M (Unit {0})
  add_duration now app =
      execute (e.update apps app.id (set_duration (bump app.duration)))
      >> update_checkpoint_durations app.id now

  unfoldable pub add_launch : DateTime → AppModel → M (Unit {0})
  add_launch now app =
      execute (e.update apps app.id (set_launches (bump app.launches)))
      >> update_checkpoint_sessions app.id now

  unfoldable pub insert_entry : I32 → Date → Option I32 → M (Unit {0})
  insert_entry app_id today max = do
    checkpoint_id ← query (λ db. ok (get_first_active_checkpoint_id app_id db))
    execute (
        e.insert timeline (record {
          id = next_id max;
          date = today;
          duration = some 1;
          app_id = app_id;
          checkpoint_id = checkpoint_id;
        }))

  unfoldable pub add_to_timeline : I32 → Date → Option TimelineModel → M (Unit {0})
  add_to_timeline app_id today (some r) =
      execute (e.update timeline r.id (λ r'. record r' { duration = some (bump r.duration) }))
  add_to_timeline app_id today none = query (e.max_id timeline) >>= insert_entry app_id today

  unfoldable pub tick_timeline : Date → AppModel → M (Unit {0})
  tick_timeline today app =
      query (e.one timeline (is_entry app.id today)) >>= add_to_timeline app.id today

  -- The part of a handler whose error is logged: `act` on the app of that name, if there is one.
  unfoldable pub with_app : String → (AppModel → M (Unit {0})) → M (Unit {0})
  with_app item act = query (e.one apps (by_name item)) >>= λ found. when_some found act

  -- broadcast_apps_if_active
  unfoldable pub broadcast_apps : Bool → Db → List Broadcast
  broadcast_apps false db = []
  broadcast_apps true db = elim (get_all_apps db).1 [
    | err x ↦ []
    | ok value ↦ elim (c.read_apps value) [ err x ↦ [] | ok found ↦ apps_update found ∷ [] ]
  ]

  unfoldable pub broadcast_timeline : Bool → Date → Db → List Broadcast
  broadcast_timeline false today db = []
  broadcast_timeline true today db = elim (get_timeline_data none 30 today db).1 [
    | err x ↦ []
    | ok value ↦ elim (c.read_timeline value) [ err x ↦ [] | ok found ↦ timeline_update found ∷ [] ]
  ]

  unfoldable pub handle_longest_session : Bool → String → Date → Db → Db × List Broadcast
  handle_longest_session active item today db = elim (session_of (split b';' item)) [
    | none ↦ (db, [])
    | some (app_name, current_session) ↦
        let db' = (with_app app_name (keep_longest current_session today) db).0 in
        (db', broadcast_apps active db')
  ]

  unfoldable pub handle_duration : Bool → String → DateTime → Db → Db × List Broadcast
  handle_duration active item now db =
      let db' = (with_app item (add_duration now) db).0 in (db', broadcast_apps active db')

  unfoldable pub handle_launches : Bool → String → DateTime → Db → Db × List Broadcast
  handle_launches active item now db =
      let db' = (with_app item (add_launch now) db).0 in (db', broadcast_apps active db')

  unfoldable pub handle_timeline : Bool → String → Date → Db → Db × List Broadcast
  handle_timeline active item today db =
      let db' = (with_app item (tick_timeline today) db).0 in
      (db', broadcast_timeline active today db')

  -- One round of the event loop. `today` and `now` are the clock at that round.
  unfoldable pub handle_event :
      Bool → Date → DateTime → String × ReceiveType → Db → Db × List Broadcast
  unfolding handle_longest_session handle_duration handle_launches handle_timeline
  handle_event active today now (item, longest_session) db =
      handle_longest_session active item today db
  handle_event active today now (item, duration) db = handle_duration active item now db
  handle_event active today now (item, launches) db = handle_launches active item now db
  handle_event active today now (item, timeline_tick) db = handle_timeline active item today db

module _ (e : Engine) where
  unfoldable pub insert_app : String → String → Option I32 → M (Unit {0})
  insert_app item product_name max = execute (
      e.insert apps (record {
        id = next_id max;
        duration = some 0;
        launches = some 0;
        longest_session = some 0;
        name = some item;
        product_name = some product_name;
        longest_session_on = none;
      }))

  -- put_data: a new app, under the next id.
  unfoldable pub put_data : String → String → M (Unit {0})
  put_data item product_name = query (e.max_id apps) >>= insert_app item product_name

  unfoldable pub delete_data : String → M (Unit {0})
  delete_data item = execute (e.delete apps (by_name item))

  unfoldable pub get_processes : M (List String)
  get_processes = do
    found ← query (e.select apps (λ a. true) unordered)
    pure (filter_map (λ a. a.name) found)
