-- ===== src/Events/Effects.antt =====
-- What an event does to the table of apps.
use time_tracker.Common.{
  String, ◌≡◌, refl, sym, ap, ◌∙◌, ◌⊎◌, inl, inr, Bool, true, false, ◌==◌, ==_self, Option, none,
  some, List, [], ◌∷◌, map, Has, any-Has, if◌then◌else◌, unwrap_or, Result, ok, Result-cases,
  Option-cases, Bool-cases, arith,
}
use time_tracker.Common.Word.{I32, gt32}
use time_tracker.Json.{Json, as_array}
use time_tracker.Text.{split}
use time_tracker.Entities.{AppModel, CheckpointModel, TimelineModel, Date, DateTime}
use time_tracker.Store.{Db, apps, checkpoints, timeline, update_rows}
use time_tracker.Store.Engine.{Engine, Lawful, Reliable, Leaves, desc}
use time_tracker.Store.Monad.{M, and_then, executed}
use time_tracker.Store.Codec.{Codec}
use time_tracker.Store.Calls.{update_cases, one_cases, for_each_inv, on_ok}
use time_tracker.Events.{
  ReceiveType, longest_session, duration, launches, timeline_tick, by_name, bump, session_of,
  set_duration, set_launches, set_longest, add_time, add_session, when_some, update_checkpoint,
  update_each, update_listed, update_checkpoints, update_checkpoint_durations,
  update_checkpoint_sessions, keep_longest, add_duration, add_launch, insert_entry, add_to_timeline,
  tick_timeline, with_app, handle_longest_session, handle_duration, handle_launches,
  handle_timeline, handle_event, is_entry, next_id, get_first_active_checkpoint_id,
}
use time_tracker.Queries.{get_active_checkpoints_for_app, select_json, is_active_for, by_id}

-- The app that an event is for, and the length of a session that ended. A LongestSession message
-- that has no second part is for no app.
abbrev pub message_of : String × ReceiveType → Option (String × I32)
message_of (item, longest_session) = session_of (split b';' item)
message_of (item, duration) = some (item, 0)
message_of (item, launches) = some (item, 0)
message_of (item, timeline_tick) = some (item, 0)

-- The new row of the app, from the row `a` that was read.
abbrev pub effect_of : ReceiveType → I32 → Date → AppModel → AppModel → AppModel
effect_of duration n today a r = record r { duration = some (bump a.duration) }
effect_of launches n today a r = record r { launches = some (bump a.launches) }
effect_of longest_session n today a r =
    if gt32 n (unwrap_or a.longest_session 0)
    then record r { longest_session = some n; longest_session_on = some today }
    else r
effect_of timeline_tick n today a r = r

-- Either no app has the name, and nothing changes, or one has it and its row changes.
abbrev pub Changes : (AppModel → AppModel → AppModel) → String → Db → Db → Type 0
Changes effect name db db' =
    (((a : AppModel) → Has a db.apps → by_name name a ≡ false) × (db' ≡ db))
    ⊎ ((a : AppModel) × Has a db.apps
        × (by_name name a ≡ true)
        × (db'.apps ≡ map (λ r. if r.id == a.id then effect a r else r) db.apps))

abbrev pub Counts : String × ReceiveType → Date → Db → Db → Option (String × I32) → Type 0
Counts event today db db' none = db' ≡ db
Counts event today db db' (some (name, n)) = Changes (effect_of event.1 n today) name db db'

same_rows :
    (k : I32) (xs : List AppModel) → map (λ (r : AppModel). if r.id == k then r else r) xs ≡ xs
same_rows k [] = refl
same_rows k (x ∷ xs) = ground (arith, same_rows k xs)

module _ (e : Engine) (codec : Codec) (law : Lawful e) where
  -- The work on the checkpoints leaves the apps alone, however it ends.
  update_checkpoint-apps :
      (set : CheckpointModel → CheckpointModel → CheckpointModel) (value : Json) (db : Db)
      → (update_checkpoint e codec set value db).0.apps ≡ db.apps
  unfolding update_checkpoint
  update_checkpoint-apps set value db = elim (Result-cases (codec.decode value)) [
    | inr (x, q) ↦ rw (q, update_checkpoint) refl
    | inl (read, q) ↦
        rw (q, update_checkpoint)
          (elim (Result-cases (e.one checkpoints (λ r. r.id == read.id) db)) [
            | inr (x, p) ↦ rw p refl
            | inl (none, p) ↦ rw p refl
            | inl (some r, p) ↦ elim (update_cases e law checkpoints r.id (set read) db) [
              | inl f ↦ rw (p, f, executed) refl
              | inr (x, f) ↦ rw (p, f, executed) refl
            ]
          ])
  ]

  active-same : (app_id : I32) (db : Db) → (get_active_checkpoints_for_app e codec app_id db).0 ≡ db
  unfolding get_active_checkpoints_for_app select_json
  active-same app_id db =
      elim (Result-cases (e.select checkpoints (is_active_for app_id) (desc by_id) db)) [
        | inl (xs, q) ↦ rw (q, and_then) refl
        | inr (x, q) ↦ rw (q, and_then) refl
      ]

  update_listed-apps :
      (set : CheckpointModel → CheckpointModel → CheckpointModel) (value : Json) (db : Db)
      → (update_listed e codec set value db).0.apps ≡ db.apps
  unfolding update_listed update_each
  update_listed-apps set value db = elim (Option-cases (as_array value)) [
    | inl q ↦ rw (q, when_some) refl
    | inr (vs, q) ↦
        rw (q, when_some)
          (for_each_inv (λ (z : Db). z.apps ≡ db.apps) (update_checkpoint e codec set)
            (λ v z h. update_checkpoint-apps set v z ∙ h) vs db refl)
  ]

  update_checkpoints-apps :
      (set : CheckpointModel → CheckpointModel → CheckpointModel) (app_id : I32) (db : Db)
      → (update_checkpoints e codec set app_id db).0.apps ≡ db.apps
  unfolding update_checkpoints
  update_checkpoints-apps set app_id db =
      let same : (get_active_checkpoints_for_app e codec app_id db).0.apps ≡ db.apps =
        ap (λ (z : Db). z.apps) (active-same app_id db) in
      elim (Result-cases (get_active_checkpoints_for_app e codec app_id db).1) [
        | inr (x, q) ↦ rw (q, and_then) same
        | inl (v, q) ↦ rw (q, and_then) (update_listed-apps set v _ ∙ same)
      ]

  -- Where the app is there, the update goes through, whatever the work on the checkpoints does.
  module _ (sure : Reliable e) where
    pub update_app :
        (a : AppModel) (f : AppModel → AppModel) (db : Db)
        → Has a db.apps
        → Leaves apps f
        → e.update apps a.id f db ≡ ok (record db { apps = update_rows apps a.id f db.apps })
    update_app a f db m kept =
        let (db', q) =
          sure.update_answers apps a.id f db
            (any-Has (λ x. x.id == a.id) a db.apps m (==_self a.id)) kept in
        q ∙ ap ok (on_ok _ _ (law.update_law apps a.id f db) q)

    add_duration-apps :
        (now : DateTime) (a : AppModel) (db : Db)
        → Has a db.apps
        → (add_duration e codec now a db).0.apps
          ≡ update_rows apps a.id (set_duration (bump a.duration)) db.apps
    unfolding add_duration update_checkpoint_durations
    add_duration-apps now a db m =
        let done = update_app a (set_duration (bump a.duration)) db m (λ r. refl) in
        rw (done, executed, and_then)
          (update_checkpoints-apps (λ read. add_time (bump read.duration) now) a.id _
            ∙ ap (λ (z : Result Db). (executed db z).0.apps) done)

    add_launch-apps :
        (now : DateTime) (a : AppModel) (db : Db)
        → Has a db.apps
        → (add_launch e codec now a db).0.apps
          ≡ update_rows apps a.id (set_launches (bump a.launches)) db.apps
    unfolding add_launch update_checkpoint_sessions
    add_launch-apps now a db m =
        let done = update_app a (set_launches (bump a.launches)) db m (λ r. refl) in
        rw (done, executed, and_then)
          (update_checkpoints-apps (λ read. add_session (bump read.sessions_count) now) a.id _
            ∙ ap (λ (z : Result Db). (executed db z).0.apps) done)

    keep_longest-apps :
        (n : I32) (today : Date) (a : AppModel) (db : Db)
        → Has a db.apps
        → (keep_longest e codec n today a db).0.apps ≡ (
            if gt32 n (unwrap_or a.longest_session 0)
            then update_rows apps a.id (set_longest n today) db.apps
            else db.apps)
    unfolding keep_longest
    keep_longest-apps n today a db m = elim (Bool-cases (gt32 n (unwrap_or a.longest_session 0))) [
      | inl q ↦ rw (q, update_app a (set_longest n today) db m (λ r. refl), executed) refl
      | inr q ↦ rw q refl
    ]

    with_app-Changes :
        (name : String) (act : AppModel → M (Unit {0})) (effect : AppModel → AppModel → AppModel)
        (db : Db)
        → ((a : AppModel)
            → Has a db.apps
            → (act a db).0.apps ≡ map (λ r. if r.id == a.id then effect a r else r) db.apps)
        → Changes effect name db (with_app e codec name act db).0
    unfolding with_app
    with_app-Changes name act effect db acts = elim (one_cases e law apps (by_name name) db) [
      | inr (x, q) ↦
          let (found, p) = sure.one_answers apps (by_name name) db in absurd (ground (arith, p, q))
      | inl (none, q, nobody) ↦ inl (nobody, rw (q, and_then) refl)
      | inl (some a, q, found) ↦ inr (a, found.0, found.1, rw (q, and_then) (acts a found.0))
    ]

    keep_longest-effect :
        (n : I32) (today : Date) (a : AppModel) (db : Db)
        → Has a db.apps
        → (keep_longest e codec n today a db).0.apps
          ≡ map (λ r. if r.id == a.id then effect_of longest_session n today a r else r) db.apps
    keep_longest-effect n today a db m =
        keep_longest-apps n today a db m
        ∙ elim (Bool-cases (gt32 n (unwrap_or a.longest_session 0))) [
          | inl q ↦ rw q refl
          | inr q ↦ rw q (sym (same_rows a.id db.apps))
        ]

    insert_entry-apps :
        (app_id : I32) (today : Date) (max : Option I32) (db : Db)
        → (insert_entry e codec app_id today max db).0.apps ≡ db.apps
    unfolding insert_entry
    insert_entry-apps app_id today max db =
        let row : TimelineModel = record {
          id = next_id max;
          date = today;
          duration = some 1;
          app_id = app_id;
          checkpoint_id = get_first_active_checkpoint_id e codec app_id db;
        } in
        elim (Result-cases (e.insert timeline row db)) [
          | inr (x, f) ↦ rw (f, executed) refl
          | inl (db', f) ↦
              let put = on_ok _ _ (law.insert_law timeline row db) f in
              rw (f, executed) (ap (λ (z : Db). z.apps) put.1)
        ]

    tick_timeline-apps :
        (today : Date) (a : AppModel) (db : Db)
        → (tick_timeline e codec today a db).0.apps ≡ db.apps
    unfolding tick_timeline add_to_timeline
    tick_timeline-apps today a db = elim (Result-cases (e.one timeline (is_entry a.id today) db)) [
      | inr (x, q) ↦ rw (q, and_then) refl
      | inl (some r, q) ↦
          elim (update_cases e law timeline r.id
            (λ r'. record r' { duration = some (bump r.duration) }) db) [
              | inl f ↦ rw (q, and_then, add_to_timeline, f, executed) refl
              | inr (x, f) ↦ rw (q, and_then, add_to_timeline, f, executed) refl
            ]
      | inl (none, q) ↦ elim (Result-cases (e.max_id timeline db)) [
        | inr (x, p) ↦ rw (q, and_then, add_to_timeline, p) refl
        | inl (max, p) ↦ rw (q, and_then, add_to_timeline, p) (insert_entry-apps a.id today max db)
      ]
    ]

    -- One round of the event loop on the table of apps, on a lawful and reliable database: a LongestSession
    -- message without a second part changes nothing; else, if no app has the event's name, nothing
    -- changes, and otherwise the rows with the id of some app of that name are rewritten and no others: a
    -- Duration event sets the duration to one more than that app's, a Launches event the launches to one
    -- more, a LongestSession event the longest session and its date if the new one is longer, and a
    -- Timeline event nothing.
    pub handle_event-apps :
        (active : Bool) (today : Date) (now : DateTime) (event : String × ReceiveType) (db : Db)
        → Counts event today db
            (handle_event e codec active today now event db).0
            (message_of event)
    unfolding handle_event handle_longest_session handle_duration handle_launches handle_timeline
    handle_event-apps active today now (item, longest_session) db =
        elim (Option-cases (session_of (split b';' item))) [
          | inl q ↦ rw (q, handle_longest_session) refl
          | inr ((name, n), q) ↦
              rw (q, handle_longest_session)
                (with_app-Changes name (keep_longest e codec n today)
                  (effect_of longest_session n today) db
                  (λ a m. keep_longest-effect n today a db m))
        ]
    handle_event-apps active today now (item, duration) db =
        with_app-Changes item (add_duration e codec now) (effect_of duration 0 today) db
          (λ a m. add_duration-apps now a db m)
    handle_event-apps active today now (item, launches) db =
        with_app-Changes item (add_launch e codec now) (effect_of launches 0 today) db
          (λ a m. add_launch-apps now a db m)
    handle_event-apps active today now (item, timeline_tick) db =
        with_app-Changes item (tick_timeline e codec today) (effect_of timeline_tick 0 today) db
          (λ a m. tick_timeline-apps today a db ∙ sym (same_rows a.id db.apps))
