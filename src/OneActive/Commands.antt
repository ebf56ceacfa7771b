-- ===== src/OneActive/Commands.antt =====
-- The invariant under every function of the program that writes to the database.
use time_tracker.Common.{
  refl, inl, inr, String, Bool, ◌==◌, Bool-cases, Option, Option-cases, none, some, List, [], ◌∷◌,
  unwrap_or, Result-cases,
}
use time_tracker.Common.Word.{I32, gt32}
use time_tracker.Json.{Json, as_array}
use time_tracker.Text.{split}
use time_tracker.Entities.{AppModel, TimelineModel, CheckpointModel, Date, DateTime}
use time_tracker.Store.{apps, timeline, checkpoints, process_aliases, Db}
use time_tracker.Store.Engine.{Engine, Lawful, desc}
use time_tracker.Store.Monad.{M, query, execute, and_then}
use time_tracker.Store.Codec.{Codec}
use time_tracker.Queries.{
  set_checkpoint_active, create_checkpoint, delete_checkpoint, add_process_alias,
  remove_process_alias, new_alias, is_alias, new_checkpoint, is_active_for, by_id,
  get_active_checkpoints_for_app,
}
use time_tracker.Events.{
  ReceiveType, when_some, by_name, bump, set_duration, set_launches, is_entry, session_of,
  update_checkpoint_durations, update_checkpoint_sessions, put_data, insert_app, set_longest,
  update_listed, update_each, add_duration, add_launch, keep_longest, add_to_timeline, insert_entry,
  tick_timeline, with_app, handle_longest_session, delete_data, handle_event, update_checkpoint,
  update_checkpoints,
}
use time_tracker.OneActive.{IsConsistent, IsTame}
use time_tracker.OneActive.Keeps.{
  Keeps, Keeps-bind, Keeps-for_each, Keeps-update, Keeps-insert, Keeps-insert_checkpoint,
  Keeps-insert_alias, Keeps-delete, Keeps-call,
}
use time_tracker.OneActive.Switching.{set_checkpoint_active-Keeps}

-- What a client, the event loop or the command line can ask for.
pub data Command : Type 0 where
  creates : String → Option String → I32 → DateTime → Command
  sets : I32 → Bool → DateTime → DateTime → Command
  deletes : I32 → Command
  adds_app : String → String → Command
  deletes_app : String → Command
  adds_alias removes_alias : String → I32 → Command
  event : Bool → Date → DateTime → String × ReceiveType → Command

module _ (e : Engine) (codec : Codec) where
  unfoldable pub step : Command → Db → Db
  step (creates name description app_id now) db =
      (create_checkpoint e name description app_id now db).0
  step (sets id b earlier now) db = (set_checkpoint_active e id b earlier now db).0
  step (deletes id) db = (delete_checkpoint e id db).0
  step (adds_app item product_name) db = (put_data e item product_name db).0
  step (deletes_app item) db = (delete_data e item db).0
  step (adds_alias name app_id) db = (add_process_alias e name app_id db).0
  step (removes_alias name app_id) db = (remove_process_alias e name app_id db).0
  step (event active today now message) db = (handle_event e codec active today now message db).0

  unfoldable pub run : List Command → Db → Db
  run [] db = db
  run (c ∷ cs) db = run cs (step c db)

  module _ (law : Lawful e) where
    update_checkpoint-Keeps :
        (set : CheckpointModel → CheckpointModel → CheckpointModel)
        → ((r : CheckpointModel) → IsTame (set r))
        → (value : Json) → Keeps (update_checkpoint e codec set value)
    unfolding update_checkpoint
    update_checkpoint-Keeps set tame value db v = elim (Result-cases (codec.decode value)) [
      | inr (x, q) ↦ rw (q, update_checkpoint) v
      | inl (read, q) ↦
          rw (q, update_checkpoint)
            (elim (Result-cases (e.one checkpoints (λ r. r.id == read.id) db)) [
              | inr (x, p) ↦ rw p v
              | inl (none, p) ↦ rw p v
              | inl (some r, p) ↦
                  rw p (Keeps-update e law checkpoints r.id (set read) (tame read) db v)
            ])
    ]

    active-Keeps : (app_id : I32) → Keeps (get_active_checkpoints_for_app e codec app_id)
    unfolding get_active_checkpoints_for_app
    active-Keeps app_id db v =
        elim (Result-cases (e.select checkpoints (is_active_for app_id) (desc by_id) db)) [
          | inl (xs, q) ↦ rw (q, and_then) v
          | inr (x, q) ↦ rw (q, and_then) v
        ]

    update_listed-Keeps :
        (set : CheckpointModel → CheckpointModel → CheckpointModel)
        → ((r : CheckpointModel) → IsTame (set r))
        → (value : Json) → Keeps (update_listed e codec set value)
    unfolding update_listed update_each
    update_listed-Keeps set tame value db v = elim (Option-cases (as_array value)) [
      | inl q ↦ rw (q, when_some) v
      | inr (vs, q) ↦
          rw (q, when_some)
            (Keeps-for_each (update_checkpoint e codec set) (update_checkpoint-Keeps set tame) vs db
              v)
    ]

    update_checkpoints-Keeps :
        (set : CheckpointModel → CheckpointModel → CheckpointModel)
        → ((r : CheckpointModel) → IsTame (set r))
        → (app_id : I32) → Keeps (update_checkpoints e codec set app_id)
    unfolding update_checkpoints
    update_checkpoints-Keeps set tame app_id =
        Keeps-bind (get_active_checkpoints_for_app e codec app_id) (update_listed e codec set)
          (active-Keeps app_id) (update_listed-Keeps set tame)

    add_duration-Keeps : (now : DateTime) (app : AppModel) → Keeps (add_duration e codec now app)
    unfolding add_duration update_checkpoint_durations
    add_duration-Keeps now app =
        Keeps-bind (execute (e.update apps app.id (set_duration (bump app.duration))))
          (λ _. update_checkpoint_durations e codec app.id now)
          (Keeps-update e law apps app.id _ tt)
          (λ _.
            update_checkpoints-Keeps _
              (λ r. record { same_id = λ r. refl; same_app = λ r. refl; calm = λ r h. h }) app.id)

    add_launch-Keeps : (now : DateTime) (app : AppModel) → Keeps (add_launch e codec now app)
    unfolding add_launch update_checkpoint_sessions
    add_launch-Keeps now app =
        Keeps-bind (execute (e.update apps app.id (set_launches (bump app.launches))))
          (λ _. update_checkpoint_sessions e codec app.id now) (Keeps-update e law apps app.id _ tt)
          (λ _.
            update_checkpoints-Keeps _
              (λ r. record { same_id = λ r. refl; same_app = λ r. refl; calm = λ r h. h }) app.id)

    keep_longest-Keeps :
        (n : I32) (today : Date) (app : AppModel) → Keeps (keep_longest e codec n today app)
    unfolding keep_longest
    keep_longest-Keeps n today app db v =
        elim (Bool-cases (gt32 n (unwrap_or app.longest_session 0))) [
          | inl q ↦ rw q (Keeps-update e law apps app.id (set_longest n today) tt db v)
          | inr q ↦ rw q v
        ]

    add_to_timeline-Keeps :
        (app_id : I32) (today : Date) (entry : Option TimelineModel)
        → Keeps (add_to_timeline e codec app_id today entry)
    unfolding add_to_timeline insert_entry
    add_to_timeline-Keeps app_id today (some r) db v = Keeps-update e law timeline r.id _ tt db v
    add_to_timeline-Keeps app_id today none db v =
        Keeps-bind (query (e.max_id timeline)) (insert_entry e codec app_id today) (λ db v. v)
          (λ max db v. Keeps-insert e law timeline _ (λ q. cc) db v) db v

    tick_timeline-Keeps : (today : Date) (app : AppModel) → Keeps (tick_timeline e codec today app)
    unfolding tick_timeline
    tick_timeline-Keeps today app =
        Keeps-bind (query (e.one timeline (is_entry app.id today)))
          (add_to_timeline e codec app.id today) (λ db v. v) (add_to_timeline-Keeps app.id today)

    with_app-Keeps :
        (item : String) (act : AppModel → M (Unit {0}))
        → ((app : AppModel) → Keeps (act app))
        → Keeps (with_app e codec item act)
    unfolding with_app
    with_app-Keeps item act k db v = elim (Result-cases (e.one apps (by_name item) db)) [
      | inl (none, q) ↦ rw (q, and_then) v
      | inl (some app, q) ↦ rw (q, and_then) (k app db v)
      | inr (x, q) ↦ rw (q, and_then) v
    ]

    event-Keeps :
        (active : Bool) (today : Date) (now : DateTime) (message : String × ReceiveType) (db : Db)
        → IsConsistent db.checkpoints
        → IsConsistent (handle_event e codec active today now message db).0.checkpoints
    unfolding handle_event
    event-Keeps active today now (item, ReceiveType.longest_session) db v =
        elim (Option-cases (session_of (split b';' item))) [
          | inl q ↦ rw (q, handle_longest_session) v
          | inr ((name, n), q) ↦
              rw (q, handle_longest_session)
                (with_app-Keeps name (keep_longest e codec n today) (keep_longest-Keeps n today) db
                  v)
        ]
    event-Keeps active today now (item, ReceiveType.duration) db v =
        with_app-Keeps item _ (add_duration-Keeps now) db v
    event-Keeps active today now (item, ReceiveType.launches) db v =
        with_app-Keeps item _ (add_launch-Keeps now) db v
    event-Keeps active today now (item, ReceiveType.timeline_tick) db v =
        with_app-Keeps item _ (tick_timeline-Keeps today) db v

    step-IsConsistent :
        (c : Command) (db : Db) → IsConsistent db.checkpoints → IsConsistent (step c db).checkpoints
    unfolding step create_checkpoint delete_checkpoint put_data insert_app delete_data
        add_process_alias remove_process_alias
    step-IsConsistent (creates name description app_id now) db v =
        Keeps-call (e.insert_new checkpoints (new_checkpoint name description app_id now)) _
          (Keeps-insert_checkpoint e law (new_checkpoint name description app_id now) (λ k. refl))
          db v
    step-IsConsistent (sets id b earlier now) db v =
        set_checkpoint_active-Keeps e law id b earlier now db v
    step-IsConsistent (deletes id) db v =
        Keeps-call (e.delete checkpoints (λ c. c.id == id)) _
          (Keeps-delete e law checkpoints (λ c. c.id == id)) db v
    step-IsConsistent (adds_app item product_name) db v =
        Keeps-bind (query (e.max_id apps)) (insert_app e item product_name) (λ db v. v)
          (λ max db v. Keeps-insert e law apps _ (λ q. cc) db v) db v
    step-IsConsistent (deletes_app item) db v = Keeps-delete e law apps (by_name item) db v
    step-IsConsistent (adds_alias name app_id) db v =
        Keeps-call (e.insert_new process_aliases (new_alias name app_id)) _
          (Keeps-insert_alias e law (new_alias name app_id)) db v
    step-IsConsistent (removes_alias name app_id) db v =
        Keeps-call (e.delete process_aliases (is_alias name app_id)) _
          (Keeps-delete e law process_aliases (is_alias name app_id)) db v
    step-IsConsistent (event active today now message) db v =
        event-Keeps active today now message db v

    -- With a lawful database, whichever calls fail and wherever a function is cut short by it: in
    -- every history of commands no app ever has two active checkpoints, and ids stay unique, if that
    -- was so at the start.
    pub run-IsConsistent :
        (cs : List Command) (db : Db)
        → IsConsistent db.checkpoints
        → IsConsistent (run cs db).checkpoints
    unfolding run
    run-IsConsistent [] db v = v
    run-IsConsistent (c ∷ cs) db v = run-IsConsistent cs (step c db) (step-IsConsistent c db v)
