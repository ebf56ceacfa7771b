-- ===== src/Events/Checkpoints.antt =====
-- What the events of a tracked process do to the active checkpoints of its app.
use time_tracker.Common.{
  ◌+◌, ◌%◌, String, ◌≡◌, refl, ap, ◌∙◌, ◌⊎◌, inl, inr, Bool, true, false, ◌&&◌, ◌==◌, none, some,
  map, Has, is_true, unwrap_or, if◌then◌else◌, Result, arith,
}
use time_tracker.Common.Word.{i32_mod}
use time_tracker.Entities.{AppModel, DateTime}
use time_tracker.Store.{Db, apps, checkpoints, update_rows}
use time_tracker.Store.Engine.{Engine, Lawful, Reliable}
use time_tracker.Store.Monad.{and_then, execute}
use time_tracker.Store.Codec.{Codec, RoundTrips}
use time_tracker.Store.Calls.{then_ok, execute_ok, one_cases}
use time_tracker.Queries.{is_active_for}
use time_tracker.Queries.Activation.{Keyed}
use time_tracker.Events.{
  by_name, bump, set_duration, set_launches, add_time, add_session, update_checkpoint_durations,
  update_checkpoint_sessions, add_duration, add_launch, with_app, handle_duration, handle_launches,
}
use time_tracker.Events.Effects.{update_app}
use time_tracker.Events.Rounds.{Settles, update_checkpoints_lem}

module _ (e : Engine) (codec : Codec) (law : Lawful e) (sure : Reliable e)
    (round : RoundTrips codec) where
  add_time-Settles : (now : DateTime) → Settles (λ read. add_time (bump read.duration) now)
  add_time-Settles now = record { leaves = λ c r. (refl, refl, refl); again = λ c r. refl }

  add_session-Settles :
      (now : DateTime) → Settles (λ read. add_session (bump read.sessions_count) now)
  add_session-Settles now = record { leaves = λ c r. (refl, refl, refl); again = λ c r. refl }

  add_duration_lem :
      (now : DateTime) (a : AppModel) (db : Db)
      → Has a db.apps
      → Keyed checkpoints db.checkpoints
      → (add_duration e codec now a db).0 ≡ record db {
        apps = update_rows apps a.id (set_duration (bump a.duration)) db.apps;
        checkpoints =
            map
              (λ c. if is_active_for a.id c then add_time (bump c.duration) now c else c)
              db.checkpoints;
      }
  unfolding add_duration update_checkpoint_durations
  add_duration_lem now a db there keyed =
      ap (λ (z : Db × Result (Unit {0})). z.0)
        (then_ok (execute (e.update apps a.id (set_duration (bump a.duration))))
            (λ _. update_checkpoint_durations e codec a.id now) db
            (execute_ok (e.update apps a.id (set_duration (bump a.duration))) db
              (update_app e codec law sure a (set_duration (bump a.duration)) db there (λ r. refl)))
          ∙ update_checkpoints_lem e codec law sure round
              (λ read. add_time (bump read.duration) now) (add_time-Settles now) a.id
              (record db { apps = update_rows apps a.id (set_duration (bump a.duration)) db.apps })
              keyed)

  add_launch_lem :
      (now : DateTime) (a : AppModel) (db : Db)
      → Has a db.apps
      → Keyed checkpoints db.checkpoints
      → (add_launch e codec now a db).0 ≡ record db {
        apps = update_rows apps a.id (set_launches (bump a.launches)) db.apps;
        checkpoints =
            map
              (λ c. if is_active_for a.id c then add_session (bump c.sessions_count) now c else c)
              db.checkpoints;
      }
  unfolding add_launch update_checkpoint_sessions
  add_launch_lem now a db there keyed =
      ap (λ (z : Db × Result (Unit {0})). z.0)
        (then_ok (execute (e.update apps a.id (set_launches (bump a.launches))))
            (λ _. update_checkpoint_sessions e codec a.id now) db
            (execute_ok (e.update apps a.id (set_launches (bump a.launches))) db
              (update_app e codec law sure a (set_launches (bump a.launches)) db there (λ r. refl)))
          ∙ update_checkpoints_lem e codec law sure round
              (λ read. add_session (bump read.sessions_count) now) (add_session-Settles now) a.id
              (record db { apps = update_rows apps a.id (set_launches (bump a.launches)) db.apps })
              keyed)

  -- A handler that acts on the app of a name does nothing, or what it does with an app of that name.
  with_app_lem :
      (item : String) (act : AppModel → Db → Db × Result (Unit {0})) (P : AppModel → Db → Type 0)
      (db : Db)
      → ((a : AppModel) → Has a db.apps → P a (act a db).0)
      → (((a : AppModel) → Has a db.apps → by_name item a ≡ false)
          × ((with_app e codec item act db).0 ≡ db))
        ⊎ ((a : AppModel) × Has a db.apps
            × (by_name item a ≡ true)
            × P a (with_app e codec item act db).0)
  unfolding with_app
  with_app_lem item act P db does = elim (one_cases e law apps (by_name item) db) [
    | inr (x, q) ↦
        let (found, p) = sure.one_answers apps (by_name item) db in absurd (ground (arith, p, q))
    | inl (none, q, nobody) ↦ inl (nobody, rw (q, and_then) refl)
    | inl (some a, q, found) ↦ inr (a, found.0, found.1, rw (q, and_then) (does a found.0))
  ]

  -- A Duration event on a lawful and reliable database with unique checkpoint ids, and a serialization that
  -- reads checkpoints back as they were: if no app has the name, nothing changes; otherwise some app has
  -- it, and the duration of the app and of each of its active checkpoints is one more than it was (an
  -- empty one counts as 0), modulo 2^32, those checkpoints have the event's time as their last update, and
  -- nothing else has changed.
  pub handle_duration_lem :
      (active : Bool) (item : String) (now : DateTime) (db : Db)
      → Keyed checkpoints db.checkpoints
      → (((a : AppModel) → Has a db.apps → by_name item a ≡ false)
          × ((handle_duration e codec active item now db).0 ≡ db))
        ⊎ ((a : AppModel) × Has a db.apps
            × (by_name item a ≡ true)
            × ((handle_duration e codec active item now db).0 ≡ record db {
              apps =
                  map
                    (λ x.
                      if x.id == a.id
                      then record x { duration = some ((unwrap_or a.duration 0 + 1) % i32_mod) }
                      else x)
                    db.apps;
              checkpoints =
                  map
                    (λ c.
                      if (c.app_id == a.id) && is_true c.is_active
                      then record c {
                        duration = some ((unwrap_or c.duration 0 + 1) % i32_mod);
                        last_updated = some now;
                      }
                      else c)
                    db.checkpoints;
            }))
  unfolding handle_duration
  handle_duration_lem active item now db keyed =
      with_app_lem item (add_duration e codec now)
        (λ a db'. db' ≡ record db {
          apps = update_rows apps a.id (set_duration (bump a.duration)) db.apps;
          checkpoints =
              map (λ c. if is_active_for a.id c then add_time (bump c.duration) now c else c)
                db.checkpoints;
        })
        db (λ a there. add_duration_lem now a db there keyed)

  -- A Launches event under the same conditions: if no app has the name, nothing changes; otherwise some app
  -- has it, and the launches of the app and the sessions of each of its active checkpoints are one more than
  -- before (an empty count as 0), modulo 2^32, those checkpoints have the event's time as their last
  -- update, and nothing else has changed.
  pub handle_launches_lem :
      (active : Bool) (item : String) (now : DateTime) (db : Db)
      → Keyed checkpoints db.checkpoints
      → (((a : AppModel) → Has a db.apps → by_name item a ≡ false)
          × ((handle_launches e codec active item now db).0 ≡ db))
        ⊎ ((a : AppModel) × Has a db.apps
            × (by_name item a ≡ true)
            × ((handle_launches e codec active item now db).0 ≡ record db {
              apps =
                  map
                    (λ x.
                      if x.id == a.id
                      then record x { launches = some ((unwrap_or a.launches 0 + 1) % i32_mod) }
                      else x)
                    db.apps;
              checkpoints =
                  map
                    (λ c.
                      if (c.app_id == a.id) && is_true c.is_active
                      then record c {
                        sessions_count = some ((unwrap_or c.sessions_count 0 + 1) % i32_mod);
                        last_updated = some now;
                      }
                      else c)
                    db.checkpoints;
            }))
  unfolding handle_launches
  handle_launches_lem active item now db keyed =
      with_app_lem item (add_launch e codec now)
        (λ a db'. db' ≡ record db {
          apps = update_rows apps a.id (set_launches (bump a.launches)) db.apps;
          checkpoints =
              map
                (λ c. if is_active_for a.id c then add_session (bump c.sessions_count) now c else c)
                db.checkpoints;
        })
        db (λ a there. add_launch_lem now a db there keyed)
