-- ===== src/Queries.antt =====
-- The queries of seaorm_queries.rs. The clock is an argument: `now` is `chrono::Local::now()`.
pub mod Activation
pub mod Answers
use time_tracker.Common.{
  ℕ, suc, ◌%◌, String, Bool, true, false, not, ◌&&◌, ◌==◌, Option, none, some, List, [], ◌∷◌, map,
  head?, is_empty, is_true, is_text, str_eq, any, if◌then◌else◌, Result, ok, err, ok_or,
}
use time_tracker.Common.Word.{I32, i32_mod, rank}
use time_tracker.Json.{Json, array, object, string, of_list, field, end, put_field}
use time_tracker.Entities.{AliasModel, CheckpointModel, TimelineModel, DateTime}
use time_tracker.Store.{Table, Row, Db, apps, timeline, checkpoints, process_aliases}
use time_tracker.Store.Engine.{Engine, Order, asc, desc, unordered}
use time_tracker.Store.Monad.{
  M, ◌>>=◌, ◌>>◌, pure, lift, query, execute, for_each, and_then, executed,
}
use time_tracker.Store.Codec.{Codec, model_to_json}

-- json!({"success": text})
abbrev pub success_json : String → Json
success_json s = object (field "success" (string s) end)

-- A new checkpoint, before the database has given it an id.
abbrev pub new_checkpoint : String → Option String → I32 → DateTime → I32 → CheckpointModel
new_checkpoint name description app_id now id = record {
  id = id;
  name = name;
  description = description;
  created_at = some now;
  valid_from = some now;
  color = some "#2196F3";
  app_id = app_id;
  is_active = some false;
  duration = none;
  sessions_count = none;
  last_updated = some now;
  activated_at = none;
}

abbrev pub new_alias : String → I32 → I32 → AliasModel
new_alias process_name app_id id = record { id = id; process_name = process_name; app_id = app_id }

abbrev pub is_alias : String → I32 → AliasModel → Bool
is_alias process_name app_id r = str_eq r.process_name process_name && (r.app_id == app_id)

-- The columns that the loop of `set_checkpoint_active` sets, and those set at its end.
abbrev pub deactivate : DateTime → CheckpointModel → CheckpointModel
deactivate now c = record c { is_active = some false; activated_at = none; last_updated = some now }

abbrev pub set_active : Bool → DateTime → CheckpointModel → CheckpointModel
set_active is_active now c = record c {
  is_active = some is_active;
  activated_at = if is_active then some now else none;
  last_updated = some now;
}

-- The other active checkpoints of the app.
abbrev pub is_rival : I32 → I32 → CheckpointModel → Bool
is_rival app_id checkpoint_id c =
    (c.app_id == app_id) && is_true c.is_active && not (c.id == checkpoint_id)

abbrev pub is_active_for : I32 → CheckpointModel → Bool
is_active_for app_id c = (c.app_id == app_id) && is_true c.is_active

abbrev pub by_id : CheckpointModel → ℕ
by_id c = rank c.id

module _ (e : Engine) where
  unfoldable pub create_checkpoint : String → Option String → I32 → DateTime → M Json
  create_checkpoint name description app_id now = do
    execute (e.insert_new checkpoints (new_checkpoint name description app_id now))
    pure (success_json "Checkpoint created successfully")

  -- The loop over the rivals.
  unfoldable pub deactivate_all : DateTime → List CheckpointModel → M (Unit {0})
  unfolding for_each
  deactivate_all now cs = for_each cs (λ c. execute (e.update checkpoints c.id (deactivate now)))

  unfoldable pub deactivate_rivals : I32 → I32 → DateTime → M (Unit {0})
  unfolding deactivate_all
  deactivate_rivals app_id checkpoint_id now = do
    rivals ← query (e.select checkpoints (is_rival app_id checkpoint_id) unordered)
    deactivate_all now rivals

  -- `earlier` and `now` are the two readings of the clock.
  unfoldable pub set_checkpoint_active : I32 → Bool → DateTime → DateTime → M Json
  unfolding deactivate_rivals
  set_checkpoint_active checkpoint_id is_active earlier now = do
    found ← query (e.one checkpoints (λ c. c.id == checkpoint_id))
    checkpoint ← lift (ok_or found "Checkpoint not found")
    if is_active then deactivate_rivals checkpoint.app_id checkpoint_id earlier else pure tt
    execute (e.update checkpoints checkpoint.id (set_active is_active now))
    pure (success_json "Checkpoint status updated successfully")

  unfoldable pub delete_checkpoint : I32 → M Json
  delete_checkpoint checkpoint_id = do
    execute (e.delete checkpoints (λ c. c.id == checkpoint_id))
    pure (success_json "Checkpoint deleted successfully")

  unfoldable pub get_session_count_for_app : I32 → M I32
  get_session_count_for_app app_id = do
    n ← query (e.count timeline (λ r. r.app_id == app_id))
    pure (n % i32_mod)

  unfoldable pub get_all_app_ids : M (List I32)
  get_all_app_ids = do
    found ← query (e.select apps (λ r. true) (asc (λ r. rank r.id)))
    pure (map (λ r. r.id) found)

  unfoldable pub get_process_aliases_for_app : I32 → M (List String)
  get_process_aliases_for_app app_id = do
    found ← query (e.select process_aliases (λ r. r.app_id == app_id) unordered)
    pure (map (λ r. r.process_name) found)

  unfoldable pub add_process_alias : String → I32 → M Json
  add_process_alias process_name app_id = do
    execute (e.insert_new process_aliases (new_alias process_name app_id))
    pure (success_json "Process alias added successfully")

  unfoldable pub remove_process_alias : String → I32 → M Json
  remove_process_alias process_name app_id = do
    execute (e.delete process_aliases (is_alias process_name app_id))
    pure (success_json "Process alias removed successfully")

  module _ (c : Codec) where
    -- `Value::Array` of the rows of a query.
    unfoldable pub select_json : (t : Table) → (Row t → Bool) → Order (Row t) → M Json
    select_json t p o = do
      found ← query (e.select t p o)
      pure (array (of_list (map (model_to_json c t) found)))

    unfoldable pub get_all_checkpoints : M Json
    unfolding select_json
    get_all_checkpoints = select_json checkpoints (λ r. true) (desc by_id)

    unfoldable pub get_checkpoints_for_app : I32 → M Json
    unfolding select_json
    get_checkpoints_for_app app_id = select_json checkpoints (λ r. r.app_id == app_id) (desc by_id)

    unfoldable pub get_active_checkpoints : M Json
    unfolding select_json
    get_active_checkpoints = select_json checkpoints (λ r. is_true r.is_active) (desc by_id)

    unfoldable pub get_active_checkpoints_for_app : I32 → M Json
    unfolding select_json
    get_active_checkpoints_for_app app_id =
        select_json checkpoints (is_active_for app_id) (desc by_id)

    unfoldable pub get_checkpoint_durations_by_ids : List I32 → M Json
    unfolding select_json
    get_checkpoint_durations_by_ids ids =
        if is_empty ids
        then pure (array (of_list []))
        else select_json checkpoints (λ r. any (λ k. r.id == k) ids)
            (desc (λ r. elim r.last_updated [ none ↦ 0 | some t ↦ suc t ]))

    -- A row of the timeline, with its checkpoint as one more field.
    abbrev pub with_checkpoint : Json → Option CheckpointModel → Json
    with_checkpoint (object fs) (some r) =
        object (put_field "checkpoint" (model_to_json c checkpoints r) fs)
    with_checkpoint v _ = v

    unfoldable pub get_timeline_with_checkpoints : M Json
    get_timeline_with_checkpoints = do
      found ← query (e.find_also_related (desc (λ (r : TimelineModel). r.date)))
      pure (array (of_list (map (λ x. with_checkpoint (model_to_json c timeline x.0) x.1) found)))
