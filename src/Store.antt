-- ===== src/Store.antt =====
-- The tables that the migrations create (migration/*.rs), as lists of rows whose order means
-- nothing, and what their foreign keys do when a row is deleted.
pub mod Engine
pub mod Monad
pub mod Codec
pub mod Calls
pub mod Sorting
pub mod Memory
use time_tracker.Common.{
  ℕ, ◌≤◌, str_eq, ◌==◌, Bool, true, false, not, ◌&&◌, Option, none, some, List, [], ◌∷◌, map,
  filter, any, if◌then◌else◌, unwrap_or,
}
use time_tracker.Common.Word.{I32}
use time_tracker.Entities.{AppModel, TimelineModel, CheckpointModel, AliasModel}

pub data Table : Type 0 where
  apps timeline checkpoints process_aliases : Table

abbrev pub Row : Table → Type 0
Row apps = AppModel
Row timeline = TimelineModel
Row checkpoints = CheckpointModel
Row process_aliases = AliasModel

pub record Db : Type 0 where
  pub apps : List AppModel
  pub timeline : List TimelineModel
  pub checkpoints : List CheckpointModel
  pub process_aliases : List AliasModel

abbrev pub rows : (t : Table) → Db → List (Row t)
rows apps db = db.apps
rows timeline db = db.timeline
rows checkpoints db = db.checkpoints
rows process_aliases db = db.process_aliases

abbrev pub put_rows : (t : Table) → List (Row t) → Db → Db
put_rows apps xs db = record db { apps = xs }
put_rows timeline xs db = record db { timeline = xs }
put_rows checkpoints xs db = record db { checkpoints = xs }
put_rows process_aliases xs db = record db { process_aliases = xs }

-- The primary key.
abbrev pub key : (t : Table) → Row t → I32
key apps r = r.id
key timeline r = r.id
key checkpoints r = r.id
key process_aliases r = r.id

-- `UPDATE t SET … WHERE id = k`
abbrev pub update_rows : (t : Table) → I32 → (Row t → Row t) → List (Row t) → List (Row t)
update_rows t k f = map (λ r. if key t r == k then f r else r)

abbrev pub has_key : (t : Table) → I32 → List (Row t) → Bool
has_key t k = any (λ r. key t r == k)

-- The unique index checkpoints_name_app_id_unique: some row has the name and the app of the new one.
abbrev pub clashes : (t : Table) → Row t → List (Row t) → Bool
clashes checkpoints r cs = any (λ c. str_eq c.name r.name && (c.app_id == r.app_id)) cs
clashes apps r rs = false
clashes timeline r rs = false
clashes process_aliases r rs = false

-- `ON DELETE SET NULL` of timeline.checkpoint_id
abbrev pub clear_checkpoint : List CheckpointModel → TimelineModel → TimelineModel
clear_checkpoint gone r =
    if elim r.checkpoint_id [ none ↦ false | some k ↦ has_key checkpoints k gone ]
    then record r { checkpoint_id = none }
    else r

unfoldable pub delete_checkpoints : (CheckpointModel → Bool) → Db → Db
delete_checkpoints p db = record db {
  checkpoints = filter (λ r. not (p r)) db.checkpoints;
  timeline = map (clear_checkpoint (filter p db.checkpoints)) db.timeline;
}

-- `ON DELETE CASCADE` of the three app_id columns
unfoldable pub delete_apps : (AppModel → Bool) → Db → Db
unfolding delete_checkpoints
delete_apps p db =
    let gone = λ (k : I32). has_key apps k (filter p db.apps) in
    let rest = delete_checkpoints (λ c. gone c.app_id) db in
    record rest {
      apps = filter (λ r. not (p r)) db.apps;
      timeline = filter (λ r. not (gone r.app_id)) rest.timeline;
      process_aliases = filter (λ r. not (gone r.app_id)) db.process_aliases;
    }

-- The database after `DELETE FROM t WHERE p`
unfoldable pub delete_rows : (t : Table) → (Row t → Bool) → Db → Db
unfolding delete_apps delete_checkpoints
delete_rows apps p db = delete_apps p db
delete_rows timeline p db = record db { timeline = filter (λ r. not (p r)) db.timeline }
delete_rows checkpoints p db = delete_checkpoints p db
delete_rows process_aliases p db = record db {
  process_aliases = filter (λ r. not (p r)) db.process_aliases;
}
