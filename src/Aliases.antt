-- ===== src/Aliases.antt =====
-- get_all_process_aliases and get_process_aliases_by_app_names of seaorm_queries.rs.
pub mod Complete
use time_tracker.Common.{
  String, Bool, true, Option, none, some, List, [], ◌∷◌, map, is_empty, if◌then◌else◌, ◌==◌,
}
use time_tracker.Common.Word.{I32}
use time_tracker.Common.Map.{Map, insert}
use time_tracker.Entities.{AppModel, AliasModel}
use time_tracker.Store.{apps, process_aliases}
use time_tracker.Store.Engine.{Engine, unordered}
use time_tracker.Store.Monad.{M, ◌>>=◌, pure, query, and_then}
use time_tracker.Events.{by_name}

-- The loop that fills the map of get_all_process_aliases.
unfoldable pub insert_rows : List AliasModel → Map I32 → Map I32
insert_rows [] m = m
insert_rows (r ∷ rs) m = insert_rows rs (insert r.process_name r.app_id m)

-- One name with its aliases, if it has any.
abbrev pub insert_some : String → Map (List String) → List String → Map (List String)
insert_some app_name m aliases = if is_empty aliases then m else insert app_name aliases m

module _ (e : Engine) where
  unfoldable pub get_all_process_aliases : M (Map I32)
  unfolding insert_rows
  get_all_process_aliases = do
    aliases ← query (e.select process_aliases (λ r. true) unordered)
    pure (insert_rows aliases [])

  unfoldable pub add_aliases : String → Map (List String) → Option AppModel → M (Map (List String))
  add_aliases app_name m none = pure m
  add_aliases app_name m (some app_model) = do
    found ← query (e.select process_aliases (λ r. r.app_id == app_model.id) unordered)
    pure (insert_some app_name m (map (λ r. r.process_name) found))

  unfoldable pub aliases_of : String → Map (List String) → M (Map (List String))
  unfolding add_aliases
  aliases_of app_name m = query (e.one apps (by_name app_name)) >>= add_aliases app_name m

  -- The loop over the names, from the map so far.
  unfoldable pub gather_aliases : List String → Map (List String) → M (Map (List String))
  gather_aliases [] m = pure m
  gather_aliases (app_name ∷ rest) m = aliases_of app_name m >>= gather_aliases rest

  unfoldable pub get_process_aliases_by_app_names : List String → M (Map (List String))
  get_process_aliases_by_app_names app_names = gather_aliases app_names []
