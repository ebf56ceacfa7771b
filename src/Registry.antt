-- ===== src/Registry.antt =====
-- add_process and delete_process of time_tracking.rs, and how `init` fills the process map: the
-- operations that change the apps table and the process map together.
pub mod Names
pub mod Consistent
use Prim.Native.String.{◌++◌ as ◌+++◌}
use time_tracker.Common.{
  String, Bool, true, false, if◌then◌else◌, List, [], ◌∷◌, Result, ok, err, unwrap_or, Option,
}
use time_tracker.Common.Map.{insert, remove}
use time_tracker.Store.{Db}
use time_tracker.Store.Engine.{Engine}
use time_tracker.Store.Codec.{Codec}
use time_tracker.Events.{Broadcast, broadcast_apps, get_processes, put_data, delete_data}
use time_tracker.Processes.{contains}
use time_tracker.Tracker.{ProcessMap}

pub record Registry : Type 0 where
  pub db : Db
  pub processes : ProcessMap

pub record Outcome : Type 0 where
  pub registry : Registry
  pub answer : Result (Unit {0})
  pub sent : List Broadcast

-- An early return through `?`.
abbrev pub rejected : Registry → String → Outcome
rejected g x = record { registry = g; answer = err x; sent = [] }

-- The text of the AddError, as it is displayed.
abbrev pub already_added : String → String
already_added process =
    "Cannot add process: Process \"" +++ (process +++ "\" has already been added before.")

-- `for p in client.get_processes()? { PROCESS_MAP.insert(p, (false, false)) }`
unfoldable pub load_processes : List String → ProcessMap → ProcessMap
load_processes [] pm = pm
load_processes (p ∷ ps) pm = load_processes ps (insert p (false, false) pm)

-- How `init` begins: the database, and the map of the processes that it names.
abbrev pub started : Db → Result (List String) → Result Registry
started db (err x) = err x
started db (ok names) = ok (record { db = db; processes = load_processes names [] })

unfoldable pub start : Engine → Db → Result Registry
start e db = started db (get_processes e db).1

module _ (e : Engine) (c : Codec) where
  unfoldable pub finish_add : Bool → String → ProcessMap → Db → Result (Unit {0}) → Outcome
  finish_add active process pm db (err x) = rejected (record { db = db; processes = pm }) x
  finish_add active process pm db (ok u) = record {
    registry = record { db = db; processes = insert process (false, false) pm };
    answer = ok tt;
    sent = broadcast_apps e c active db;
  }

  unfoldable pub add_unless_known :
      Bool → String → String → Registry → Result (List String) → Outcome
  add_unless_known active process product_name g (err x) = rejected g x
  add_unless_known active process product_name g (ok names) =
      let put = put_data e process product_name g.db in
      if contains names process
      then rejected g (already_added process)
      else finish_add active process g.processes put.0 put.1

  -- `product` is the answer of the operating system's ver_query_value.
  unfoldable pub add_process : Bool → String → Option String → Registry → Outcome
  unfolding add_unless_known
  add_process active process product g =
      add_unless_known active process (unwrap_or product process) g (get_processes e g.db).1

  unfoldable pub finish_delete : Bool → String → ProcessMap → Db → Result (Unit {0}) → Outcome
  finish_delete active process pm db (err x) = rejected (record { db = db; processes = pm }) x
  finish_delete active process pm db (ok u) = record {
    registry = record { db = db; processes = remove process pm };
    answer = ok tt;
    sent = broadcast_apps e c active db;
  }

  unfoldable pub delete_process : Bool → String → Registry → Outcome
  unfolding finish_delete
  delete_process active process g =
      let gone = delete_data e process g.db in
      finish_delete active process g.processes gone.0 gone.1
