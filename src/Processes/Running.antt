-- ===== src/Processes/Running.antt =====
-- `are_processes_running` against the plain question: does some live process go by one of the names?
use time_tracker.Common.{
  String, ◌≡◌, refl, ◌∙◌, Bool, true, false, not, ◌&&◌, ◌||◌, none, some, List, [], ◌∷◌, str_eq,
  eq_iff, any, if◌then◌else◌, arith,
}
use time_tracker.Common.Map.{Map, lookup, insert, lookup-insert}
use time_tracker.Processes.{
  Process, Aliases, contains, by_own_name, by_alias, alias_list, listed, mark, mark_processes,
  are_processes_running,
}

-- A live process that goes by the target's name or one of its aliases.
abbrev pub runs_as : Aliases → String → Process → Bool
runs_as aliases target process =
    not process.is_zombie
    && (str_eq target process.name || listed (alias_list aliases target) process.name)

pub lookup-mark :
    (test : String → Bool) (value : Bool) (targets : List String) (m : Map Bool) (k : String)
    → lookup k (mark test value targets m)
      ≡ (if contains targets k && test k then some value else lookup k m)
unfolding mark
lookup-mark test value [] m k = refl
lookup-mark test value (t ∷ ts) m k =
    lookup-mark test value ts (if test t then insert t value m else m) k
    ∙ ground (arith, lookup-insert t k value m, eq_iff t k)

lookup-mark_processes :
    (targets : List String) (aliases : Aliases) (table : List Process) (m : Map Bool) (k : String)
    → lookup k (mark_processes targets aliases table m)
      ≡ (if contains targets k && any (runs_as aliases k) table then some true else lookup k m)
unfolding mark_processes
lookup-mark_processes targets aliases [] m k = ground arith
lookup-mark_processes targets aliases (p ∷ ps) m k =
    let own = mark (by_own_name p) true targets m in
    lookup-mark_processes targets aliases ps (mark (by_alias aliases p) true targets own) k
    ∙ ground (
      arith,
      lookup-mark (by_alias aliases p) true targets own k,
      lookup-mark (by_own_name p) true targets m k,
    )

-- The map has an entry for each tracked process and for no other, and the entry says whether some
-- process that is no zombie goes by its name or by one of its aliases.
pub are_processes_running_lem :
    (processes : List String) (aliases : Aliases) (table : List Process) (k : String)
    → lookup k (are_processes_running processes aliases table)
      ≡ (if contains processes k then some (any (runs_as aliases k) table) else none)
unfolding are_processes_running lookup
are_processes_running_lem processes aliases table k =
    lookup-mark_processes processes aliases table (mark (λ target. true) false processes []) k
    ∙ ground (arith, lookup-mark (λ target. true) false processes [] k)
