-- ===== src/Processes.antt =====
-- Which tracked processes run: `ux_are_processes_running` of linux.rs. The process table of the
-- operating system is an argument.
pub mod Running
pub mod Windows
use time_tracker.Common.{
  String, Bool, true, false, not, ◌&&◌, Option, none, some, List, [], ◌∷◌, str_eq, any,
  if◌then◌else◌,
}
use time_tracker.Common.Map.{Map, lookup, insert}

-- An entry of the process table: its name, or "" where it is no text, and whether it is a zombie.
pub record Process : Type 0 where
  pub name : String
  pub is_zombie : Bool

abbrev pub contains : List String → String → Bool
contains xs s = any (λ x. str_eq x s) xs

abbrev pub Aliases : Type 0
Aliases = Option (Map (List String))

-- The two tests on a target process, by its name and by its aliases.
abbrev pub by_own_name : Process → String → Bool
by_own_name process target = str_eq target process.name && not process.is_zombie

abbrev pub alias_list : Aliases → String → Option (List String)
alias_list none target = none
alias_list (some m) target = lookup target m

abbrev pub listed : Option (List String) → String → Bool
listed none name = false
listed (some names) name = contains names name

abbrev pub by_alias : Aliases → Process → String → Bool
by_alias aliases process target =
    listed (alias_list aliases target) process.name && not process.is_zombie

-- `for target in processes { if test(target) { map.insert(target, value) } }`
unfoldable pub mark : (String → Bool) → Bool → List String → Map Bool → Map Bool
mark test value [] m = m
mark test value (target ∷ targets) m =
    mark test value targets (if test target then insert target value m else m)

unfoldable pub mark_processes : List String → Aliases → List Process → Map Bool → Map Bool
unfolding mark
mark_processes targets aliases [] m = m
mark_processes targets aliases (process ∷ rest) m =
    mark_processes targets aliases rest
      (mark (by_alias aliases process) true targets (mark (by_own_name process) true targets m))

unfoldable pub are_processes_running : List String → Aliases → List Process → Map Bool
unfolding mark mark_processes
are_processes_running processes aliases table =
    mark_processes processes aliases table (mark (λ target. true) false processes [])
