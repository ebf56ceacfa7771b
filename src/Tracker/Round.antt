-- ===== src/Tracker/Round.antt =====
-- One round of `check_processes`.
use mathlib.Core.Bool.{false≢true}
use time_tracker.Common.{
  String, ◌≡◌, ◌≢◌, refl, ◌∙◌, inl, inr, Bool, true, false, not, ◌&&◌, ◌||◌, none, some, List, [],
  ◌∷◌, eq_iff, any, is_empty, Has, filter, map, arith,
}
use time_tracker.Common.Map.{Map, lookup, keys}
use time_tracker.Processes.{Process, Aliases, contains, mark, mark_processes, are_processes_running}
use time_tracker.Processes.Running.{runs_as, are_processes_running_lem}
use time_tracker.Tracker.{ProcessMap, update_entry, apply_running, check_round}

-- Whether the process runs, by the answer of the process table.
abbrev pub is_running : Map (List String) → List Process → String → Bool
is_running aliases table p = any (runs_as (some aliases) p) table

-- What a round makes of an entry, and whether it spawns a thread for it.
abbrev pub after_round :
    Map (List String) → List Process → String × (Bool × Bool) → String × (Bool × Bool)
after_round aliases table (p, (running, tracked)) =
    (p, (is_running aliases table p, is_running aliases table p || tracked))

abbrev pub needs_thread : Map (List String) → List Process → String × (Bool × Bool) → Bool
needs_thread aliases table (p, (running, tracked)) = is_running aliases table p && not tracked

apply_running_lem :
    (names : List String) (aliases : Map (List String)) (table : List Process) (pm : ProcessMap)
    → ((p : String) → Has p (keys pm) → contains names p ≡ true)
    → apply_running (are_processes_running names (some aliases) table) pm
      ≡ some (
        map (after_round aliases table) pm,
        map (λ e. e.0) (filter (needs_thread aliases table) pm),
      )
unfolding apply_running update_entry
apply_running_lem names aliases table [] h = refl
apply_running_lem names aliases table ((p, (running, tracked)) ∷ rest) h = ground (
  arith,
  apply_running_lem names aliases table rest (λ q m. h q (inr m)),
  are_processes_running_lem names (some aliases) table p,
  h p (inl refl),
)

-- An entry that the snapshot lacks makes the loop panic.
apply_running-panics :
    (names : List String) (aliases : Map (List String)) (table : List Process) (pm : ProcessMap)
    (p : String)
    → Has p (keys pm)
    → contains names p ≡ false
    → apply_running (are_processes_running names (some aliases) table) pm ≡ none
unfolding apply_running update_entry
apply_running-panics names aliases table ((q, (running, tracked)) ∷ rest) p (inl e) h =
    rw (← e) (ground (arith, are_processes_running_lem names (some aliases) table p))
apply_running-panics names aliases table ((q, entry) ∷ rest) p (inr m) h =
    ground (arith, apply_running-panics names aliases table rest p m h)
apply_running-panics names aliases table [] p m h = absurd m

mark_processes-nil :
    (aliases : Aliases) (table : List Process) → mark_processes [] aliases table [] ≡ []
unfolding mark_processes mark
mark_processes-nil aliases [] = refl
mark_processes-nil aliases (p ∷ ps) = mark_processes-nil aliases ps

is_empty_of_lookup :
    (k : String) (b : Bool) (m : Map Bool) → lookup k m ≡ some b → is_empty m ≡ false
unfolding lookup
is_empty_of_lookup k b [] h = cc
is_empty_of_lookup k b (x ∷ m) h = refl

-- The answer of the process table is empty only for no question.
is_empty-running :
    (names : List String) (aliases : Aliases) (table : List Process)
    → is_empty (are_processes_running names aliases table) ≡ is_empty names
unfolding are_processes_running mark
is_empty-running [] aliases table = rw (mark_processes-nil aliases table)
is_empty-running (n ∷ ns) aliases table =
    is_empty_of_lookup n (any (runs_as aliases n) table) _
      (are_processes_running_lem (n ∷ ns) aliases table n ∙ ground (arith, eq_iff n n))

-- If every key of the map stood in the snapshot, the round does not panic. It sets the first flag of
-- each process to whether the process runs, raises the second flag of those that run, and asks for a
-- thread for exactly those that run and had none.
pub check_round_lem :
    (names : List String) (aliases : Map (List String)) (table : List Process) (pm : ProcessMap)
    → ((p : String) → Has p (keys pm) → contains names p ≡ true)
    → check_round names aliases table pm
      ≡ some (
        map (after_round aliases table) pm,
        map (λ e. e.0) (filter (needs_thread aliases table) pm),
      )
unfolding check_round
check_round_lem [] aliases table [] h = ground (arith, is_empty-running [] (some aliases) table)
check_round_lem [] aliases table (x ∷ pm) h = absurd (false≢true (h x.0 (inl refl)))
check_round_lem (n ∷ ns) aliases table pm h =
    rw (is_empty-running (n ∷ ns) (some aliases) table)
      (apply_running_lem (n ∷ ns) aliases table pm h)

-- A process that was added to the map after the snapshot was taken makes the round panic, if the
-- snapshot was not empty.
pub check_round-panics :
    (names : List String) (aliases : Map (List String)) (table : List Process) (pm : ProcessMap)
    (p : String)
    → names ≢ []
    → Has p (keys pm)
    → contains names p ≡ false
    → check_round names aliases table pm ≡ none
unfolding check_round
check_round-panics [] aliases table pm p some_name m h = absurd (some_name refl)
check_round-panics (n ∷ ns) aliases table pm p some_name m h =
    rw (is_empty-running (n ∷ ns) (some aliases) table)
      (apply_running-panics (n ∷ ns) aliases table pm p m h)
