-- ===== src/Tests/Trackers.antt =====
-- The theorems on the process table, the check loop and the tracking threads.
use time_tracker.Common.{
  ◌+◌, ◌%◌, String, ◌≡◌, ◌≢◌, refl, Bool, true, false, some, none, List, [], ◌∷◌, ◌++◌, map, filter,
  Has, inl, inr, eq_iff, arith,
}
use time_tracker.Common.Word.{i32_mod}
use time_tracker.Common.Map.{Map, lookup, keys, insert, remove}
use time_tracker.Text.{split}
use time_tracker.Text.Split.{IsFree}
use time_tracker.Events.{session_of}
use time_tracker.Processes.{Process, contains, mark, mark_processes, are_processes_running}
use time_tracker.Processes.Running.{are_processes_running_lem}
use time_tracker.Tracker.{
  ProcessMap, Thread, looping, ended, check_round, apply_running, update_entry, start_thread,
  session_text,
}
use time_tracker.Tracker.Round.{after_round, needs_thread, check_round_lem, check_round-panics}
use time_tracker.Tracker.Session.{session_of-session_text}
use time_tracker.Tracker.Threads.{View, run_thread, events, ticks_of, run_thread_lem}
use time_tracker.Tracker.Single.{
  Step, Reach, here, next, adds, rounds, starts, Reach-IsSingle, retracked_twice,
}
use time_tracker.Tracker.Counting.{System, IsSingle, load}

abbrev pub table : List Process
table =
    record { name = "quake"; is_zombie = false }
    ∷ record { name = "doom"; is_zombie = true }
    ∷ record { name = "doom.x86"; is_zombie = false }
    ∷ []

abbrev pub aliases : Map (List String)
aliases = ("doom", "doom.x86" ∷ []) ∷ []

abbrev pub names : List String
names = "quake" ∷ "doom" ∷ "tetris" ∷ []

abbrev pub fresh_map : ProcessMap
fresh_map = ("quake", (false, false)) ∷ ("doom", (false, true)) ∷ []

pub covered : (p : String) → Has p (keys fresh_map) → contains names p ≡ true
covered p (inl m) = ground (arith, m, eq_iff "quake" p)
covered p (inr (inl m)) = ground (arith, m, eq_iff "doom" p)
covered p (inr (inr m)) = absurd m

are_processes_running_lem_example :
    lookup "doom" (are_processes_running names (some aliases) table) ≡ some true
unfolding lookup
are_processes_running_lem_example = are_processes_running_lem names (some aliases) table "doom"

check_round_lem_example :
    check_round names aliases table fresh_map
    ≡ some (
      map (after_round aliases table) fresh_map,
      map (λ e. e.0) (filter (needs_thread aliases table) fresh_map),
    )
check_round_lem_example = check_round_lem names aliases table fresh_map covered

abbrev pub only_tetris : List String
only_tetris = "tetris" ∷ []

some_name : only_tetris ≢ []
some_name h = cc

check_round-panics_example : check_round only_tetris aliases table fresh_map ≡ none
check_round-panics_example =
    check_round-panics only_tetris aliases table fresh_map "doom" some_name (inr (inl refl)) refl

free : IsFree b';' "quake"
free = omega arith

session_of-session_text_example :
    session_of (split b';' (session_text "quake" 61)) ≡ some ("quake", 61)
session_of-session_text_example = session_of-session_text "quake" 61 free (omega arith)

abbrev pub view : Bool → Bool → View
view paused running = record {
  paused = paused;
  active = true;
  stamp = "noon";
  processes = ("quake", (running, true)) ∷ [];
}

abbrev pub views : List View
views =
    view false true ∷ view true false ∷ view false true ∷ view false false ∷ view false true ∷ []

abbrev pub thread : Thread
thread = record { process = "quake"; counter = 0; phase = looping }

run_thread_lem_example :
    (events (run_thread looping views thread).1 ≡ ticks_of "quake" 2)
    × ((run_thread looping views thread).0.counter ≡ (0 + 2) % i32_mod)
    × ((run_thread looping views thread).0.process ≡ "quake")
    × ((run_thread looping views thread).0.phase ≡ ended)
unfolding lookup
run_thread_lem_example = run_thread_lem views thread refl (omega arith)

abbrev pub empty_system : System
empty_system = record { processes = []; pending = []; threads = [] }

pub empty_system-IsSingle : IsSingle empty_system
unfolding lookup
empty_system-IsSingle = record { distinct = tt; single = λ p. refl }

abbrev pub added : System
added = record { processes = ("quake", (false, false)) ∷ []; pending = []; threads = [] }

abbrev pub found : System
found = record { processes = ("quake", (true, true)) ∷ []; pending = "quake" ∷ []; threads = [] }

abbrev pub tracked : System
tracked = record { processes = ("quake", (true, true)) ∷ []; pending = []; threads = thread ∷ [] }

pub covers_quake : (p : String) → Has p ("quake" ∷ []) → contains names p ≡ true
covers_quake p (inl m) = ground (arith, m, eq_iff "quake" p)
covers_quake p (inr m) = absurd m

reaches : Reach empty_system tracked
unfolding check_round are_processes_running mark mark_processes insert lookup apply_running
    update_entry start_thread
reaches =
    let to_added : Step empty_system added = adds "quake" refl refl in
    let to_found : Step added found =
      rounds names aliases table found.processes ("quake" ∷ []) covers_quake refl refl in
    let to_tracked : Step found tracked = starts false true "noon" "quake" [] refl refl in
    next (next (next here to_added) to_found) to_tracked

Reach-IsSingle_example : IsSingle tracked
Reach-IsSingle_example = Reach-IsSingle empty_system-IsSingle reaches

retracked_twice_example :
    (pm : ProcessMap) × (spawn : List String) × (check_round names aliases table
        (insert "quake" (false, false) (remove "quake" tracked.processes))
      ≡ some (pm, spawn))
    × (load "quake" (record tracked { processes = pm; pending = tracked.pending ++ spawn }) ≡ 2)
unfolding lookup insert remove
retracked_twice_example =
    retracked_twice tracked "quake" names aliases table Reach-IsSingle_example refl refl
      covers_quake
