-- ===== src/Tracker.antt =====
-- time_tracking.rs: the process map, the check loop and the tracking threads, as steps on a shared
-- state. One step is what a thread does under one hold of the map's lock, or between two sleeps.
pub mod Round
pub mod Session
pub mod Threads
pub mod Counting
pub mod Single
pub mod Progress
pub mod Totals
use Prim.Native.String.{◌++◌ as ◌+++◌}
use time_tracker.Common.{
  ℕ, String, Bool, true, false, not, Option, none, some, List, [], ◌∷◌, ◌++◌, is_empty, map,
  if◌then◌else◌,
}
use time_tracker.Common.Word.{I32, add32}
use time_tracker.Common.Map.{Map, lookup, insert, remove, keys}
use time_tracker.Text.{show_i32}
use time_tracker.Structs.{TrackingStatus}
use time_tracker.Events.{ReceiveType, longest_session, duration, launches, timeline_tick}
use time_tracker.Processes.{Process, Aliases, are_processes_running}

-- PROCESS_MAP: for each tracked process, whether it runs and whether a thread tracks it.
abbrev pub ProcessMap : Type 0
ProcessMap = Map (Bool × Bool)

-- The loop of `check_processes` over the map, with the answer `m` of the process table: the new map
-- and the processes to spawn a thread for. `none` is the panic of `m.get(p).unwrap()`.
unfoldable pub update_entry : Option Bool → Bool → Option ((Bool × Bool) × Bool)
update_entry none tracked = none
update_entry (some true) tracked = some ((true, true), not tracked)
update_entry (some false) tracked = some ((false, tracked), false)

abbrev pub push_entry :
    String
    → Option ((Bool × Bool) × Bool)
    → Option (ProcessMap × List String)
    → Option (ProcessMap × List String)
push_entry p (some (entry, spawn)) (some (m, to_spawn)) =
    some ((p, entry) ∷ m, if spawn then p ∷ to_spawn else to_spawn)
push_entry p _ _ = none

unfoldable pub apply_running : Map Bool → ProcessMap → Option (ProcessMap × List String)
apply_running m [] = some ([], [])
apply_running m ((p, (running, tracked)) ∷ rest) =
    push_entry p (update_entry (lookup p m) tracked) (apply_running m rest)

-- One round of `check_processes`. `names` is the snapshot of the keys that the round began with;
-- `aliases` and `table` are what the database and the operating system answered.
unfoldable pub check_round :
    List String → Map (List String) → List Process → ProcessMap → Option (ProcessMap × List String)
check_round names aliases table pm =
    let m = are_processes_running names (some aliases) table in
    if is_empty m then some (pm, []) else apply_running m pm

-- A tracking thread, in its loop or past it.
pub data Phase : Type 0 where
  looping ended : Phase

pub record Thread : Type 0 where
  pub process : String
  pub counter : I32
  pub phase : Phase

-- What a thread sends: an event to the event loop, or a status to the clients.
pub data Output : Type 0 where
  event : String × ReceiveType → Output
  status : TrackingStatus → Output

-- `active! { … }`
abbrev pub unless_paused : Bool → List Output → List Output
unless_paused paused out = if paused then [] else out

abbrev pub when_active : Bool → List Output → List Output
when_active active out = if active then out else []

abbrev pub tracking : String → I32 → String → TrackingStatus
tracking p counter stamp = record {
  is_tracking = true;
  is_paused = false;
  current_app = some p;
  current_session_duration = counter;
  session_start_time = some stamp;
  active_checkpoint_ids = [];
}

abbrev pub idle_status : TrackingStatus
idle_status = record {
  is_tracking = false;
  is_paused = false;
  current_app = none;
  current_session_duration = 0;
  session_start_time = none;
  active_checkpoint_ids = [];
}

-- `paused` is PAUSE, `active` is has_active_broadcaster(), and `stamp` the formatted clock.
unfoldable pub start_thread : Bool → Bool → String → String → Thread × List Output
start_thread paused active stamp p = (
  record { process = p; counter = 0; phase = looping },
  unless_paused paused (event (p, launches) ∷ [])
      ++ when_active active (status (tracking p 0 stamp) ∷ []),
)

-- The body of the loop after a sleep, by the entry of the process in the map.
unfoldable pub tick_entry :
    Bool → String → Option (Bool × Bool) → ProcessMap → Thread → ProcessMap × Thread × List Output
tick_entry active stamp none pm t = (pm, t, [])
tick_entry active stamp (some (true, tracked)) pm t =
    let n = add32 t.counter 1 in
    (
      pm,
      record t { counter = n },
      event (t.process, duration)
          ∷ event (t.process, timeline_tick)
          ∷ when_active active (status (tracking t.process n stamp) ∷ []),
    )
tick_entry active stamp (some (false, tracked)) pm t =
    (insert t.process (false, false) pm, record t { phase = ended }, [])

unfoldable pub tick_thread :
    Bool → Bool → String → ProcessMap → Thread → ProcessMap × Thread × List Output
unfolding tick_entry
tick_thread paused active stamp pm t =
    if paused then (pm, t, []) else tick_entry active stamp (lookup t.process pm) pm t

-- What a thread sends once it has left its loop.
unfoldable pub session_text : String → I32 → String
session_text p counter = p +++ (";" +++ show_i32 counter)

unfoldable pub finish_thread : Bool → Bool → Thread → List Output
unfolding session_text
finish_thread paused active t =
    unless_paused paused (event (session_text t.process t.counter, longest_session) ∷ [])
    ++ when_active active (status idle_status ∷ [])

-- pause()
abbrev pub toggle_pause : Bool → Bool
toggle_pause paused = if not paused then true else false
