-- ===== src/Tracker/Progress.antt =====
-- A process that runs gets its thread.
use time_tracker.Common.{
  String, ◌≡◌, refl, sym, Bool, true, some, List, [], ◌∷◌, ◌++◌, Has, map, arith,
}
use time_tracker.Common.Map.{Map, lookup, keys}
use time_tracker.Processes.{Process, contains}
use time_tracker.Tracker.{ProcessMap, Thread, check_round, start_thread}
use time_tracker.Tracker.Round.{is_running, after_round, check_round_lem}
use time_tracker.Tracker.Counting.{System, count_threads, IsSingle, lookup-after_round, wanted}
use time_tracker.Tracker.Single.{rounds, starts, Reach, here, next, Reach-IsSingle}

-- The loop that starts a thread for each request of the spawn channel.
abbrev pub start_all : Bool → Bool → String → List String → List Thread → List Thread
start_all paused active stamp [] threads = threads
start_all paused active stamp (p ∷ ps) threads =
    start_all paused active stamp ps ((start_thread paused active stamp p).0 ∷ threads)

module _ (paused active : Bool) (stamp : String) where
  -- The channel runs empty.
  start_all-Reach :
      {s : System} (t : System) (pending : List String)
      → t.pending ≡ pending
      → Reach s t
      → Reach s
          (record t { pending = []; threads = start_all paused active stamp pending t.threads })
  start_all-Reach t [] q r = rw (sym q) r
  start_all-Reach t (p ∷ ps) q r =
      start_all-Reach
        (record t { pending = ps; threads = (start_thread paused active stamp p).0 ∷ t.threads }) ps
        refl (next r (starts paused active stamp p ps q refl))

  -- From a state in which each process has one thread exactly while its second flag is up: if a process
  -- of the map runs, then a round whose snapshot holds every key of the map and the starts of all threads asked
  -- for lead to a state with an empty spawn channel in which the process has exactly one thread in its loop.
  pub check_round-start_thread :
      (s : System) (p : String) (names : List String) (aliases : Map (List String))
      (table : List Process) (running tracked : Bool)
      → IsSingle s
      → lookup p s.processes ≡ some (running, tracked)
      → is_running aliases table p ≡ true
      → ((q : String) → Has q (keys s.processes) → contains names q ≡ true)
      → (t : System) × Reach s t
        × (t.pending ≡ [])
        × (count_threads p t.threads ≡ 1)
        × ((pm : ProcessMap) × (spawn : List String) × (check_round names aliases table s.processes
              ≡ some (pm, spawn))
            × (t.processes ≡ pm)
            × (t.threads ≡ start_all paused active stamp (s.pending ++ spawn) s.threads))
  check_round-start_thread s p names aliases table running tracked v entry runs cover =
      let pm = map (after_round aliases table) s.processes in
      let spawn = wanted aliases table s.processes in
      let ran = check_round_lem names aliases table s.processes cover in
      let mid : System = record s { processes = pm; pending = s.pending ++ spawn } in
      let t : System = record mid {
        pending = [];
        threads = start_all paused active stamp (s.pending ++ spawn) s.threads;
      } in
      let reached : Reach s t =
        start_all-Reach mid (s.pending ++ spawn) refl
          (next here (rounds names aliases table pm spawn cover ran refl)) in
      let after = (Reach-IsSingle v reached).single p in
      let flags = lookup-after_round aliases table s.processes p running tracked entry in
      (t, reached, refl, ground (arith, after, flags, runs), (pm, spawn, ran, refl, refl))
