-- ===== src/Tracker/Single.antt =====
-- The check loop, the tracking threads and the clients as steps of one system, in any order; and the
-- deletion of a process that a thread tracks, which is no such step.
use time_tracker.Common.{
  ◌+◌, String, ◌≡◌, sym, ap, ◌∙◌, inl, inr, Bool, true, false, none, some, List, ◌∷◌, ◌++◌, eq_iff,
  str_eq_self, Has, Bool-cases, Option-cases, map, arith,
}
use time_tracker.Common.Word.{add32}
use time_tracker.Common.Map.{Map, lookup, insert, remove, keys, lookup-insert, lookup-remove}
use time_tracker.Processes.{Process, contains}
use time_tracker.Tracker.{
  ProcessMap, Thread, looping, ended, check_round, start_thread, tick_thread, tick_entry,
}
use time_tracker.Tracker.Round.{is_running, after_round, check_round_lem}
use time_tracker.Tracker.Counting.{
  System, one_if, count, count_threads, load, is_tracked, IsSingle, after_round-IsDistinct,
  lookup-after_round, wanted, count-wanted, insert-IsDistinct, remove-IsDistinct, count-append,
  count_threads-append,
}

-- The steps of the threads and of the clients. The round's snapshot holds every key of the map.
pub data Step (s t : System) : Type 0 where
  rounds :
      (names : List String) (aliases : Map (List String)) (table : List Process) (pm : ProcessMap)
      (spawn : List String)
      → ((p : String) → Has p (keys s.processes) → contains names p ≡ true)
      → check_round names aliases table s.processes ≡ some (pm, spawn)
      → t ≡ record s { processes = pm; pending = s.pending ++ spawn }
      → Step s t
  starts :
      (paused active : Bool) (stamp p : String) (rest : List String)
      → s.pending ≡ p ∷ rest
      → t
        ≡ record s { pending = rest; threads = (start_thread paused active stamp p).0 ∷ s.threads }
      → Step s t
  ticks :
      (paused active : Bool) (stamp : String) (before after : List Thread) (th : Thread)
      → s.threads ≡ before ++ th ∷ after
      → th.phase ≡ looping
      → t ≡ record s {
        processes = (tick_thread paused active stamp s.processes th).0;
        threads = before ++ (tick_thread paused active stamp s.processes th).1 ∷ after;
      }
      → Step s t
  -- add_process, of a process that the map lacks
  adds :
      (p : String)
      → lookup p s.processes ≡ none
      → t ≡ record s { processes = insert p (false, false) s.processes }
      → Step s t
  -- delete_process, of a process that no thread tracks
  deletes :
      (p : String)
      → is_tracked (lookup p s.processes) ≡ false
      → t ≡ record s { processes = remove p s.processes }
      → Step s t

pub data Reach (s : System) : System → Type 0 where
  here : Reach s s
  next : {t u : System} → Reach s t → Step t u → Reach s u

unwrap_path : {x y : ProcessMap × List String} → some x ≡ some y → x ≡ y
unwrap_path h = cc

round-IsSingle :
    (s : System) (names : List String) (aliases : Map (List String)) (table : List Process)
    (pm : ProcessMap) (spawn : List String)
    → ((p : String) → Has p (keys s.processes) → contains names p ≡ true)
    → check_round names aliases table s.processes ≡ some (pm, spawn)
    → IsSingle s
    → IsSingle (record s { processes = pm; pending = s.pending ++ spawn })
round-IsSingle s names aliases table pm spawn cover ran v =
    let same : some (pm, spawn)
        ≡ some (map (after_round aliases table) s.processes, wanted aliases table s.processes) =
      sym ran ∙ check_round_lem names aliases table s.processes cover in
    let same_map : pm ≡ map (after_round aliases table) s.processes =
      ap (λ (r : ProcessMap × List String). r.0) (unwrap_path same) in
    let same_spawn : spawn ≡ wanted aliases table s.processes =
      ap (λ (r : ProcessMap × List String). r.1) (unwrap_path same) in
    record {
      distinct = rw same_map (after_round-IsDistinct aliases table s.processes v.distinct);
      single = λ p.
          rw (same_map, same_spawn, count-append p s.pending (wanted aliases table s.processes))
            (omega (arith, v.single p, count-wanted aliases table s.processes p v.distinct));
    }

-- The thread that leaves its loop was the only one, and its flag goes down with it.
end_lem :
    (s : System) (before after : List Thread) (th : Thread) (k : String)
    → s.threads ≡ before ++ th ∷ after
    → th.phase ≡ looping
    → IsSingle s
    → count k s.pending + count_threads k (before ++ record th { phase = ended } ∷ after)
      ≡ one_if (is_tracked (lookup k (insert th.process (false, false) s.processes)))
end_lem s before after th k split loop v = ground (
  arith,
  v.single k,
  ap (count_threads k) split,
  count_threads-append k before (th ∷ after),
  count_threads-append k before (record th { phase = ended } ∷ after),
  lookup-insert th.process k (false, false) s.processes,
)

tick-IsSingle :
    (s : System) (paused active : Bool) (stamp : String) (before after : List Thread) (th : Thread)
    → s.threads ≡ before ++ th ∷ after
    → th.phase ≡ looping
    → IsSingle s
    → IsSingle (record s {
      processes = (tick_thread paused active stamp s.processes th).0;
      threads = before ++ (tick_thread paused active stamp s.processes th).1 ∷ after;
    })
unfolding tick_thread tick_entry
tick-IsSingle s paused active stamp before after th split loop v = elim (Bool-cases paused) [
  | inl p ↦ rw (p, ← split) v
  | inr p ↦ elim (Option-cases (lookup th.process s.processes)) [
    | inl q ↦ rw (p, q, tick_entry, ← split) v
    | inr ((true, tracked), q) ↦
        rw (p, q, tick_entry)
          (record {
            distinct = v.distinct;
            single = λ k. omega (
              arith,
              v.single k,
              ap (count_threads k) split,
              count_threads-append k before (th ∷ after),
              count_threads-append k before (record th { counter = add32 th.counter 1 } ∷ after),
            );
          })
    | inr ((false, tracked), q) ↦
        rw (p, q, tick_entry)
          (record {
            distinct = insert-IsDistinct th.process (false, false) s.processes v.distinct;
            single = λ k. end_lem s before after th k split loop v;
          })
  ]
]

Step-IsSingle : {s t : System} → Step s t → IsSingle s → IsSingle t
unfolding start_thread
Step-IsSingle (rounds names aliases table pm spawn cover ran e) v =
    rw e (round-IsSingle _ names aliases table pm spawn cover ran v)
Step-IsSingle (starts paused active stamp p rest q e) v =
    rw e (record { distinct = v.distinct; single = λ k. ground (arith, v.single k) })
Step-IsSingle (ticks paused active stamp before after th split loop e) v =
    rw e (tick-IsSingle _ paused active stamp before after th split loop v)
Step-IsSingle {s} (adds p q e) v = rw e (record {
  distinct = insert-IsDistinct p _ _ v.distinct;
  single = λ k. ground (
    arith,
    v.single k,
    v.single p,
    lookup-insert {V = Bool × Bool} p k (false, false) s.processes,
    eq_iff p k,
  );
})
Step-IsSingle {s} (deletes p q e) v = rw e (record {
  distinct = remove-IsDistinct p _ v.distinct;
  single = λ k. ground (arith, v.single k, v.single p, lookup-remove p k s.processes, eq_iff p k);
})

-- From a state in which each process has exactly one tracking thread (running or about to start) while
-- its second flag is up and none while it is down, every sequence of steps, in any order, leads to such a
-- state: rounds whose snapshot holds every key of the map, starts and ticks of threads, additions of
-- processes that the map lacks, and deletions of processes that no thread tracks.
pub Reach-IsSingle : {s t : System} → IsSingle s → Reach s t → IsSingle t
Reach-IsSingle v here = v
Reach-IsSingle v (next r st) = Step-IsSingle st (Reach-IsSingle v r)

-- In such a state, if a process whose second flag is up is deleted from the map, added again, and runs in
-- the next round, whose snapshot holds every key of the map, then the round succeeds and the process has two
-- threads, one still in its loop or about to start, and one more to start.
pub retracked_twice :
    (s : System) (p : String) (names : List String) (aliases : Map (List String))
    (table : List Process)
    → IsSingle s
    → is_tracked (lookup p s.processes) ≡ true
    → is_running aliases table p ≡ true
    → ((q : String)
        → Has q (keys (insert p (false, false) (remove p s.processes)))
        → contains names q ≡ true)
    → (pm : ProcessMap) × (spawn : List String) × (check_round names aliases table
          (insert p (false, false) (remove p s.processes))
        ≡ some (pm, spawn))
      × (load p (record s { processes = pm; pending = s.pending ++ spawn }) ≡ 2)
retracked_twice s p names aliases table v tracked runs cover =
    let m : ProcessMap = insert p (false, false) (remove p s.processes) in
    let distinct =
      insert-IsDistinct p (false, false) _ (remove-IsDistinct p s.processes v.distinct) in
    let entry : lookup p m ≡ some (false, false) =
      lookup-insert {V = Bool × Bool} p p (false, false) (remove p s.processes)
      ∙ rw (str_eq_self p) in
    (
      map (after_round aliases table) m,
      wanted aliases table m,
      check_round_lem names aliases table m cover,
      ground (
        arith,
        entry,
        v.single p,
        count-append p s.pending (wanted aliases table m),
        count-wanted aliases table m p distinct,
        lookup-after_round aliases table m p false false entry,
      ),
    )
