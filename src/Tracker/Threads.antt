-- ===== src/Tracker/Threads.antt =====
-- One tracking thread from its start: what it sends, by what it sees at each tick.
use time_tracker.Common.{
  ℕ, zero, suc, ◌+◌, ◌%◌, ◌<◌, String, ◌≡◌, refl, inl, inr, Bool, true, false, Option, none, some,
  List, [], ◌∷◌, ◌++◌, if◌then◌else◌, Bool-cases, Option-cases, arith,
}
use time_tracker.Common.Word.{i32_mod, add32}
use time_tracker.Common.Map.{lookup}
use time_tracker.Events.{ReceiveType, duration, timeline_tick}
use time_tracker.Tracker.{
  ProcessMap, Thread, Phase, looping, ended, Output, event, status, tick_thread, tick_entry,
}

-- What the thread sees after each sleep: PAUSE, whether somebody listens, the clock, and the map.
pub record View : Type 0 where
  pub paused : Bool
  pub active : Bool
  pub stamp : String
  pub processes : ProcessMap

-- The loop, over the ticks that it is given; nothing happens once it has ended.
unfoldable pub run_thread : Phase → List View → Thread → Thread × List Output
run_thread ended vs t = (t, [])
run_thread looping [] t = (t, [])
run_thread looping (v ∷ vs) t =
    let r = tick_thread v.paused v.active v.stamp v.processes t in
    let rest = run_thread r.1.phase vs r.1 in (rest.0, r.2 ++ rest.1)

-- The events among what was sent, in order.
abbrev pub events : List Output → List (String × ReceiveType)
events [] = []
events (event x ∷ out) = x ∷ events out
events (status x ∷ out) = events out

-- The two events of a counted tick, `n` times.
abbrev pub ticks_of : String → ℕ → List (String × ReceiveType)
ticks_of p zero = []
ticks_of p (suc n) = (p, duration) ∷ (p, timeline_tick) ∷ ticks_of p n

-- A tick that counts: not paused, and the process runs.
abbrev pub counts_entry : Option (Bool × Bool) → Bool
counts_entry none = false
counts_entry (some (running, tracked)) = running

abbrev pub ends_entry : Option (Bool × Bool) → Bool
ends_entry none = false
ends_entry (some (true, tracked)) = false
ends_entry (some (false, tracked)) = true

-- How many ticks count before the first that ends the loop.
abbrev pub counted : String → List View → ℕ
counted p [] = 0
counted p (v ∷ vs) =
    if v.paused
    then counted p vs
    else if ends_entry (lookup p v.processes)
    then 0
    else if counts_entry (lookup p v.processes)
    then suc (counted p vs)
    else counted p vs

abbrev pub stops : String → List View → Bool
stops p [] = false
stops p (v ∷ vs) =
    if v.paused then stops p vs else if ends_entry (lookup p v.processes) then true else stops p vs

run_thread-ended : (vs : List View) (t : Thread) → run_thread ended vs t ≡ (t, [])
unfolding run_thread
run_thread-ended [] t = refl
run_thread-ended (v ∷ vs) t = refl

-- The whole of the loop of a thread that is in it and has a 32-bit counter: it sends a Duration and a Timeline event for each tick at which
-- the program was not paused and the process was seen running, and no other event, up to the first tick at
-- which it was not paused and the process was seen stopped; its counter grows by as many, wrapping at 2 ^ 32;
-- and it is out of the loop exactly if there was such a last tick.
pub run_thread_lem :
    (vs : List View) (t : Thread)
    → t.phase ≡ looping
    → t.counter < i32_mod
    → let r = run_thread looping vs t in
      (events r.1 ≡ ticks_of t.process (counted t.process vs))
      × (r.0.counter ≡ (t.counter + counted t.process vs) % i32_mod)
      × (r.0.process ≡ t.process)
      × (r.0.phase ≡ (if stops t.process vs then ended else looping))
unfolding run_thread tick_thread tick_entry
run_thread_lem [] t loop small = (refl, omega arith, refl, loop)
run_thread_lem (v ∷ vs) t loop small = elim (Bool-cases v.paused) [
  | inl p ↦ ground (arith, p, loop, run_thread_lem vs t loop small)
  | inr p ↦ elim (Option-cases (lookup t.process v.processes)) [
    | inl q ↦ ground (arith, p, q, loop, run_thread_lem vs t loop small)
    | inr ((true, tracked), q) ↦
        let next = record t { counter = add32 t.counter 1 } in
        elim (Bool-cases v.active) [
          | inl a ↦ ground (arith, p, q, a, loop, run_thread_lem vs next loop (omega arith))
          | inr a ↦ ground (arith, p, q, a, loop, run_thread_lem vs next loop (omega arith))
        ]
    | inr ((false, tracked), q) ↦
        ground (arith, p, q, run_thread-ended vs (record t { phase = ended }))
  ]
]
