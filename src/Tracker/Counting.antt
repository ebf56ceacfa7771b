-- ===== src/Tracker/Counting.antt =====
-- The threads of a process counted, and the state in which every process has at most one.
use time_tracker.Common.{
  ℕ, ◌+◌, String, ◌≡◌, refl, subst, inl, inr, Bool, true, false, ◌&&◌, ◌||◌, Option, none, some,
  List, [], ◌∷◌, ◌++◌, str_eq, eq_iff, Bool-cases, filter, map, arith,
}
use time_tracker.Common.Map.{Map, lookup, insert, remove, lookup-insert, lookup-remove}
use time_tracker.Processes.{Process}
use time_tracker.Tracker.{ProcessMap, Thread, Phase, looping, ended}
use time_tracker.Tracker.Round.{is_running, after_round, needs_thread}

-- The process map, the spawn channel, and the threads that were ever started.
pub record System : Type 0 where
  pub processes : ProcessMap
  pub pending : List String
  pub threads : List Thread

abbrev pub one_if : Bool → ℕ
one_if true = 1
one_if false = 0

abbrev pub count : String → List String → ℕ
count p [] = 0
count p (q ∷ qs) = one_if (str_eq q p) + count p qs

abbrev pub in_loop : Phase → Bool
in_loop looping = true
in_loop ended = false

abbrev pub count_threads : String → List Thread → ℕ
count_threads p [] = 0
count_threads p (t ∷ ts) = one_if (str_eq t.process p && in_loop t.phase) + count_threads p ts

-- The threads that track a process or are about to.
abbrev pub load : String → System → ℕ
load p s = count p s.pending + count_threads p s.threads

abbrev pub is_tracked : Option (Bool × Bool) → Bool
is_tracked none = false
is_tracked (some (running, tracked)) = tracked

-- A map has one entry for a key.
abbrev pub IsDistinct : ProcessMap → Type 0
IsDistinct [] = Unit
IsDistinct ((p, e) ∷ m) = (lookup p m ≡ none) × IsDistinct m

-- The second flag of a process is up exactly while one thread tracks it, and there is never another.
pub record IsSingle (s : System) : Type 0 where
  pub distinct : IsDistinct s.processes
  pub single : (p : String) → load p s ≡ one_if (is_tracked (lookup p s.processes))

module _ (aliases : Map (List String)) (table : List Process) where
  lookup-after_round-none :
      (pm : ProcessMap) (p : String)
      → lookup p pm ≡ none
      → lookup p (map (after_round aliases table) pm) ≡ none
  unfolding lookup
  lookup-after_round-none [] p h = refl
  lookup-after_round-none ((q, e) ∷ pm) p h = ground (arith, lookup-after_round-none pm p)

  pub after_round-IsDistinct :
      (pm : ProcessMap) → IsDistinct pm → IsDistinct (map (after_round aliases table) pm)
  after_round-IsDistinct [] d = tt
  after_round-IsDistinct ((q, e) ∷ pm) d =
      (lookup-after_round-none pm q d.0, after_round-IsDistinct pm d.1)

  -- A round raises the second flag of each process that it has and that runs.
  pub lookup-after_round :
      (pm : ProcessMap) (p : String) (running tracked : Bool)
      → lookup p pm ≡ some (running, tracked)
      → lookup p (map (after_round aliases table) pm)
        ≡ some (is_running aliases table p, is_running aliases table p || tracked)
  unfolding lookup
  lookup-after_round [] p running tracked h = cc
  lookup-after_round ((q, (r, t)) ∷ pm) p running tracked h = elim (Bool-cases (str_eq q p)) [
    | inl same ↦ rw (same, (eq_iff q p).0 same) (ground (arith, rw same at h))
    | inr other ↦ rw other (lookup-after_round pm p running tracked (rw other at h))
  ]

  -- The processes that a round asks a thread for.
  abbrev pub wanted : ProcessMap → List String
  wanted pm = map (λ e. e.0) (filter (needs_thread aliases table) pm)

  count-wanted_absent :
      (pm : ProcessMap) (p : String) → lookup p pm ≡ none → count p (wanted pm) ≡ 0
  unfolding lookup
  count-wanted_absent [] p h = refl
  count-wanted_absent ((q, e) ∷ pm) p h = ground (arith, count-wanted_absent pm p)

  -- A round asks for a thread for a process at most once, and only where there is none.
  pub count-wanted :
      (pm : ProcessMap) (p : String)
      → IsDistinct pm
      → count p (wanted pm) + one_if (is_tracked (lookup p pm))
        ≡ one_if (is_tracked (lookup p (map (after_round aliases table) pm)))
  unfolding lookup
  count-wanted [] p d = refl
  count-wanted ((q, (running, tracked)) ∷ pm) p d = elim (Bool-cases (str_eq q p)) [
    | inl e ↦
        let absent =
          count-wanted_absent pm p (subst (λ k. lookup k pm ≡ none) ((eq_iff q p).0 e) d.0) in
        ground (arith, absent)
    | inr e ↦ ground (arith, count-wanted pm p d.1)
  ]

pub insert-IsDistinct :
    (p : String) (e : Bool × Bool) (m : ProcessMap) → IsDistinct m → IsDistinct (insert p e m)
unfolding insert lookup
insert-IsDistinct p e [] d = (refl, tt)
insert-IsDistinct p e ((q, w) ∷ m) d =
    ground (arith, insert-IsDistinct p e m d.1, lookup-insert p q e m, eq_iff q p, eq_iff p q)

pub remove-IsDistinct : (p : String) (m : ProcessMap) → IsDistinct m → IsDistinct (remove p m)
unfolding remove
remove-IsDistinct p [] d = tt
remove-IsDistinct p ((q, w) ∷ m) d =
    ground (arith, remove-IsDistinct p m d.1, lookup-remove p q m, eq_iff q p, eq_iff p q)

pub count-append : (p : String) (xs ys : List String) → count p (xs ++ ys) ≡ count p xs + count p ys
count-append p [] ys = omega arith
count-append p (x ∷ xs) ys = omega (arith, count-append p xs ys)

pub count_threads-append :
    (p : String) (xs ys : List Thread)
    → count_threads p (xs ++ ys) ≡ count_threads p xs + count_threads p ys
count_threads-append p [] ys = omega arith
count_threads-append p (x ∷ xs) ys = omega (arith, count_threads-append p xs ys)
