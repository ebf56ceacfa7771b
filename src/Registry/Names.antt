-- ===== src/Registry/Names.antt =====
-- The names of the apps, and the state in which the process map and the apps table are in step.
use time_tracker.Common.{
  String, ◌≡◌, refl, ap, Bool, true, false, some, List, [], ◌∷◌, ◌++◌, filter, filter_map, str_eq,
  str_eq_self, eq_iff, Bool-cases, Option-cases, inl, inr, Has, filter-Has, Has-append_cases, arith,
}
use time_tracker.Common.Map.{lookup}
use time_tracker.Entities.{AppModel}
use time_tracker.Events.{by_name}
use time_tracker.Processes.{contains}
use time_tracker.Registry.{Registry}

-- A row has one name.
pub by_name-other :
    (a : AppModel) (p k : String) → by_name k a ≡ true → str_eq p k ≡ false → by_name p a ≡ false
by_name-other a p k h differ = elim (Option-cases a.name) [
  | inl q ↦ rw q refl
  | inr (n, q) ↦
      let same : n ≡ k = (eq_iff n k).0 (rw q at h) in
      elim (Bool-cases (str_eq n p)) [
        | inl e ↦ absurd (ground (arith, same, (eq_iff n p).0 e, str_eq_self k, differ))
        | inr e ↦ rw q e
      ]
]

-- No name stands in two rows.
abbrev pub IsUnique : List AppModel → Type 0
IsUnique [] = Unit
IsUnique (a ∷ as') =
    ((b : AppModel) → Has b as' → (p : String) → by_name p a ≡ true → by_name p b ≡ false)
    × IsUnique as'

-- Each process in the map is the name of an app, and no two apps have the same name.
pub record IsRegistered (g : Registry) : Type 0 where
  pub named :
      (p : String) (entry : Bool × Bool)
      → lookup p g.processes ≡ some entry
      → (a : AppModel) × Has a g.db.apps × (by_name p a ≡ true)
  pub unique : IsUnique g.db.apps

pub filter-IsUnique :
    (q : AppModel → Bool) (xs : List AppModel) → IsUnique xs → IsUnique (filter q xs)
filter-IsUnique q [] u = tt
filter-IsUnique q (a ∷ xs) u = elim (Bool-cases (q a)) [
  | inl h ↦ rw h ((λ b m p k. u.0 b (filter-Has q b xs m).0 p k), filter-IsUnique q xs u.1)
  | inr h ↦ rw h (filter-IsUnique q xs u.1)
]

pub append-IsUnique :
    (a : AppModel) (name : String) (xs : List AppModel)
    → a.name ≡ some name
    → ((b : AppModel) → Has b xs → by_name name b ≡ false)
    → IsUnique xs
    → IsUnique (xs ++ a ∷ [])
append-IsUnique a name [] q fresh u = ((λ b m p h. absurd m), tt)
append-IsUnique a name (b ∷ xs) q fresh u = (
  (λ d m p h. elim (Has-append_cases d xs (a ∷ []) m) [
    | inl old ↦ u.0 d old p h
    | inr (inl e) ↦
        ground (arith, ap (λ (r : AppModel). r.name) e, q, h, fresh b (inl refl), eq_iff name p)
    | inr (inr none') ↦ absurd none'
  ]),
  append-IsUnique a name xs q (λ d m. fresh d (inr m)) u.1,
)

-- What get_processes answers holds the name of every app.
pub contains-names :
    (xs : List AppModel) (p : String) (a : AppModel)
    → Has a xs
    → by_name p a ≡ true
    → contains (filter_map (λ (b : AppModel). b.name) xs) p ≡ true
contains-names (b ∷ xs) p a (inl e) h = ground (arith, ap (λ (r : AppModel). r.name) e, h)
contains-names (b ∷ xs) p a (inr m) h = ground (arith, contains-names xs p a m h)
contains-names [] p a m h = absurd m
