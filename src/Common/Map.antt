-- ===== src/Common/Map.antt =====
-- `HashMap<String, V>` as an association list: a key's first entry counts, and no order is meant.
use time_tracker.Common.{
  String, ◌≡◌, refl, inl, inr, Option, none, some, List, [], ◌∷◌, map, str_eq, eq_iff,
  if◌then◌else◌, Has, arith, Bool-cases,
}

abbrev pub Map : Type 0 → Type 0
Map V = List (String × V)

module _ {V : Type 0} where
  unfoldable pub lookup : String → Map V → Option V
  lookup k [] = none
  lookup k ((j, v) ∷ m) = if str_eq j k then some v else lookup k m

  -- `map.insert(k, v)`
  unfoldable pub insert : String → V → Map V → Map V
  insert k v [] = (k, v) ∷ []
  insert k v ((j, w) ∷ m) = if str_eq j k then (j, v) ∷ m else (j, w) ∷ insert k v m

  -- `map.remove(k)`
  unfoldable pub remove : String → Map V → Map V
  remove k [] = []
  remove k ((j, w) ∷ m) = if str_eq j k then remove k m else (j, w) ∷ remove k m

  abbrev pub keys : Map V → List String
  keys = map (λ e. e.0)

  pub lookup-insert :
      (k j : String) (v : V) (m : Map V)
      → lookup j (insert k v m) ≡ (if str_eq k j then some v else lookup j m)
  unfolding lookup insert
  lookup-insert k j v [] = refl
  lookup-insert k j v ((i, w) ∷ m) =
      ground (arith, lookup-insert k j v m, eq_iff i k, eq_iff i j, eq_iff k j)

  pub lookup-remove :
      (k j : String) (m : Map V) → lookup j (remove k m) ≡ (if str_eq k j then none else lookup j m)
  unfolding lookup remove
  lookup-remove k j [] = ground arith
  lookup-remove k j ((i, w) ∷ m) =
      ground (arith, lookup-remove k j m, eq_iff i k, eq_iff i j, eq_iff k j)

  -- A key is found exactly where the map has an entry.
  pub Has-keys : (k : String) (v : V) (m : Map V) → lookup k m ≡ some v → Has k (keys m)
  unfolding lookup
  Has-keys k v [] h = cc
  Has-keys k v ((j, w) ∷ m) h = elim (Bool-cases (str_eq j k)) [
    | inl e ↦ inl (cc ((eq_iff j k).0 e))
    | inr e ↦ inr (Has-keys k v m (rw e at h))
  ]

  pub lookup-keys : (k : String) (m : Map V) → Has k (keys m) → (v : V) × (lookup k m ≡ some v)
  unfolding lookup
  lookup-keys k [] h = absurd h
  lookup-keys k ((j, w) ∷ m) h = elim (Bool-cases (str_eq j k)) [
    | inl e ↦ (w, rw e)
    | inr e ↦ elim h [
      | inl q ↦ absurd (ground (arith, eq_iff j k))
      | inr n ↦ let (v, q) = lookup-keys k m n in (v, rw e q)
    ]
  ]
