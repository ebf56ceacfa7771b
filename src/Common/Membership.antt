-- ===== src/Common/Membership.antt =====
-- Membership with its place kept, and predicates that hold of every item.
use mathlib.Core.Path.{◌≡◌, refl, ap}
use mathlib.Core.Bool.{Bool, true}
use mathlib.Core.Logic.{◌⊎◌, inl, inr}
use mathlib.Core.List.{List, [], ◌∷◌, ◌++◌, map}
use native.Mathlib.Omega.{arith}
use time_tracker.Common.Lists.{filter, any}
use time_tracker.Common.Tests.{Bool-cases}

module _ {A : Type 0} where
  -- `x` stands somewhere in the list. The library's `Mem` is its truncation.
  abbrev pub Has : A → List A → Type 0
  Has x [] = ⊥
  Has x (y ∷ ys) = (x ≡ y) ⊎ Has x ys

  abbrev pub All {κ} : (A → Type κ) → List A → Type κ
  All P [] = Unit
  All P (x ∷ xs) = P x × All P xs

  pub All-Has {κ} : (P : A → Type κ) (xs : List A) → ((x : A) → Has x xs → P x) → All P xs
  All-Has P [] h = tt
  All-Has P (x ∷ xs) h = (h x (inl refl), All-Has P xs (λ y m. h y (inr m)))

  pub Has-append_left : (x : A) (xs ys : List A) → Has x xs → Has x (xs ++ ys)
  Has-append_left x (y ∷ xs) ys (inl e) = inl e
  Has-append_left x (y ∷ xs) ys (inr m) = inr (Has-append_left x xs ys m)
  Has-append_left x [] ys m = elim m [ ]

  pub Has-append_right : (x : A) (xs ys : List A) → Has x ys → Has x (xs ++ ys)
  Has-append_right x [] ys m = m
  Has-append_right x (y ∷ xs) ys m = inr (Has-append_right x xs ys m)

  pub Has-append_cases : (x : A) (xs ys : List A) → Has x (xs ++ ys) → Has x xs ⊎ Has x ys
  Has-append_cases x [] ys m = inr m
  Has-append_cases x (y ∷ xs) ys (inl e) = inl (inl e)
  Has-append_cases x (y ∷ xs) ys (inr m) = elim (Has-append_cases x xs ys m) [
    | inl l ↦ inl (inr l)
    | inr r ↦ inr r
  ]

  pub Has-filter :
      (p : A → Bool) (x : A) (xs : List A) → Has x xs → p x ≡ true → Has x (filter p xs)
  Has-filter p x [] m h = m
  Has-filter p x (y ∷ xs) m h = ground (arith, Has-filter p x xs)

  pub filter-Has :
      (p : A → Bool) (x : A) (xs : List A) → Has x (filter p xs) → Has x xs × (p x ≡ true)
  filter-Has p x [] m = elim m [ ]
  filter-Has p x (y ∷ xs) m = ground (arith, filter-Has p x xs)

  pub any-Has : (p : A → Bool) (x : A) (xs : List A) → Has x xs → p x ≡ true → any p xs ≡ true
  any-Has p x [] m h = elim m [ ]
  any-Has p x (y ∷ xs) m h = ground (arith, any-Has p x xs)

  -- A test that passes on some item passes on one that can be named.
  pub any-witness :
      (p : A → Bool) (xs : List A) → any p xs ≡ true → (x : A) × Has x xs × (p x ≡ true)
  any-witness p [] h = cc
  any-witness p (y ∷ xs) h = elim (Bool-cases (p y)) [
    | inl e ↦ (y, inl refl, e)
    | inr e ↦ let (x, m, q) = any-witness p xs (rw e at h) in (x, inr m, q)
  ]

module _ {A B : Type 0} where
  pub Has-map : (f : A → B) (x : A) (xs : List A) → Has x xs → Has (f x) (map f xs)
  Has-map f x (y ∷ xs) (inl e) = inl (ap f e)
  Has-map f x (y ∷ xs) (inr m) = inr (Has-map f x xs m)
  Has-map f x [] m = elim m [ ]

  pub map-Has :
      (f : A → B) (b : B) (xs : List A) → Has b (map f xs) → (x : A) × Has x xs × (b ≡ f x)
  map-Has f b [] m = elim m [ ]
  map-Has f b (y ∷ xs) (inl e) = (y, inl refl, e)
  map-Has f b (y ∷ xs) (inr m) = let (x, h, e) = map-Has f b xs m in (x, inr h, e)

  -- Two functions that agree on the items of a list map it to the same list.
  pub map_congr :
      (f g : A → B) (xs : List A) → ((x : A) → Has x xs → f x ≡ g x) → map f xs ≡ map g xs
  map_congr f g [] h = refl
  map_congr f g (x ∷ xs) h = cc (h x (inl refl), map_congr f g xs (λ y m. h y (inr m)))
