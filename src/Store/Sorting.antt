-- ===== src/Store/Sorting.antt =====
-- Sorting rows the way a query orders them, for the engine of Memory.antt.
use time_tracker.Common.{
  suc, ◌≡◌, refl, ◌⊎◌, inl, inr, Bool, true, false, leb, List, [], ◌∷◌, if◌then◌else◌, length, Has,
  All, Bool-cases, arith,
}
use time_tracker.Store.Engine.{Order, asc, desc, unordered, Before, InOrder}

module _ {A : Type 0} where
  abbrev pub precedes : Order A → A → A → Bool
  precedes (asc f) x y = leb (f x) (f y)
  precedes (desc f) x y = leb (f y) (f x)
  precedes unordered x y = true

  abbrev insert_row : Order A → A → List A → List A
  insert_row o x [] = x ∷ []
  insert_row o x (y ∷ ys) = if precedes o x y then x ∷ y ∷ ys else y ∷ insert_row o x ys

  abbrev pub sort : Order A → List A → List A
  sort o [] = []
  sort o (x ∷ xs) = insert_row o x (sort o xs)

  precedes-Before : (o : Order A) (x y : A) → precedes o x y ≡ true → Before o x y
  precedes-Before (asc f) x y h = ground arith
  precedes-Before (desc f) x y h = ground arith
  precedes-Before unordered x y h = tt

  Before-total : (o : Order A) (x y : A) → precedes o x y ≡ false → Before o y x
  Before-total (asc f) x y h = ground arith
  Before-total (desc f) x y h = ground arith
  Before-total unordered x y h = tt

  Before-trans : (o : Order A) (x y z : A) → Before o x y → Before o y z → Before o x z
  Before-trans (asc f) x y z h k = omega arith
  Before-trans (desc f) x y z h k = omega arith
  Before-trans unordered x y z h k = tt

  All-Before :
      (o : Order A) (x y : A) (ys : List A)
      → Before o x y
      → All (Before o y) ys
      → All (Before o x) ys
  All-Before o x y [] b h = tt
  All-Before o x y (z ∷ ys) b h = (Before-trans o x y z b h.0, All-Before o x y ys b h.1)

  All-insert_row :
      (o : Order A) (P : A → Type 0) (x : A) (ys : List A)
      → P x
      → All P ys
      → All P (insert_row o x ys)
  All-insert_row o P x [] p h = (p, tt)
  All-insert_row o P x (y ∷ ys) p h = elim (Bool-cases (precedes o x y)) [
    | inl e ↦ rw e (p, h)
    | inr e ↦ rw e (h.0, All-insert_row o P x ys p h.1)
  ]

  insert_row-InOrder :
      (o : Order A) (x : A) (ys : List A) → InOrder o ys → InOrder o (insert_row o x ys)
  insert_row-InOrder o x [] h = (tt, tt)
  insert_row-InOrder o x (y ∷ ys) h = elim (Bool-cases (precedes o x y)) [
    | inl e ↦ let b = precedes-Before o x y e in rw e ((b, All-Before o x y ys b h.0), h)
    | inr e ↦ rw e (
      All-insert_row o (Before o y) x ys (Before-total o x y e) h.0,
      insert_row-InOrder o x ys h.1,
    )
  ]

  pub sort-InOrder : (o : Order A) (xs : List A) → InOrder o (sort o xs)
  sort-InOrder o [] = tt
  sort-InOrder o (x ∷ xs) = insert_row-InOrder o x (sort o xs) (sort-InOrder o xs)

  length-insert_row :
      (o : Order A) (x : A) (ys : List A) → length (insert_row o x ys) ≡ suc (length ys)
  length-insert_row o x [] = refl
  length-insert_row o x (y ∷ ys) = ground (arith, length-insert_row o x ys)

  pub length-sort : (o : Order A) (xs : List A) → length (sort o xs) ≡ length xs
  length-sort o [] = refl
  length-sort o (x ∷ xs) = omega (arith, length-insert_row o x (sort o xs), length-sort o xs)

  Has-insert_row :
      (o : Order A) (r x : A) (ys : List A) → (r ≡ x) ⊎ Has r ys → Has r (insert_row o x ys)
  Has-insert_row o r x [] m = m
  Has-insert_row o r x (y ∷ ys) m = elim (Bool-cases (precedes o x y)) [
    | inl e ↦ rw e m
    | inr e ↦ rw e (elim m [
      | inl h ↦ inr (Has-insert_row o r x ys (inl h))
      | inr (inl h) ↦ inl h
      | inr (inr h) ↦ inr (Has-insert_row o r x ys (inr h))
    ])
  ]

  insert_row-Has :
      (o : Order A) (r x : A) (ys : List A) → Has r (insert_row o x ys) → (r ≡ x) ⊎ Has r ys
  insert_row-Has o r x [] m = m
  insert_row-Has o r x (y ∷ ys) m = elim (Bool-cases (precedes o x y)) [
    | inl e ↦ rw e at m
    | inr e ↦
        let m' : (r ≡ y) ⊎ Has r (insert_row o x ys) = rw e at m in
        elim m' [
          | inl h ↦ inr (inl h)
          | inr h ↦ elim (insert_row-Has o r x ys h) [ inl q ↦ inl q | inr q ↦ inr (inr q) ]
        ]
  ]

  pub Has-sort : (o : Order A) (r : A) (xs : List A) → Has r xs → Has r (sort o xs)
  Has-sort o r [] m = m
  Has-sort o r (x ∷ xs) (inl h) = Has-insert_row o r x (sort o xs) (inl h)
  Has-sort o r (x ∷ xs) (inr h) = Has-insert_row o r x (sort o xs) (inr (Has-sort o r xs h))

  pub sort-Has : (o : Order A) (r : A) (xs : List A) → Has r (sort o xs) → Has r xs
  sort-Has o r [] m = m
  sort-Has o r (x ∷ xs) m = elim (insert_row-Has o r x (sort o xs) m) [
    | inl h ↦ inl h
    | inr h ↦ inr (sort-Has o r xs h)
  ]
