-- ===== src/Text/Split.antt =====
-- Splitting a text at a separator.
use Prim.Native.Char.{Char, code}
use Prim.Native.String.{◌++◌}
use text.Mathlib.TextLemmas.{nil-append, cons-append}
use time_tracker.Common.{
  ℕ, zero, suc, ◌/◌, ◌%◌, ◌-◌, ◌≡◌, ◌≢◌, refl, String, ltb, [], ◌∷◌, arith, Bool-cases, inl, inr,
}
use time_tracker.Common.Word.{i32_mod, i32_half}
use time_tracker.Text.{digit, show_digits, show_nat, show_i32, split}
use time_tracker.Text.Decimal.{single-append}

-- The separator does not occur in the text.
abbrev pub IsFree : ℕ → String → Type 0
IsFree sep String.[] = Unit
IsFree sep (String.◌∷◌ c s) = (code c ≢ sep) × IsFree sep s

pub split_of_IsFree : (sep : ℕ) (s : String) → IsFree sep s → split sep s ≡ s ∷ []
unfolding split
split_of_IsFree sep String.[] h = refl
split_of_IsFree sep (String.◌∷◌ c s) h =
    ground (arith, split_of_IsFree sep s h.1, single-append c s)

-- A text in front of a separator is the first piece.
pub split-append :
    (c : Char) (s rest : String)
    → IsFree (code c) s
    → split (code c) (s ++ String.◌∷◌ c rest) ≡ s ∷ split (code c) rest
unfolding split
split-append c String.[] rest h = rw (nil-append (String.◌∷◌ c rest)) (ground arith)
split-append c (String.◌∷◌ d s) rest h =
    rw (cons-append d s (String.◌∷◌ c rest))
      (ground (arith, split-append c s rest h.1, single-append d s))

IsFree-append : (sep : ℕ) (s t : String) → IsFree sep s → IsFree sep t → IsFree sep (s ++ t)
IsFree-append sep String.[] t h k = rw (nil-append t) k
IsFree-append sep (String.◌∷◌ c s) t h k = rw (cons-append c s t) (h.0, IsFree-append sep s t h.1 k)

IsFree-digit : (d : ℕ) → IsFree b';' (digit d)
unfolding digit
IsFree-digit zero = omega arith
IsFree-digit (suc zero) = omega arith
IsFree-digit (suc (suc zero)) = omega arith
IsFree-digit (suc (suc (suc zero))) = omega arith
IsFree-digit (suc (suc (suc (suc zero)))) = omega arith
IsFree-digit (suc (suc (suc (suc (suc zero))))) = omega arith
IsFree-digit (suc (suc (suc (suc (suc (suc zero)))))) = omega arith
IsFree-digit (suc (suc (suc (suc (suc (suc (suc zero))))))) = omega arith
IsFree-digit (suc (suc (suc (suc (suc (suc (suc (suc zero)))))))) = omega arith
IsFree-digit _ = omega arith

IsFree-show_digits : (fuel n : ℕ) → IsFree b';' (show_digits fuel n)
unfolding show_digits
IsFree-show_digits zero n = tt
IsFree-show_digits (suc fuel) n = elim (Bool-cases (ltb n 10)) [
  | inl e ↦ rw e (IsFree-digit n)
  | inr e ↦ rw e (IsFree-append b';' _ _ (IsFree-show_digits fuel (n / 10)) (IsFree-digit (n % 10)))
]

pub IsFree-show_i32 : (n : ℕ) → IsFree b';' (show_i32 n)
unfolding show_i32 show_nat
IsFree-show_i32 n = elim (Bool-cases (ltb n i32_half)) [
  | inl e ↦ rw e (IsFree-show_digits 10 n)
  | inr e ↦ rw e (IsFree-append b';' "-" _ (omega arith) (IsFree-show_digits 10 (i32_mod - n)))
]
