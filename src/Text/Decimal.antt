-- ===== src/Text/Decimal.antt =====
-- Printing and parsing an `i32`.
use Prim.Native.Char.{Char, code}
use text.Mathlib.TextLemmas.{append_assoc, append-nil, nil-append, cons-append}
use native.Mathlib.Nat.{pow-suc}
use Prim.Native.String.{◌++◌}
use time_tracker.Common.{
  ℕ, zero, suc, ◌+◌, ◌-◌, ◌*◌, ◌/◌, ◌%◌, ◌^◌, ◌<◌, ◌≡◌, String, true, false, some, arith, ltb,
  Bool-cases, inl, inr, ◌∙◌, ap, sym, subst, ◌≤◌,
}
use time_tracker.Common.Word.{I32, i32_mod, i32_half, i64_mod, i64_half}
use time_tracker.Text.{
  digit, show_digits, show_nat, show_i32, show_i64, widen, read_digits, read_nat, in_range,
  parse_i32,
}

pub single-append : (c : Char) (s : String) → (String.◌∷◌ c String.[]) ++ s ≡ String.◌∷◌ c s
single-append c s = cons-append c String.[] s ∙ ap (String.◌∷◌ c) (nil-append s)

-- Each digit is read back.
read-digit :
    (acc d : ℕ) (s : String)
    → d < 10
    → read_digits acc (digit d ++ s) ≡ read_digits (acc * 10 + d) s
unfolding read_digits digit
read-digit acc zero s h = rw (single-append "0" s) (ap (λ k. read_digits k s) (omega arith))
read-digit acc (suc zero) s h = rw (single-append "1" s) (ap (λ k. read_digits k s) (omega arith))
read-digit acc (suc (suc zero)) s h =
    rw (single-append "2" s) (ap (λ k. read_digits k s) (omega arith))
read-digit acc (suc (suc (suc zero))) s h =
    rw (single-append "3" s) (ap (λ k. read_digits k s) (omega arith))
read-digit acc (suc (suc (suc (suc zero)))) s h =
    rw (single-append "4" s) (ap (λ k. read_digits k s) (omega arith))
read-digit acc (suc (suc (suc (suc (suc zero))))) s h =
    rw (single-append "5" s) (ap (λ k. read_digits k s) (omega arith))
read-digit acc (suc (suc (suc (suc (suc (suc zero)))))) s h =
    rw (single-append "6" s) (ap (λ k. read_digits k s) (omega arith))
read-digit acc (suc (suc (suc (suc (suc (suc (suc zero))))))) s h =
    rw (single-append "7" s) (ap (λ k. read_digits k s) (omega arith))
read-digit acc (suc (suc (suc (suc (suc (suc (suc (suc zero)))))))) s h =
    rw (single-append "8" s) (ap (λ k. read_digits k s) (omega arith))
read-digit acc (suc (suc (suc (suc (suc (suc (suc (suc (suc zero))))))))) s h =
    rw (single-append "9" s) (ap (λ k. read_digits k s) (omega arith))
read-digit acc (suc (suc (suc (suc (suc (suc (suc (suc (suc (suc d)))))))))) s h =
    absurd (omega arith)

-- A text that begins with a digit.
abbrev StartsDigit : String → Type 0
StartsDigit t = (c : Char) × (s : String) × (t ≡ String.◌∷◌ c s) × (b'0' ≤ code c) × (code c ≤ b'9')

StartsDigit-digit : (d : ℕ) (s : String) → StartsDigit (digit d ++ s)
unfolding digit
StartsDigit-digit zero s = ("0", s, single-append "0" s, omega arith, omega arith)
StartsDigit-digit (suc zero) s = ("1", s, single-append "1" s, omega arith, omega arith)
StartsDigit-digit (suc (suc zero)) s = ("2", s, single-append "2" s, omega arith, omega arith)
StartsDigit-digit (suc (suc (suc zero))) s = ("3", s, single-append "3" s, omega arith, omega arith)
StartsDigit-digit (suc (suc (suc (suc zero)))) s =
    ("4", s, single-append "4" s, omega arith, omega arith)
StartsDigit-digit (suc (suc (suc (suc (suc zero))))) s =
    ("5", s, single-append "5" s, omega arith, omega arith)
StartsDigit-digit (suc (suc (suc (suc (suc (suc zero)))))) s =
    ("6", s, single-append "6" s, omega arith, omega arith)
StartsDigit-digit (suc (suc (suc (suc (suc (suc (suc zero))))))) s =
    ("7", s, single-append "7" s, omega arith, omega arith)
StartsDigit-digit (suc (suc (suc (suc (suc (suc (suc (suc zero)))))))) s =
    ("8", s, single-append "8" s, omega arith, omega arith)
StartsDigit-digit _ s = ("9", s, single-append "9" s, omega arith, omega arith)

StartsDigit-show_digits : (fuel n : ℕ) (s : String) → StartsDigit (show_digits (suc fuel) n ++ s)
unfolding show_digits
StartsDigit-show_digits zero n s = elim (Bool-cases (ltb n 10)) [
  | inl e ↦ rw e (StartsDigit-digit n s)
  | inr e ↦ rw (e, nil-append) (StartsDigit-digit (n % 10) s)
]
StartsDigit-show_digits (suc fuel) n s = elim (Bool-cases (ltb n 10)) [
  | inl e ↦ rw e (StartsDigit-digit n s)
  | inr e ↦ rw (e, append_assoc) (StartsDigit-show_digits fuel (n / 10) (digit (n % 10) ++ s))
]

-- With fuel for its digits, a number is read back behind nothing and in front of anything.
read_digits-show_digits :
    (fuel n : ℕ) (s : String)
    → n < 10 ^ fuel
    → read_digits 0 (show_digits fuel n ++ s) ≡ read_digits n s
unfolding show_digits
read_digits-show_digits zero n s h = rw (nil-append s) (ap (λ k. read_digits k s) (omega arith))
read_digits-show_digits (suc fuel) n s h = elim (Bool-cases (ltb n 10)) [
  | inl e ↦ rw e (read-digit 0 n s (ground arith) ∙ ap (λ k. read_digits k s) (omega arith))
  | inr e ↦
      rw (e, append_assoc)
        (read_digits-show_digits fuel (n / 10) (digit (n % 10) ++ s)
            (omega (arith, pow-suc 10 fuel))
          ∙ read-digit (n / 10) (n % 10) s (omega arith)
          ∙ ap (λ k. read_digits k s) (omega arith))
]

StartsDigit-printed : (f n : ℕ) → StartsDigit (show_digits (suc f) n)
StartsDigit-printed f n =
    subst StartsDigit (append-nil (show_digits (suc f) n)) (StartsDigit-show_digits f n "")

read_nat-printed : (f n : ℕ) → n < 10 ^ suc f → read_nat (show_digits (suc f) n) ≡ some n
unfolding read_nat read_digits
read_nat-printed f n h =
    let (c, t, e, _, _) = StartsDigit-printed f n in
    let read : read_digits 0 (show_digits (suc f) n) ≡ some n =
      ap (read_digits 0) (sym (append-nil (show_digits (suc f) n)))
      ∙ read_digits-show_digits (suc f) n "" h in
    rw e (rw e at read)

in_range_small :
    (limit : ℕ) (f : ℕ → I32) (n : ℕ) → n ≤ limit → in_range limit f (some n) ≡ some (f n)
in_range_small limit f n h = ground arith

-- The digits of a small number are parsed as the number, and behind a minus as its negative.
parse_plain : (f n : ℕ) → n < 10 ^ suc f → n < i32_half → parse_i32 (show_digits (suc f) n) ≡ some n
unfolding parse_i32
parse_plain f n h small =
    let (c, t, e, low, _) = StartsDigit-printed f n in
    rw e (
      ground (
        arith,
        low,
        rw e at (read_nat-printed f n h),
        in_range_small (i32_half - 1) (λ n. n) n (omega arith),
      ))

parse_minus :
    (f m a : ℕ)
    → m < 10 ^ suc f
    → m ≤ i32_half
    → (i32_mod - m) % i32_mod ≡ a
    → parse_i32 ("-" ++ show_digits (suc f) m) ≡ some a
unfolding parse_i32
parse_minus f m a h small e =
    rw (single-append "-" (show_digits (suc f) m), read_nat-printed f m h)
      (in_range_small i32_half (λ n. (i32_mod - n) % i32_mod) m small ∙ ap some e)

-- Every `i32` is printed so that it parses back.
pub parse_i32-show_i32 : (a : I32) → a < i32_mod → parse_i32 (show_i32 a) ≡ some a
unfolding show_i32 show_nat
parse_i32-show_i32 a h = elim (Bool-cases (ltb a i32_half)) [
  | inl e ↦ rw e (parse_plain 9 a (omega arith) (ground arith))
  | inr e ↦ rw e (parse_minus 9 (i32_mod - a) a (omega arith) (ground arith) (omega arith))
]

-- An `i32` that was written as an `i64` is read back as the `i32`.
pub parse_i32-show_i64 : (a : I32) → a < i32_mod → parse_i32 (show_i64 (widen a)) ≡ some a
unfolding show_i64
parse_i32-show_i64 a h = elim (Bool-cases (ltb a i32_half)) [
  | inl e ↦
      let e' : ltb a i64_half ≡ true = ground arith in
      rw (e, e') (parse_plain 19 a (omega arith) (ground arith))
  | inr e ↦
      let e' : ltb (a + (i64_mod - i32_mod)) i64_half ≡ false = ground arith in
      let m : i64_mod - (a + (i64_mod - i32_mod)) ≡ i32_mod - a = omega arith in
      rw (e, e', m) (parse_minus 19 (i32_mod - a) a (omega arith) (ground arith) (omega arith))
]
