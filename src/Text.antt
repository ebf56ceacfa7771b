-- ===== src/Text.antt =====
-- What the program uses of Rust's text: `format!` and `parse` of an `i32`, and `split(c)`.
pub mod Decimal
pub mod Split
use Prim.Native.Char.{code}
use Prim.Native.String.{◌++◌}
use time_tracker.Common.{
  ℕ, zero, suc, ◌+◌, ◌-◌, ◌*◌, ◌/◌, ◌%◌, ◌^◌, String, Bool, true, false, ◌&&◌, ◌||◌, ◌==◌, ltb, leb,
  Option, none, some, List, [], ◌∷◌, if◌then◌else◌,
}
use time_tracker.Common.Word.{I32, i32_mod, i32_half, i64_mod, i64_half}

-- The text of a digit.
pub digit : ℕ → String
digit zero = "0"
digit (suc zero) = "1"
digit (suc (suc zero)) = "2"
digit (suc (suc (suc zero))) = "3"
digit (suc (suc (suc (suc zero)))) = "4"
digit (suc (suc (suc (suc (suc zero))))) = "5"
digit (suc (suc (suc (suc (suc (suc zero)))))) = "6"
digit (suc (suc (suc (suc (suc (suc (suc zero))))))) = "7"
digit (suc (suc (suc (suc (suc (suc (suc (suc zero)))))))) = "8"
digit _ = "9"

-- The decimal digits of a number of at most `fuel` digits.
pub show_digits : ℕ → ℕ → String
show_digits zero n = ""
show_digits (suc fuel) n =
    let front = show_digits fuel (n / 10) in if ltb n 10 then digit n else front ++ digit (n % 10)

-- An `i32` has ten digits at most.
pub show_nat : ℕ → String
show_nat n = show_digits 10 n

-- `format!("{}", a)`
unfoldable pub show_i32 : I32 → String
unfolding show_nat show_digits digit
show_i32 a = if ltb a i32_half then show_nat a else "-" ++ show_nat (i32_mod - a)

-- `n.to_string()` of a 64-bit number, which has twenty digits at most.
unfoldable pub show_i64 : ℕ → String
unfolding show_digits digit
show_i64 n = if ltb n i64_half then show_digits 20 n else "-" ++ show_digits 20 (i64_mod - n)

-- `i64::from(a)`
abbrev pub widen : I32 → ℕ
widen a = if ltb a i32_half then a else a + (i64_mod - i32_mod)

-- The value of a run of digits behind `acc`.
pub read_digits : ℕ → String → Option ℕ
read_digits acc String.[] = some acc
read_digits acc (String.◌∷◌ c s) =
    let rest = read_digits (acc * 10 + (code c - b'0')) s in
    if leb b'0' (code c) && leb (code c) b'9' then rest else none

-- The empty run is no number.
pub read_nat : String → Option ℕ
unfolding read_digits
read_nat String.[] = none
read_nat (String.◌∷◌ c s) = read_digits 0 (String.◌∷◌ c s)

abbrev pub in_range : ℕ → (ℕ → I32) → Option ℕ → Option I32
in_range limit f none = none
in_range limit f (some n) = if leb n limit then some (f n) else none

-- `s.parse::<i32>().ok()`
unfoldable pub parse_i32 : String → Option I32
unfolding read_nat
parse_i32 String.[] = none
parse_i32 (String.◌∷◌ c s) =
    if code c == b'-'
    then in_range i32_half (λ n. (i32_mod - n) % i32_mod) (read_nat s)
    else if code c == b'+'
    then in_range (i32_half - 1) (λ n. n) (read_nat s)
    else in_range (i32_half - 1) (λ n. n) (read_nat (String.◌∷◌ c s))

-- Puts a character in front of the first piece.
abbrev pub onto_first : String → List String → List String
onto_first c [] = c ∷ []
onto_first c (p ∷ ps) = (c ++ p) ∷ ps

-- `s.split(c).collect()`, the separator by its code
unfoldable pub split : ℕ → String → List String
split sep String.[] = "" ∷ []
split sep (String.◌∷◌ c s) =
    let rest = split sep s in
    if code c == sep then "" ∷ rest else onto_first (String.◌∷◌ c String.[]) rest
