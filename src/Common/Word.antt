-- ===== src/Common/Word.antt =====
-- `i32` and the casts to it, as bit patterns below 2 ^ 32. Sums wrap, as in a release build.
use time_tracker.Common.{ℕ, ◌+◌, ◌%◌, ◌^◌, ◌<◌, ◌≡◌, Bool, ltb, arith}

abbrev pub I32 : Type 0
I32 = ℕ

abbrev pub i32_mod : ℕ
i32_mod = 2 ^ 32

-- 2 ^ 31, the first pattern of a negative number.
abbrev pub i32_half : ℕ
i32_half = 2 ^ 31

-- The same of `i64`.
abbrev pub i64_mod : ℕ
i64_mod = 2 ^ 64

abbrev pub i64_half : ℕ
i64_half = 2 ^ 63

-- The patterns in signed order.
abbrev pub rank : I32 → ℕ
rank a = (a + i32_half) % i32_mod

-- `a + b`
abbrev pub add32 : I32 → I32 → I32
add32 a b = (a + b) % i32_mod

-- `a > b`
abbrev pub gt32 : I32 → I32 → Bool
gt32 a b = ltb (rank b) (rank a)

pub add32_small : (a b : I32) → a + b < i32_half → add32 a b ≡ a + b
add32_small a b h = omega arith

pub rank_small : (a b : I32) → a < i32_half → b < i32_half → gt32 a b ≡ ltb b a
rank_small a b h k = ground arith
