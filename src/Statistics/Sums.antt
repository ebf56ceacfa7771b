-- ===== src/Statistics/Sums.antt =====
-- The statistics as sums over the entries of a span of days.
use time_tracker.Common.{
  ℕ, suc, ◌==◌, leb, ◌+◌, ◌-◌, ◌%◌, ◌≤◌, ◌<◌, ◌≡◌, refl, ◌∙◌, Bool, true, List, [], ◌∷◌, length,
  unwrap_or, Option-cases, inl, inr, arith,
}
use time_tracker.Common.Word.{I32, i32_mod, i32_half, add32}
use time_tracker.Entities.{Date}
use time_tracker.Structs.{Timeline}
use time_tracker.Statistics.{
  Durations, when_date, is_day, is_from, add_entry, fold_entries, calculate_duration_statistics,
}

-- The sum of the durations of the entries, without wrapping.
abbrev pub sum_all : List Timeline → ℕ
sum_all [] = 0
sum_all (t ∷ ts) = unwrap_or t.duration 0 + sum_all ts

-- The same over the entries that have a date, which passes the test.
abbrev pub sum_where : (Date → Bool) → List Timeline → ℕ
sum_where p [] = 0
sum_where p (t ∷ ts) = when_date p t.date (unwrap_or t.duration 0) + sum_where p ts

sum_where_le :
    (p q : Date → Bool)
    → ((d : Date) → p d ≡ true → q d ≡ true)
    → (ts : List Timeline) → sum_where p ts ≤ sum_where q ts
sum_where_le p q h [] = omega arith
sum_where_le p q h (t ∷ ts) = elim (Option-cases t.date) [
  | inl e ↦ rw e (omega (arith, sum_where_le p q h ts))
  | inr (d, e) ↦ rw e (ground (arith, sum_where_le p q h ts, h d))
]

sum_where-sum_all : (p : Date → Bool) (ts : List Timeline) → sum_where p ts ≤ sum_all ts
sum_where-sum_all p [] = omega arith
sum_where-sum_all p (t ∷ ts) = elim (Option-cases t.date) [
  | inl e ↦ rw e (omega (arith, sum_where-sum_all p ts))
  | inr (d, e) ↦ rw e (ground (arith, sum_where-sum_all p ts))
]

add32_lt : (a b : I32) → add32 a b < i32_mod
add32_lt a b = omega arith

add32_step : (a b c : ℕ) → (add32 a b + c) % i32_mod ≡ (a + (b + c)) % i32_mod
add32_step a b c = omega arith

zero_add : (n : ℕ) → 0 + n ≡ n
zero_add n = omega arith

suc_add : (n : ℕ) → 1 + n ≡ suc n
suc_add n = omega arith

module _ (today : Date) where
  fold_lem :
      (acc : Durations) (ts : List Timeline)
      → acc.total < i32_mod
      → acc.sessions < i32_mod
      → acc.today_sum < i32_mod
      → acc.week_sum < i32_mod
      → acc.month_sum < i32_mod
      → fold_entries today acc ts ≡ record {
        total = (acc.total + sum_all ts) % i32_mod;
        sessions = (acc.sessions + length ts) % i32_mod;
        today_sum = (acc.today_sum + sum_where (is_day today) ts) % i32_mod;
        week_sum = (acc.week_sum + sum_where (is_from (today - 7)) ts) % i32_mod;
        month_sum = (acc.month_sum + sum_where (is_from (today - 30)) ts) % i32_mod;
      }
  unfolding fold_entries add_entry
  fold_lem acc [] a b c d e = ground arith
  fold_lem acc (t ∷ ts) a b c d e =
      let n = unwrap_or t.duration 0 in
      fold_lem (add_entry today acc t) ts (add32_lt acc.total n) (add32_lt acc.sessions 1)
        (add32_lt acc.today_sum _) (add32_lt acc.week_sum _) (add32_lt acc.month_sum _)
      ∙ rw
          (
            add32_step acc.total n (sum_all ts),
            add32_step acc.sessions 1 (length ts),
            add32_step acc.today_sum (when_date (is_day today) t.date n)
                (sum_where (is_day today) ts),
            add32_step acc.week_sum (when_date (is_from (today - 7)) t.date n)
                (sum_where (is_from (today - 7)) ts),
            add32_step acc.month_sum (when_date (is_from (today - 30)) t.date n)
                (sum_where (is_from (today - 30)) ts),
            suc_add (length ts),
          )
          refl

  pub calculate_duration_statistics-sums :
      (ts : List Timeline)
      → calculate_duration_statistics today ts ≡ record {
        total = sum_all ts % i32_mod;
        sessions = length ts % i32_mod;
        today_sum = sum_where (λ d. d == today) ts % i32_mod;
        week_sum = sum_where (λ d. leb (today - 7) d) ts % i32_mod;
        month_sum = sum_where (λ d. leb (today - 30) d) ts % i32_mod;
      }
  unfolding calculate_duration_statistics
  calculate_duration_statistics-sums ts =
      fold_lem (record { total = 0; sessions = 0; today_sum = 0; week_sum = 0; month_sum = 0 }) ts
        (omega arith) (omega arith) (omega arith) (omega arith) (omega arith)
      ∙ rw
          (
            zero_add (sum_all ts),
            zero_add (length ts),
            zero_add (sum_where (is_day today) ts),
            zero_add (sum_where (is_from (today - 7)) ts),
            zero_add (sum_where (is_from (today - 30)) ts),
          )
          refl

  -- If the sum of the durations of all entries and the number of entries are below 2 ^ 31: the
  -- statistics are the sum of all durations, the number of entries, and the sums over the entries of
  -- today, since 7 days ago and since 30 days ago; and today's sum is at most the week's, that at most the
  -- month's, and that at most the total.
  pub calculate_duration_statistics_lem :
      (ts : List Timeline)
      → sum_all ts < i32_half
      → length ts < i32_half
      → let r = calculate_duration_statistics today ts in
        (r ≡ record {
          total = sum_all ts;
          sessions = length ts;
          today_sum = sum_where (is_day today) ts;
          week_sum = sum_where (is_from (today - 7)) ts;
          month_sum = sum_where (is_from (today - 30)) ts;
        })
        × (r.today_sum ≤ r.week_sum)
        × (r.week_sum ≤ r.month_sum)
        × (r.month_sum ≤ r.total)
  unfolding calculate_duration_statistics
  calculate_duration_statistics_lem ts small few =
      let day_week =
        sum_where_le (is_day today) (is_from (today - 7)) (λ d h. ground (arith, h)) ts in
      let week_month =
        sum_where_le (is_from (today - 7)) (is_from (today - 30)) (λ d h. ground (arith, h)) ts in
      let month_all = sum_where-sum_all (is_from (today - 30)) ts in
      let sums =
        fold_lem (record { total = 0; sessions = 0; today_sum = 0; week_sum = 0; month_sum = 0 }) ts
          (omega arith) (omega arith) (omega arith) (omega arith) (omega arith) in
      ground (arith, sums, day_week, week_month, month_all, small, few)
