-- ===== src/Statistics.antt =====
-- calculate_duration_statistics of websocket/handlers.rs.
pub mod Sums
use time_tracker.Common.{
  ℕ, ◌-◌, ◌==◌, leb, Bool, Option, none, some, List, [], ◌∷◌, if◌then◌else◌, unwrap_or,
}
use time_tracker.Common.Word.{I32, add32}
use time_tracker.Entities.{Date}
use time_tracker.Structs.{Timeline}

-- total, count, today, week and month.
pub record Durations : Type 0 where
  pub total : I32
  pub sessions : I32
  pub today_sum : I32
  pub week_sum : I32
  pub month_sum : I32

-- `entry.date.filter(p).map(|_| duration).unwrap_or(0)`
abbrev pub when_date : (Date → Bool) → Option Date → I32 → I32
when_date p none duration = 0
when_date p (some d) duration = if p d then duration else 0

abbrev pub is_day : Date → Date → Bool
is_day today d = d == today

abbrev pub is_from : Date → Date → Bool
is_from first d = leb first d

unfoldable pub add_entry : Date → Durations → Timeline → Durations
add_entry today acc entry =
    let duration = unwrap_or entry.duration 0 in
    record {
      total = add32 acc.total duration;
      sessions = add32 acc.sessions 1;
      today_sum = add32 acc.today_sum (when_date (is_day today) entry.date duration);
      week_sum = add32 acc.week_sum (when_date (is_from (today - 7)) entry.date duration);
      month_sum = add32 acc.month_sum (when_date (is_from (today - 30)) entry.date duration);
    }

unfoldable pub fold_entries : Date → Durations → List Timeline → Durations
fold_entries today acc [] = acc
fold_entries today acc (t ∷ ts) = fold_entries today (add_entry today acc t) ts

unfoldable pub calculate_duration_statistics : Date → List Timeline → Durations
calculate_duration_statistics today entries =
    fold_entries today
      (record { total = 0; sessions = 0; today_sum = 0; week_sum = 0; month_sum = 0 }) entries
