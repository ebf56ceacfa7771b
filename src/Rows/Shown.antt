-- ===== src/Rows/Shown.antt =====
-- What a client sees of a row that serde printed.
use time_tracker.Common.{
  String, ◌≡◌, refl, sym, ap, ◌∙◌, ◌<◌, Bool, true, false, Option, none, some, eq_iff, unwrap_or,
  Bool-cases, inl, inr,
}
use time_tracker.Common.Word.{I32, i32_mod}
use time_tracker.Common.Map.{lookup}
use time_tracker.Json.{Json, Fields, null, bool, number, string, end, field}
use time_tracker.Text.{parse_i32, show_i64, widen}
use time_tracker.Text.Decimal.{parse_i32-show_i64}
use time_tracker.Entities.{AppModel, TimelineModel, CheckpointModel, Date, DateTime}
use time_tracker.Structs.{App, Timeline, Checkpoint}
use time_tracker.Rows.{
  Calendar, and_option, is_blank, not_blank, parse_bool, app_from_pg_row, timeline_from_pg_row,
  read_datetime, checkpoint_from_pg_row, json_value_to_string, row_map,
}

-- A date and a time stamp as serde writes them, `2024-01-31` and `2024-01-31T10:00:00.5`: parsed
-- by the format that has the same parts, and by none of those that have other ones.
pub record Reads (cal : Calendar) : Type 0 where
  pub date_printed : (d : Date) → is_blank (cal.show_date d) ≡ false
  pub date_read : (d : Date) → cal.read_date (cal.show_date d) ≡ some d
  pub date_parsed : (d : Date) → cal.parse_date "%Y-%m-%d" (cal.show_date d) ≡ some d
  pub time_printed : (t : DateTime) → is_blank (cal.show_datetime t) ≡ false
  pub spaced :
      (t : DateTime) → cal.parse_datetime "%Y-%m-%d %H:%M:%S%.f" (cal.show_datetime t) ≡ none
  pub spaced_whole :
      (t : DateTime) → cal.parse_datetime "%Y-%m-%d %H:%M:%S" (cal.show_datetime t) ≡ none
  pub time_parsed :
      (t : DateTime) → cal.parse_datetime "%Y-%m-%dT%H:%M:%S%.f" (cal.show_datetime t) ≡ some t

-- An optional value as serde writes it.
abbrev pub to_json {ℓ} : {A : Type ℓ} → (A → Json) → Option A → Json
to_json f none = null
to_json f (some a) = f a

abbrev pub int_json : I32 → Json
int_json a = number (widen a)

-- The fields that serde derives for a row of apps, of the timeline and of checkpoints.
abbrev pub app_fields : Calendar → AppModel → Fields
app_fields cal r = field "id" (int_json r.id) (
    field "duration" (to_json int_json r.duration) (
      field "launches" (to_json int_json r.launches) (
        field "longest_session" (to_json int_json r.longest_session) (
          field "name" (to_json string r.name) (
            field "product_name" (to_json string r.product_name) (
              field "longest_session_on"
                (to_json (λ d. string (cal.show_date d)) r.longest_session_on) end))))))

abbrev pub timeline_fields : Calendar → TimelineModel → Fields
timeline_fields cal r = field "id" (int_json r.id) (
    field "date" (string (cal.show_date r.date)) (
      field "duration" (to_json int_json r.duration) (
        field "app_id" (int_json r.app_id)
          (field "checkpoint_id" (to_json int_json r.checkpoint_id) end))))

abbrev pub time_json : Calendar → DateTime → Json
time_json cal t = string (cal.show_datetime t)

abbrev pub checkpoint_fields : Calendar → CheckpointModel → Fields
checkpoint_fields cal r = field "id" (int_json r.id) (
    field "name" (string r.name) (
      field "description" (to_json string r.description) (
        field "created_at" (to_json (time_json cal) r.created_at) (
          field "valid_from" (to_json (time_json cal) r.valid_from) (
            field "color" (to_json string r.color) (
              field "app_id" (int_json r.app_id) (
                field "is_active" (to_json bool r.is_active) (
                  field "duration" (to_json int_json r.duration) (
                    field "sessions_count" (to_json int_json r.sessions_count) (
                      field "last_updated" (to_json (time_json cal) r.last_updated) (
                        field "activated_at" (to_json (time_json cal) r.activated_at) end)))))))))))

-- What the client sees: an empty text counts as no text.
abbrev pub shown_app : AppModel → App
shown_app r = record {
  id = r.id;
  duration = r.duration;
  launches = r.launches;
  longest_session = r.longest_session;
  name = not_blank r.name;
  product_name = not_blank r.product_name;
  longest_session_on = r.longest_session_on;
}

abbrev pub shown_timeline : TimelineModel → Timeline
shown_timeline r = record {
  id = r.id;
  date = some r.date;
  duration = r.duration;
  app_id = some r.app_id;
}

abbrev pub shown_checkpoint : CheckpointModel → Checkpoint
shown_checkpoint r = record {
  id = r.id;
  name = not_blank (some r.name);
  description = not_blank r.description;
  created_at = r.created_at;
  valid_from = r.valid_from;
  color = not_blank r.color;
  app_id = r.app_id;
  is_active = r.is_active;
  timeline_id = none;
  duration = r.duration;
  sessions_count = r.sessions_count;
  last_updated = r.last_updated;
  activated_at = r.activated_at;
}

-- The bit patterns of a row are 32-bit ones.
abbrev pub IsWord : Option I32 → Type 0
IsWord none = Unit
IsWord (some n) = n < i32_mod

no_number : {a : I32} → parse_i32 "" ≡ some a → ⊥
unfolding parse_i32
no_number h = cc

printed_number : (a : I32) → a < i32_mod → is_blank (show_i64 (widen a)) ≡ false
printed_number a h = elim (Bool-cases (is_blank (show_i64 (widen a)))) [
  | inl e ↦
      let same : show_i64 (widen a) ≡ "" = (eq_iff (show_i64 (widen a)) "").0 e in
      absurd (no_number (sym (ap parse_i32 same) ∙ parse_i32-show_i64 a h))
  | inr e ↦ e
]

module _ (print : Json → Option String) where
  abbrev text : Json → String
  text = json_value_to_string print

  int_lem :
      (a : I32)
      → a < i32_mod
      → and_option (not_blank (some (show_i64 (widen a)))) parse_i32 ≡ some a
  int_lem a h = rw (printed_number a h) (parse_i32-show_i64 a h)

  ints_lem :
      (o : Option I32)
      → IsWord o
      → and_option (not_blank (some (text (to_json int_json o)))) parse_i32 ≡ o
  ints_lem none h = refl
  ints_lem (some a) h = int_lem a h

  strings_lem : (o : Option String) → not_blank (some (text (to_json string o))) ≡ not_blank o
  strings_lem none = refl
  strings_lem (some s) = refl

  bools_lem :
      (o : Option Bool) → and_option (not_blank (some (text (to_json bool o)))) parse_bool ≡ o
  bools_lem none = refl
  bools_lem (some true) = refl
  bools_lem (some false) = refl

  module _ (cal : Calendar) (reads : Reads cal) where
    times_lem :
        (o : Option DateTime)
        → and_option (not_blank (some (text (to_json (time_json cal) o)))) (read_datetime cal) ≡ o
    times_lem none = refl
    times_lem (some t) =
        rw (reads.time_printed t, reads.spaced t, reads.spaced_whole t, reads.time_parsed t) refl

    dates_lem :
        (o : Option Date)
        → and_option
            (not_blank (some (text (to_json (λ d. string (cal.show_date d)) o))))
            (cal.parse_date "%Y-%m-%d")
          ≡ o
    dates_lem none = refl
    dates_lem (some d) = rw (reads.date_printed d) (reads.date_parsed d)

    pub app_from_pg_row_lem :
        (r : AppModel)
        → r.id < i32_mod
        → IsWord r.duration
        → IsWord r.launches
        → IsWord r.longest_session
        → app_from_pg_row cal (row_map print (app_fields cal r)) ≡ some (shown_app r)
    unfolding app_from_pg_row row_map lookup
    app_from_pg_row_lem r small a b c = rw (parse_i32-show_i64 r.id small) (λ i. some (record {
      id = r.id;
      duration = ints_lem r.duration a i;
      launches = ints_lem r.launches b i;
      longest_session = ints_lem r.longest_session c i;
      name = strings_lem r.name i;
      product_name = strings_lem r.product_name i;
      longest_session_on = dates_lem r.longest_session_on i;
    }))

    pub timeline_from_pg_row_lem :
        (r : TimelineModel)
        → r.id < i32_mod
        → r.app_id < i32_mod
        → IsWord r.duration
        → timeline_from_pg_row cal (row_map print (timeline_fields cal r)) ≡ some (shown_timeline r)
    unfolding timeline_from_pg_row row_map lookup
    timeline_from_pg_row_lem r small app a =
        rw (parse_i32-show_i64 r.id small, reads.date_printed r.date, reads.date_read r.date)
          (λ i. some (record {
            id = r.id;
            date = some r.date;
            duration = ints_lem r.duration a i;
            app_id = int_lem r.app_id app i;
          }))

    pub checkpoint_from_pg_row_lem :
        (r : CheckpointModel)
        → r.id < i32_mod
        → r.app_id < i32_mod
        → IsWord r.duration
        → IsWord r.sessions_count
        → checkpoint_from_pg_row cal (row_map print (checkpoint_fields cal r))
          ≡ some (shown_checkpoint r)
    unfolding checkpoint_from_pg_row row_map lookup
    checkpoint_from_pg_row_lem r small app a b = rw (parse_i32-show_i64 r.id small) (λ i.
        some (record {
          id = r.id;
          name = not_blank (some r.name);
          description = strings_lem r.description i;
          created_at = times_lem r.created_at i;
          valid_from = times_lem r.valid_from i;
          color = strings_lem r.color i;
          app_id = unwrap_or (int_lem r.app_id app i) 0;
          is_active = bools_lem r.is_active i;
          timeline_id = none;
          duration = ints_lem r.duration a i;
          sessions_count = ints_lem r.sessions_count b i;
          last_updated = times_lem r.last_updated i;
          activated_at = times_lem r.activated_at i;
        }))
