-- ===== src/Rows.antt =====
-- How an answer of the database becomes the values that a client sees: `from_pg_row` of structs.rs,
-- and the conversions of rows in websocket/handlers.rs.
pub mod Shown
use time_tracker.Common.{
  ℕ, String, Bool, true, false, Option, none, some, List, [], ◌∷◌, map, if◌then◌else◌, str_eq,
  unwrap_or, filter_map,
}
use time_tracker.Common.Word.{I32}
use time_tracker.Common.Map.{Map, lookup}
use time_tracker.Json.{
  Json, Fields, null, bool, number, other_number, string, array, object, end, field,
}
use time_tracker.Text.{parse_i32, show_i64}
use time_tracker.Entities.{Date, DateTime}
use time_tracker.Structs.{App, Timeline, Checkpoint}

-- chrono: printing, and parsing with a format or without one.
pub record Calendar : Type 0 where
  pub show_date : Date → String
  pub show_datetime : DateTime → String
  -- `s.parse::<NaiveDate>().ok()`
  pub read_date : String → Option Date
  -- `NaiveDate::parse_from_str(s, format).ok()`, and the same of NaiveDateTime
  pub parse_date : String → String → Option Date
  pub parse_datetime : String → String → Option DateTime

abbrev pub and_option {ℓ κ} : {A : Type ℓ} {B : Type κ} → Option A → (A → Option B) → Option B
and_option none f = none
and_option (some a) f = f a

-- `o.or_else(..)`
abbrev pub or_option {ℓ} : {A : Type ℓ} → Option A → Option A → Option A
or_option none o = o
or_option (some a) o = some a

abbrev pub is_blank : String → Bool
is_blank s = str_eq s ""

-- `o.filter(|s| !s.is_empty())`
abbrev pub not_blank : Option String → Option String
not_blank none = none
not_blank (some s) = if is_blank s then none else some s

-- `s.parse::<bool>().ok()`
abbrev pub parse_bool : String → Option Bool
parse_bool s = if str_eq s "true" then some true else if str_eq s "false" then some false else none

abbrev pub RowMap : Type 0
RowMap = Map String

-- The closures `parse_optional_string` and `parse_optional_int`.
abbrev pub optional_string : RowMap → String → Option String
optional_string row key = not_blank (lookup key row)

abbrev pub optional_int : RowMap → String → Option I32
optional_int row key = and_option (not_blank (lookup key row)) parse_i32

abbrev pub optional_bool : RowMap → String → Option Bool
optional_bool row key = and_option (not_blank (lookup key row)) parse_bool

-- `row_data.get("id")?.parse().ok()?`
abbrev pub row_id : RowMap → Option I32
row_id row = and_option (lookup "id" row) parse_i32

module _ (cal : Calendar) where
  unfoldable pub app_from_pg_row : RowMap → Option App
  app_from_pg_row row = and_option (row_id row) (λ id. some (record {
    id = id;
    duration = optional_int row "duration";
    launches = optional_int row "launches";
    longest_session = optional_int row "longest_session";
    name = optional_string row "name";
    product_name = optional_string row "product_name";
    longest_session_on =
        and_option (not_blank (lookup "longest_session_on" row)) (cal.parse_date "%Y-%m-%d");
  }))

  unfoldable pub timeline_from_pg_row : RowMap → Option Timeline
  timeline_from_pg_row row = and_option (row_id row) (λ id. some (record {
    id = id;
    date =
        and_option (not_blank (lookup "date" row))
          (λ s. or_option (cal.read_date s) (cal.parse_date "%Y-%m-%d" s));
    duration = optional_int row "duration";
    app_id = optional_int row "app_id";
  }))

  -- The closure `parse_optional_datetime`: four formats, in this order.
  abbrev pub read_datetime : String → Option DateTime
  read_datetime s = or_option (cal.parse_datetime "%Y-%m-%d %H:%M:%S%.f" s) (
      or_option (cal.parse_datetime "%Y-%m-%d %H:%M:%S" s) (
        or_option (cal.parse_datetime "%Y-%m-%dT%H:%M:%S%.f" s)
          (cal.parse_datetime "%Y-%m-%dT%H:%M:%S" s)))

  abbrev pub optional_datetime : RowMap → String → Option DateTime
  optional_datetime row key = and_option (not_blank (lookup key row)) read_datetime

  unfoldable pub checkpoint_from_pg_row : RowMap → Option Checkpoint
  checkpoint_from_pg_row row = and_option (row_id row) (λ id. some (record {
    id = id;
    name = optional_string row "name";
    description = optional_string row "description";
    created_at = optional_datetime row "created_at";
    valid_from = optional_datetime row "valid_from";
    color = optional_string row "color";
    app_id = unwrap_or (optional_int row "app_id") 0;
    is_active = optional_bool row "is_active";
    timeline_id = optional_int row "timeline_id";
    duration = optional_int row "duration";
    sessions_count = optional_int row "sessions_count";
    last_updated = optional_datetime row "last_updated";
    activated_at = optional_datetime row "activated_at";
  }))

-- Arrays and objects inside a row are printed by serde_json.
module _ (print : Json → Option String) where
  abbrev pub json_value_to_string : Json → String
  json_value_to_string null = ""
  json_value_to_string (bool b) = if b then "true" else "false"
  json_value_to_string (number n) = show_i64 n
  json_value_to_string (other_number s) = s
  json_value_to_string (string s) = s
  json_value_to_string v = unwrap_or (print v) ""

  unfoldable pub row_map : Fields → RowMap
  row_map end = []
  row_map (field k v fs) = (k, json_value_to_string v) ∷ row_map fs

  abbrev pub as_row : Json → Option RowMap
  as_row (object fs) = some (row_map fs)
  as_row _ = none

  -- `convert_json_rows`: rows that are no objects, or do not convert, are left out.
  unfoldable pub convert_json_rows : {T : Type 0} → (RowMap → Option T) → List Json → List T
  convert_json_rows converter rows = filter_map (λ v. and_option (as_row v) converter) rows

  abbrev pub convert_to_apps : Calendar → List Json → List App
  unfolding convert_json_rows app_from_pg_row
  convert_to_apps cal = convert_json_rows (app_from_pg_row cal)

  abbrev pub convert_to_checkpoints : Calendar → List Json → List Checkpoint
  unfolding convert_json_rows checkpoint_from_pg_row
  convert_to_checkpoints cal = convert_json_rows (checkpoint_from_pg_row cal)

  abbrev pub convert_to_timeline : Calendar → List Json → List Timeline
  unfolding convert_json_rows timeline_from_pg_row
  convert_to_timeline cal = convert_json_rows (timeline_from_pg_row cal)
