-- ===== src/Entities.antt =====
-- The rows of the four tables (entities/*.rs). A date is its number of days since the first date
-- of the calendar, a time stamp its number of nanoseconds since the first instant.
use time_tracker.Common.{ℕ, String, Bool, Option}
use time_tracker.Common.Word.{I32}

abbrev pub Date : Type 0
Date = ℕ

abbrev pub DateTime : Type 0
DateTime = ℕ

pub record AppModel : Type 0 where
  pub id : I32
  pub duration : Option I32
  pub launches : Option I32
  pub longest_session : Option I32
  pub name : Option String
  pub product_name : Option String
  pub longest_session_on : Option Date

pub record TimelineModel : Type 0 where
  pub id : I32
  pub date : Date
  pub duration : Option I32
  pub app_id : I32
  pub checkpoint_id : Option I32

pub record CheckpointModel : Type 0 where
  pub id : I32
  pub name : String
  pub description : Option String
  pub created_at : Option DateTime
  pub valid_from : Option DateTime
  pub color : Option String
  pub app_id : I32
  pub is_active : Option Bool
  pub duration : Option I32
  pub sessions_count : Option I32
  pub last_updated : Option DateTime
  pub activated_at : Option DateTime

pub record AliasModel : Type 0 where
  pub id : I32
  pub process_name : String
  pub app_id : I32
