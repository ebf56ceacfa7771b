-- ===== src/Structs.antt =====
-- The values that the program sends to its clients (structs.rs).
use time_tracker.Common.{String, Bool, Option, List}
use time_tracker.Common.Word.{I32}
use time_tracker.Entities.{Date, DateTime}

pub record App : Type 0 where
  pub id : I32
  pub duration : Option I32
  pub launches : Option I32
  pub longest_session : Option I32
  pub name : Option String
  pub product_name : Option String
  pub longest_session_on : Option Date

pub record Timeline : Type 0 where
  pub id : I32
  pub date : Option Date
  pub duration : Option I32
  pub app_id : Option I32

pub record Checkpoint : Type 0 where
  pub id : I32
  pub name : Option String
  pub description : Option String
  pub created_at : Option DateTime
  pub valid_from : Option DateTime
  pub color : Option String
  pub app_id : I32
  pub is_active : Option Bool
  pub timeline_id : Option I32
  pub duration : Option I32
  pub sessions_count : Option I32
  pub last_updated : Option DateTime
  pub activated_at : Option DateTime

pub record TrackingStatus : Type 0 where
  pub is_tracking : Bool
  pub is_paused : Bool
  pub current_app : Option String
  pub current_session_duration : I32
  pub session_start_time : Option String
  pub active_checkpoint_ids : List I32

pub record SessionCount : Type 0 where
  pub app_id : I32
  pub session_count : I32

-- `total as f64 / sessions as f64`, which the two numbers determine, or `0.0`.
pub data Average : Type 0 where
  nothing : Average
  ratio : I32 → I32 → Average

pub record AppStatistics : Type 0 where
  pub app : App
  pub total_duration : I32
  pub today_duration : I32
  pub week_duration : I32
  pub month_duration : I32
  pub average_session_length : Average
  pub recent_sessions : List Timeline
