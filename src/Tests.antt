-- ===== src/Tests.antt =====
-- Small databases, process tables and servers, and the theorems applied to them.
mod Checkpoints
mod Trackers
mod Servers
mod Worlds
mod Requests
mod Events
mod Systems
use time_tracker.Common.{
  String, Bool, true, false, Option, none, some, List, [], ◌∷◌, Result, ok, err,
}
use time_tracker.Common.Word.{I32}
use time_tracker.Json.{Json, object, number, field, end, array}
use time_tracker.Entities.{AppModel, CheckpointModel}
use time_tracker.Store.{Table, Row, Db, checkpoints}
use time_tracker.Store.Codec.{Codec}

-- A checkpoint as its id alone, read back as a fresh row; enough to run the handlers.
abbrev pub checkpoint : I32 → Bool → CheckpointModel
checkpoint id on = record {
  id = id;
  name = "level";
  description = none;
  created_at = some 5;
  valid_from = some 5;
  color = none;
  app_id = 1;
  is_active = some on;
  duration = none;
  sessions_count = none;
  last_updated = some 5;
  activated_at = none;
}

abbrev pub app : I32 → String → AppModel
app id name = record {
  id = id;
  duration = some 10;
  launches = some 2;
  longest_session = some 7;
  name = some name;
  product_name = some name;
  longest_session_on = some 19000;
}

abbrev pub two_checkpoints : Db
two_checkpoints = record {
  apps = app 1 "quake" ∷ app 2 "doom" ∷ [];
  timeline = [];
  checkpoints = checkpoint 1 true ∷ checkpoint 2 false ∷ [];
  process_aliases = [];
}

abbrev pub silent : Codec
silent = record {
  encode = λ t r. err "not printed";
  decode = λ v. ok (checkpoint 1 true);
  read_apps = λ v. ok [];
  read_timeline = λ v. ok [];
}
