-- ===== src/Store/Codec.antt =====
-- The `Serialize` and `Deserialize` that serde derives for the rows: a parameter.
use time_tracker.Common.{◌≡◌, Result, ok, err, List}
use time_tracker.Json.{Json, null}
use time_tracker.Structs.{App, Timeline}
use time_tracker.Store.{Table, Row, checkpoints}

pub record Codec : Type 0 where
  -- serde_json::to_value(row)
  pub encode : (t : Table) → Row t → Result Json
  -- serde_json::from_value::<checkpoints::Model>(value)
  pub decode : Json → Result (Row checkpoints)
  -- serde_json::from_value::<Vec<App>>(value), and for Vec<Timeline>
  pub read_apps : Json → Result (List App)
  pub read_timeline : Json → Result (List Timeline)

-- A checkpoint is written, and read back as it was.
pub record RoundTrips (c : Codec) : Type 0 where
  pub round :
      (r : Row checkpoints) → (v : Json) × (c.encode checkpoints r ≡ ok v) × (c.decode v ≡ ok r)

abbrev or_null : Result Json → Json
or_null (ok v) = v
or_null (err x) = null

-- model_to_json_with_context
unfoldable pub model_to_json : Codec → (t : Table) → Row t → Json
model_to_json c t r = or_null (c.encode t r)

-- `from_value` of what `model_to_json` wrote.
pub decode-model_to_json :
    (c : Codec)
    → RoundTrips c
    → (r : Row checkpoints) → c.decode (model_to_json c checkpoints r) ≡ ok r
unfolding model_to_json
decode-model_to_json c law r = let (v, e, d) = law.round r in rw e d
