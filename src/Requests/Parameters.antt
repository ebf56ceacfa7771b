-- ===== src/Requests/Parameters.antt =====
-- The parameters that requests require, and the errors for those that are missing.
use Prim.Native.String.{◌++◌ as ◌+++◌}
use time_tracker.Common.{ℕ, String, Option, none, some, List, [], ◌∷◌, Result}
use time_tracker.Json.{Json, Fields, as_array, get}
use time_tracker.Rows.{and_option, or_option}
use time_tracker.Messages.{
  WebSocketCommand, get_apps, get_timeline, get_app_by_name, add_process, delete_process,
  get_tracking_status, get_statistics, get_session_counts, get_checkpoints, create_checkpoint,
  set_active_checkpoint, delete_checkpoint, get_active_checkpoints, get_checkpoint_stats,
  update_config, subscribe, unsubscribe,
}
use time_tracker.Websocket.{topic_from_str}
use time_tracker.Handlers.{items_strings}
use time_tracker.Requests.{
  Reader, display, missing_parameter, parse_payload, string_param, i32_param,
}
use time_tracker.Requests.Checkpoints.{}
use time_tracker.Requests.Reports.{as_u64}

-- What a command cannot do without: a text, a whole number, a number of milliseconds, a list of topics, and
-- the id of a client.
pub data Parameter : Type 0 where
  text integer delay : String → Parameter
  topics client : Parameter

-- The id of the client is asked for only if the connection does not tell it.
abbrev pub client_unless : Option ℕ → List Parameter
client_unless none = client ∷ []
client_unless (some id) = []

-- The parameters of each command, in the order in which they are read.
abbrev pub required : Option ℕ → WebSocketCommand → List Parameter
required client_id (get_app_by_name payload) = text "name" ∷ []
required client_id (add_process payload) = text "process_name" ∷ text "path" ∷ []
required client_id (delete_process payload) = text "process_name" ∷ []
required client_id (create_checkpoint payload) = text "name" ∷ integer "app_id" ∷ []
required client_id (set_active_checkpoint payload) = integer "checkpoint_id" ∷ []
required client_id (delete_checkpoint payload) = integer "checkpoint_id" ∷ []
required client_id (get_checkpoint_stats payload) = integer "checkpoint_id" ∷ []
required client_id (update_config payload) = delay "tracking_delay_ms" ∷ delay "check_delay_ms" ∷ []
required client_id (subscribe payload) = topics ∷ client_unless client_id
required client_id (unsubscribe payload) = topics ∷ client_unless client_id
required client_id (get_apps payload) = []
required client_id (get_timeline payload) = []
required client_id (get_tracking_status payload) = []
required client_id (get_statistics payload) = []
required client_id (get_session_counts payload) = []
required client_id (get_checkpoints payload) = []
required client_id (get_active_checkpoints payload) = []

-- The payload as an object. An empty text counts as an empty object, but not for `UpdateConfig`.
abbrev pub payload_of : Reader → WebSocketCommand → Result Fields
payload_of reader (get_apps payload) = parse_payload reader payload
payload_of reader (get_timeline payload) = parse_payload reader payload
payload_of reader (get_app_by_name payload) = parse_payload reader payload
payload_of reader (add_process payload) = parse_payload reader payload
payload_of reader (delete_process payload) = parse_payload reader payload
payload_of reader (get_tracking_status payload) = parse_payload reader payload
payload_of reader (get_statistics payload) = parse_payload reader payload
payload_of reader (get_session_counts payload) = parse_payload reader payload
payload_of reader (get_checkpoints payload) = parse_payload reader payload
payload_of reader (create_checkpoint payload) = parse_payload reader payload
payload_of reader (set_active_checkpoint payload) = parse_payload reader payload
payload_of reader (delete_checkpoint payload) = parse_payload reader payload
payload_of reader (get_active_checkpoints payload) = parse_payload reader payload
payload_of reader (get_checkpoint_stats payload) = parse_payload reader payload
payload_of reader (update_config payload) = reader.read_params payload
payload_of reader (subscribe payload) = parse_payload reader payload
payload_of reader (unsubscribe payload) = parse_payload reader payload

-- The first text that is no topic.
abbrev pub unknown_topic : List String → Option String
unknown_topic [] = none
unknown_topic (s ∷ rest) = elim (topic_from_str s) [
  | none ↦ some ("Invalid subscription topic: " +++ s)
  | some t ↦ unknown_topic rest
]

module _ (read_id : Json → Option ℕ) (params : Fields) where
  -- The error for a parameter that is not there, or is of another type.
  abbrev pub problem : Parameter → Option String
  problem (text key) = elim (string_param params key) [
    | none ↦ some (display (missing_parameter key))
    | some v ↦ none
  ]
  problem (integer key) = elim (i32_param params key) [
    | none ↦ some (display (missing_parameter key))
    | some v ↦ none
  ]
  problem (delay key) = elim (and_option (get params key) as_u64) [
    | none ↦ some (key +++ " parameter is required")
    | some v ↦ none
  ]
  problem topics = elim (get params "topics") [
    | none ↦ some "Missing 'topics' parameter"
    | some v ↦ elim (items_strings (as_array v)) [
      | none ↦ some "Failed to parse topics array"
      | some names ↦ unknown_topic names
    ]
  ]
  problem client = elim (get params "client_id") [
    | none ↦ some "Missing 'client_id' parameter and no client context"
    | some v ↦ elim (read_id v) [ none ↦ some "Failed to parse client_id" | some id ↦ none ]
  ]

  abbrev pub first_problem : List Parameter → Option String
  first_problem [] = none
  first_problem (p ∷ rest) = or_option (problem p) (first_problem rest)
