-- ===== src/Requests.antt =====
-- websocket/handlers.rs: how a request is read, and what its answer is made of.
pub mod Apps
pub mod Checkpoints
pub mod Reports
pub mod Dispatch
pub mod Quiet
pub mod Reading
pub mod Effects
pub mod Sound
pub mod Missing
pub mod Parameters
pub mod Listing
pub mod Finding
pub mod Reporting
pub mod Entries
pub mod Connection
use Prim.Native.String.{◌++◌ as ◌+++◌}
use time_tracker.Common.{
  ℕ, String, Option, none, some, List, [], map, if◌then◌else◌, str_eq, unwrap_or, Result, ok, err,
  ok_or,
}
use time_tracker.Common.Word.{I32}
use time_tracker.Json.{Json, Fields, end, get, as_array, as_str, as_i64, as_i32}
use time_tracker.Structs.{App}
use time_tracker.Entities.{Date, DateTime}
use time_tracker.Store.{Db}
use time_tracker.Store.Monad.{M}
use time_tracker.Store.Engine.{Engine}
use time_tracker.Store.Codec.{Codec}
use time_tracker.Messages.{WebSocketMessage}
use time_tracker.Websocket.{ServerState, Printer, to_json}
use time_tracker.Registry.{Registry}
use time_tracker.Rows.{Calendar, and_option}

pub record TimeTrackingConfig : Type 0 where
  pub tracking_delay_ms : ℕ
  pub check_delay_ms : ℕ

-- What a request can read and change: the database and the process map, the server, the delays.
pub record Service : Type 0 where
  pub registry : Registry
  pub server : ServerState
  pub config : TimeTrackingConfig

-- serde_json as a parser, and ver_query_value, which asks the operating system about a path.
pub record Reader : Type 0 where
  -- The tag and the payload of `serde_json::from_str::<WebSocketCommand>(text)`.
  pub read_tagged : String → Result (String × String)
  -- serde_json::from_str::<HashMap<String, Value>>(text)
  pub read_params : String → Result Fields
  -- serde_json::from_value::<u64>(value)
  pub read_id : Json → Option ℕ
  pub ver_query_value : String → Option String

-- The program around a request: the database, serde_json and chrono.
pub record World : Type 0 where
  pub engine : Engine
  pub codec : Codec
  pub calendar : Calendar
  pub printer : Printer
  pub reader : Reader

-- The readings of the clock while a request is answered. The statistics of an app read the day twice.
pub record Clock : Type 0 where
  pub earlier : DateTime
  pub now : DateTime
  pub cutoff_day : App → Date
  pub statistics_day : App → Date

abbrev pub S : Type 0 → Type 0
S A = Service → Service × Result A

abbrev pub and_then : {A B : Type 0} → (A → S B) → Service → Result A → Service × Result B
and_then f st (ok a) = f a st
and_then f st (err x) = (st, err x)

infixl 5 ◌>>=◌ ◌>>◌
unfoldable pub ◌>>=◌ : {A B : Type 0} → S A → (A → S B) → S B
◌>>=◌ m f st = and_then f (m st).0 (m st).1

abbrev pub ◌>>◌ : {A B : Type 0} → S A → S B → S B
m >> k = m >>= λ _. k

-- A value that is at hand, or the `?` of an error that is.
unfoldable pub lift : {A : Type 0} → Result A → S A
lift r st = (st, r)

abbrev pub pure : {A : Type 0} → A → S A
pure a = lift (ok a)

-- What only reads the service.
unfoldable pub asks : {A : Type 0} → (Service → Result A) → S A
asks f st = (st, f st)

-- A call whose error is looked at.
unfoldable pub settled : {A : Type 0} → S A → S (Result A)
settled m st = ((m st).0, ok (m st).1)

-- HandlerError, as it is displayed. A lock is never poisoned here, so `LockError` does not occur.
pub data HandlerError : Type 0 where
  lock_error missing_parameter serialization_error : String → HandlerError

abbrev pub display : HandlerError → String
display (lock_error msg) = "Lock acquisition failed: " +++ msg
display (missing_parameter param) = "Parameter '" +++ (param +++ "' is required")
display (serialization_error msg) = "Serialization failed: " +++ msg

-- `r.map_err(|e| format!("{}: {}", context, e))`
abbrev pub with_context : {A : Type 0} → String → Result A → Result A
with_context context (ok a) = ok a
with_context context (err x) = err (context +++ (": " +++ x))

abbrev parse_error : Result Fields → Result Fields
parse_error (ok fs) = ok fs
parse_error (err x) = err (display (serialization_error ("Failed to parse payload: " +++ x)))

unfoldable pub parse_payload : Reader → String → Result Fields
parse_payload reader payload =
    if str_eq payload "" then ok end else parse_error (reader.read_params payload)

abbrev pub string_param : Fields → String → Option String
string_param params key = and_option (get params key) as_str

-- `params.get(key).and_then(JsonValue::as_i64).map(|i| i as i32)`
abbrev pub i32_param : Fields → String → Option I32
i32_param params key =
    and_option (get params key) (λ v. and_option (as_i64 v) (λ n. some (as_i32 n)))

unfoldable pub extract_string_param : Fields → String → Result String
extract_string_param params key = ok_or (string_param params key) (display (missing_parameter key))

unfoldable pub extract_i32_param : Fields → String → Result I32
extract_i32_param params key = ok_or (i32_param params key) (display (missing_parameter key))

abbrev pub set_db : Db → Service → Service
set_db db st = record st { registry = record st.registry { db = db } }

-- call_db_method: an operation of the client, its error behind a text.
unfoldable pub call_db_method : {A : Type 0} → M A → String → S A
call_db_method operation context st =
    let done = operation st.registry.db in (set_db done.0 st, with_context context done.1)

-- `value.as_array().map(convert).unwrap_or_default()`
abbrev pub converted : {T : Type 0} → (List Json → List T) → Json → List T
converted convert value = unwrap_or (and_option (as_array value) (λ vs. some (convert vs))) []

-- `serde_json::to_string(x).context(text)`, and a message printed. Of serde_json's own errors the text
-- is not modelled.
abbrev pub printed : Option String → String → S String
printed json context = lift (ok_or json context)

abbrev pub respond : Printer → WebSocketMessage → S String
respond s message = lift (ok_or (to_json s message) "Failed to serialize response")
