-- ===== src/Tests/Worlds.antt =====
-- A small world: the database in memory, the derived serialization, and dates as tallies.

use time_tracker.Common.{
  ℕ, zero, suc, String, List, ◌≡◌, refl, ap, Bool, true, false, Option, none, some, [], ◌∷◌, inl,
  inr, Result, ok, err, str_eq, eq_iff, Bool-cases, if◌then◌else◌, arith,
}
use time_tracker.Json.{
  Json, Fields, object, string, number, bool, array, null, of_list, to_list, field, end,
}
use time_tracker.Entities.{CheckpointModel}
use time_tracker.Store.{Table, Row, apps, timeline, checkpoints, process_aliases}
use time_tracker.Store.Memory.{memory, memory-Lawful, memory-Reliable}
use time_tracker.Store.Codec.{Codec, RoundTrips}
use time_tracker.Rows.{Calendar, is_blank}
use time_tracker.Rows.Shown.{Reads, app_fields, timeline_fields, checkpoint_fields}
use time_tracker.Websocket.{new_server}
use time_tracker.Requests.{Service, World, Reader, Clock}
use time_tracker.Requests.Listing.{HasWords, IsUsual}
use time_tracker.Tests.{two_checkpoints}
use time_tracker.Tests.Checkpoints.{at_start}
use time_tracker.Tests.Servers.{printer}

abbrev tally : ℕ → String
tally zero = String.◌∷◌ "i" String.[]
tally (suc n) = String.◌∷◌ "i" (tally n)

abbrev next : Option ℕ → Option ℕ
next none = none
next (some n) = some (suc n)

-- The length of a text that is not empty, less one.
abbrev read_tally : String → Option ℕ
read_tally String.[] = none
read_tally (String.◌∷◌ c s) = if is_blank s then some 0 else next (read_tally s)

abbrev starts : String → Bool
starts String.[] = false
starts (String.◌∷◌ c s) = true

starts_full : (s : String) → starts s ≡ true → is_blank s ≡ false
starts_full s h = elim (Bool-cases (is_blank s)) [
  | inl e ↦
      let nothing : starts s ≡ false = ap starts ((eq_iff s "").0 e) in
      absurd (ground (arith, nothing, h))
  | inr e ↦ e
]

tally_full : (n : ℕ) → is_blank (tally n) ≡ false
tally_full zero = refl
tally_full (suc n) = starts_full (tally (suc n)) refl

read_tally-tally : (n : ℕ) → read_tally (tally n) ≡ some n
read_tally-tally zero = refl
read_tally-tally (suc n) = rw (tally_full n, read_tally-tally n) refl

abbrev pub calendar : Calendar
calendar = record {
  show_date = tally;
  show_datetime = tally;
  read_date = read_tally;
  parse_date = λ format s. read_tally s;
  parse_datetime = λ format s. if str_eq format "%Y-%m-%dT%H:%M:%S%.f" then read_tally s else none;
}

calendar-Reads : Reads calendar
calendar-Reads = record {
  date_printed = tally_full;
  date_read = read_tally-tally;
  date_parsed = read_tally-tally;
  time_printed = tally_full;
  spaced = λ t. refl;
  spaced_whole = λ t. refl;
  time_parsed = read_tally-tally;
}

abbrev encode : (t : Table) → Row t → Result Json
encode apps r = ok (object (app_fields calendar r))
encode timeline r = ok (object (timeline_fields calendar r))
encode checkpoints r = ok (object (checkpoint_fields calendar r))
encode process_aliases r = ok (object end)

abbrev pub codec : Codec
codec = record {
  encode = encode;
  decode = λ v. err "not read";
  read_apps = λ v. ok [];
  read_timeline = λ v. ok [];
}

abbrev pub quake_params : Fields
quake_params = field "name" (string "quake") (
    field "process_name" (string "tetris") (
      field "path" (string "/games/tetris")
        (field "checkpoint_id" (number 2) (field "is_active" (bool true) end))))

abbrev pub reader : Reader
reader = record {
  read_tagged = λ text. ok (text, "payload");
  read_params = λ text. if str_eq text "payload" then ok quake_params else err "no object";
  read_id = λ v. none;
  ver_query_value = λ path. none;
}

abbrev pub world : World
world = record {
  engine = memory;
  codec = codec;
  calendar = calendar;
  printer = printer;
  reader = reader;
}

abbrev pub clock : Clock
clock = record { earlier = 100; now = 101; cutoff_day = λ a. 19000; statistics_day = λ a. 19000 }

abbrev pub service : Service
service = record {
  registry = at_start;
  server = new_server;
  config = record { tracking_delay_ms = 60000; check_delay_ms = 10000 };
}

two_checkpoints-HasWords : HasWords two_checkpoints
two_checkpoints-HasWords = (
  (λ r m. elim m [
    | inl e ↦ rw e (omega arith, omega arith, omega arith, omega arith)
    | inr (inl e) ↦ rw e (omega arith, omega arith, omega arith, omega arith)
    | inr (inr e) ↦ absurd e
  ]),
  (λ r m. elim m [
    | inl e ↦ rw e (omega arith, omega arith, tt, tt)
    | inr (inl e) ↦ rw e (omega arith, omega arith, tt, tt)
    | inr (inr e) ↦ absurd e
  ]),
  (λ r m. absurd m),
)

pub world-IsUsual : IsUsual world two_checkpoints
world-IsUsual = record {
  law = memory-Lawful;
  sure = memory-Reliable;
  reads = calendar-Reads;
  derived = record {
    app_encoded = λ r. refl;
    timeline_encoded = λ r. refl;
    checkpoint_encoded = λ r. refl;
  };
  words = two_checkpoints-HasWords;
}

-- A serialization that reads checkpoints back as they were: the columns, in order.
abbrev raw_number : Option ℕ → Json
raw_number none = null
raw_number (some n) = number n

abbrev raw_text : Option String → Json
raw_text none = null
raw_text (some s) = string s

abbrev raw_bool : Option Bool → Json
raw_bool none = null
raw_bool (some b) = bool b

abbrev read_number : Json → Option ℕ
read_number (number n) = some n
read_number _ = none

abbrev read_text : Json → Option String
read_text (string s) = some s
read_text _ = none

abbrev read_bool : Json → Option Bool
read_bool (bool b) = some b
read_bool _ = none

read_number-raw_number : (o : Option ℕ) → read_number (raw_number o) ≡ o
read_number-raw_number none = refl
read_number-raw_number (some n) = refl

read_text-raw_text : (o : Option String) → read_text (raw_text o) ≡ o
read_text-raw_text none = refl
read_text-raw_text (some n) = refl

read_bool-raw_bool : (o : Option Bool) → read_bool (raw_bool o) ≡ o
read_bool-raw_bool none = refl
read_bool-raw_bool (some n) = refl

abbrev raw_columns : CheckpointModel → List Json
raw_columns r =
    number r.id
    ∷ string r.name
    ∷ raw_text r.description
    ∷ raw_number r.created_at
    ∷ raw_number r.valid_from
    ∷ raw_text r.color
    ∷ number r.app_id
    ∷ raw_bool r.is_active
    ∷ raw_number r.duration
    ∷ raw_number r.sessions_count
    ∷ raw_number r.last_updated
    ∷ raw_number r.activated_at
    ∷ []

abbrev read_columns : List Json → Result CheckpointModel
read_columns (number id ∷ string name ∷ d ∷ c ∷ v ∷ col ∷ number app_id ∷ a ∷ n ∷ k ∷ l ∷ t ∷ []) =
    ok (record {
      id = id;
      name = name;
      description = read_text d;
      created_at = read_number c;
      valid_from = read_number v;
      color = read_text col;
      app_id = app_id;
      is_active = read_bool a;
      duration = read_number n;
      sessions_count = read_number k;
      last_updated = read_number l;
      activated_at = read_number t;
    })
read_columns _ = err "not a checkpoint"

abbrev read_row : Json → Result CheckpointModel
read_row (array vs) = read_columns (to_list vs)
read_row _ = err "not a checkpoint"

abbrev raw_encode : (t : Table) → Row t → Result Json
raw_encode checkpoints r = ok (array (of_list (raw_columns r)))
raw_encode t r = err "not printed"

abbrev pub raw : Codec
raw = record {
  encode = raw_encode;
  decode = read_row;
  read_apps = λ v. ok [];
  read_timeline = λ v. ok [];
}

pub raw-RoundTrips : RoundTrips raw
raw-RoundTrips = record {
  round = λ r. (
    array (of_list (raw_columns r)),
    refl,
    λ i. ok (record {
      id = r.id;
      name = r.name;
      description = read_text-raw_text r.description i;
      created_at = read_number-raw_number r.created_at i;
      valid_from = read_number-raw_number r.valid_from i;
      color = read_text-raw_text r.color i;
      app_id = r.app_id;
      is_active = read_bool-raw_bool r.is_active i;
      duration = read_number-raw_number r.duration i;
      sessions_count = read_number-raw_number r.sessions_count i;
      last_updated = read_number-raw_number r.last_updated i;
      activated_at = read_number-raw_number r.activated_at i;
    }),
  );
}
