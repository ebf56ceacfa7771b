-- ===== src/CommandLine.antt =====
-- main.rs and args.rs: the url of the database in a build for PostgreSQL, and what the command line asks for.
pub mod Adding
use Prim.Native.String.{◌++◌ as ◌+++◌}
use text.Mathlib.TextLemmas.{append_assoc, nil-append}
use time_tracker.Common.{
  String, ◌≡◌, refl, inl, inr, Option, Option-cases, none, some, unwrap_or, Result, ok, err, List,
}
use time_tracker.Store.{Db}
use time_tracker.Store.Engine.{Engine}
use time_tracker.Store.Codec.{Codec}
use time_tracker.Registry.{Registry, Outcome, add_process, start}
use time_tracker.Common.{Bool, false, []}

pub record Postgres : Type 0 where
  pub user : String
  pub url : String
  pub password : Option String
  pub database : Option String

abbrev pub map_option : {A B : Type 0} → (A → B) → Option A → Option B
map_option f none = none
map_option f (some a) = some (f a)

abbrev pub and_field : {A B : Type 0} → Option A → (A → Option B) → Option B
and_field none f = none
and_field (some a) f = f a

-- The `match` on the credentials; `none` is the panic.
unfoldable pub credentials :
    Option String → Option String → Option String → Option String → Option (String × Option String)
credentials (some user) (some url) none none =
    some ("postgres://" +++ (user +++ ("@" +++ (url +++ ":5432"))), none)
credentials (some user) (some url) (some password) none =
    some ("postgres://" +++ (user +++ (":" +++ (password +++ ("@" +++ (url +++ ":5432"))))), none)
credentials (some user) (some url) none (some database) =
    some ("postgres://" +++ (user +++ ("@" +++ (url +++ ":5432"))), some database)
credentials (some user) (some url) (some password) (some database) = some (
  "postgres://" +++ (user +++ (":" +++ (password +++ ("@" +++ (url +++ ":5432"))))),
  some database,
)
credentials _ _ _ _ = none

abbrev pub with_database : String × Option String → String
with_database (base, some db) = base +++ ("/" +++ db)
with_database (base, none) = base +++ ("/" +++ "time_tracker")

unfoldable pub db_url : Option Postgres → Option String
unfolding credentials
db_url config = map_option with_database (
    credentials (map_option (λ p. p.user) config) (map_option (λ p. p.url) config)
      (and_field config (λ p. p.password)) (and_field config (λ p. p.database)))

-- One format for all cases.
abbrev pub url_of : Postgres → String
url_of p =
    ("postgres://"
      +++ (p.user
          +++ (elim p.password [ none ↦ "" | some password ↦ ":" +++ password ]
              +++ ("@" +++ (p.url +++ ":5432")))))
    +++ ("/" +++ unwrap_or p.database "time_tracker")

-- The url is built exactly if there is a section for the database, and each of its parts stands where it
-- belongs, whichever of the optional parts are given.
pub db_url_lem : (config : Option Postgres) → db_url config ≡ map_option url_of config
unfolding db_url credentials
db_url_lem none = refl
db_url_lem (some p) = elim (Option-cases p.password) [
  | inl q ↦ elim (Option-cases p.database) [
    | inl r ↦ rw (q, r, nil-append ("@" +++ (p.url +++ ":5432"))) refl
    | inr (database, r) ↦ rw (q, r, nil-append ("@" +++ (p.url +++ ":5432"))) refl
  ]
  | inr (password, q) ↦ elim (Option-cases p.database) [
    | inl r ↦ rw (q, r, append_assoc ":" password ("@" +++ (p.url +++ ":5432"))) refl
    | inr (database, r) ↦ rw (q, r, append_assoc ":" password ("@" +++ (p.url +++ ":5432"))) refl
  ]
]

-- The subcommand `add`.
pub record AddArgs : Type 0 where
  pub process_name : String
  pub path : String

pub data Startup : Type 0 where
  added : Outcome → Startup
  initialised : Result Registry → Startup

-- handle_client: with a subcommand one process is added, before any broadcaster is there, and without one
-- `init` runs. `ver_query_value` asks the operating system.
unfoldable pub handle_client :
    Engine → Codec → (String → Option String) → Db → Option AddArgs → Startup
handle_client e c ver_query_value db (some args) = added (
    add_process e c false args.process_name (ver_query_value args.path)
      (record { db = db; processes = [] }))
handle_client e c ver_query_value db none = initialised (start e db)
