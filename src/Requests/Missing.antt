-- ===== src/Requests/Missing.antt =====
-- Requests without one of their parameters.
use Prim.Native.String.{◌++◌ as ◌+++◌}
use time_tracker.Common.{
  ℕ, String, ◌≡◌, refl, ap, ◌∙◌, inl, inr, Option, Option-cases, none, some, List, [], ◌∷◌, ok, err,
  Result, Result-cases, ok_or,
}
use time_tracker.Json.{Json, Fields, as_array, get}
use time_tracker.Rows.{and_option}
use time_tracker.Messages.{
  WebSocketCommand, get_app_by_name, add_process, delete_process, create_checkpoint,
  set_active_checkpoint, delete_checkpoint, get_checkpoint_stats, update_config, subscribe,
  unsubscribe,
}
use time_tracker.Websocket.{topic_from_str}
use time_tracker.Handlers.{
  items_strings, read_topics, parse_topics, choose_client, read_request, handle_subscribe,
  handle_unsubscribe,
}
use time_tracker.Requests.{
  Service, World, Clock, S, ◌>>=◌, lift, extract_string_param, extract_i32_param, string_param,
  i32_param,
}
use time_tracker.Requests.Apps.{handle_get_app_by_name, handle_add_process, handle_delete_process}
use time_tracker.Requests.Checkpoints.{
  handle_create_checkpoint, handle_set_active_checkpoint, handle_delete_checkpoint,
  handle_get_checkpoint_stats,
}
use time_tracker.Requests.Reports.{as_u64, handle_update_config}
use time_tracker.Requests.Dispatch.{on_server, handle_command}
use time_tracker.Requests.Parameters.{
  Parameter, text, integer, delay, topics, client_unless, required, payload_of, unknown_topic,
  problem, first_problem,
}

abbrev error_of : {A : Type 0} → Result A → Option String
error_of (ok a) = none
error_of (err x) = some x

-- A request that stops before it has changed anything.
record Stops (m : S String) (x : String) : Type 0 where
  stops : (st : Service) → m st ≡ (st, err x)

some_path : {x y : String} → some x ≡ some y → x ≡ y
some_path h = cc

nothing : {x : String} {P : Type 0} → none ≡ some x → P
nothing h = cc

error_path : {A : Type 0} (r : Result A) {x : String} → error_of r ≡ some x → r ≡ err x
error_path (ok a) h = nothing h
error_path (err y) h = ap err (some_path h)

parse_topics-error : (names : List String) → error_of (parse_topics names) ≡ unknown_topic names
unfolding parse_topics
parse_topics-error [] = refl
parse_topics-error (s ∷ rest) = elim (Option-cases (topic_from_str s)) [
  | inl q ↦ rw (q, unknown_topic) refl
  | inr (t, q) ↦ elim (Result-cases (parse_topics rest)) [
    | inl (ts, p) ↦ rw (q, p, unknown_topic) (rw p at (parse_topics-error rest))
    | inr (x, p) ↦ rw (q, p, unknown_topic) (rw p at (parse_topics-error rest))
  ]
]

module _ (read_id : Json → Option ℕ) (params : Fields) where
  choose_client-error :
      (client_id : Option ℕ)
      → error_of (choose_client read_id client_id params)
        ≡ first_problem read_id params (client_unless client_id)
  unfolding choose_client
  choose_client-error (some id) = refl
  choose_client-error none = elim (Option-cases (get params "client_id")) [
    | inl q ↦ rw (q, first_problem, problem) refl
    | inr (v, q) ↦ elim (Option-cases (read_id v)) [
      | inl p ↦ rw (q, p, first_problem, problem) refl
      | inr (id, p) ↦ rw (q, p, first_problem, problem) refl
    ]
  ]

  read_request-error :
      (client_id : Option ℕ)
      → error_of (read_request read_id client_id params)
        ≡ first_problem read_id params (topics ∷ client_unless client_id)
  unfolding read_request read_topics
  read_request-error client_id = elim (Option-cases (get params "topics")) [
    | inl q ↦ rw (q, first_problem, problem) refl
    | inr (v, q) ↦ elim (Option-cases (items_strings (as_array v))) [
      | inl p ↦ rw (q, p, first_problem, problem) refl
      | inr (names, p) ↦ elim (Result-cases (parse_topics names)) [
        | inr (x, g) ↦ rw (q, p, g, first_problem, problem, ← parse_topics-error names, g) refl
        | inl (ts, g) ↦ elim (Result-cases (choose_client read_id client_id params)) [
          | inl (id, f) ↦
              rw
                (
                  q,
                  p,
                  g,
                  f,
                  first_problem,
                  problem,
                  ← parse_topics-error names,
                  g,
                  ← choose_client-error client_id,
                  f,
                )
                refl
          | inr (x, f) ↦
              rw
                (
                  q,
                  p,
                  g,
                  f,
                  first_problem,
                  problem,
                  ← parse_topics-error names,
                  g,
                  ← choose_client-error client_id,
                  f,
                )
                refl
        ]
      ]
    ]
  ]

  -- A parameter is read: if it is missing the request stops, and else the rest stops.
  needs :
      {A : Type 0} (p : Parameter) (rest : List Parameter) (r : Result A) (f : A → S String)
      {x : String}
      → error_of r ≡ problem read_id params p
      → first_problem read_id params (p ∷ rest) ≡ some x
      → ((v : A) → first_problem read_id params rest ≡ some x → Stops (f v) x)
      → Stops (lift r >>= f) x
  unfolding ◌>>=◌ lift
  needs p rest r f same h next = elim (Result-cases r) [
    | inl (v, q) ↦ record {
      stops = λ st. rw q ((next v (rw (first_problem, ← same, q) at h)).stops st);
    }
    | inr (y, q) ↦ record {
      stops = λ st. rw (q, some_path (rw (first_problem, ← same, q) at h)) refl;
    }
  ]

  needs-text :
      (key : String) (rest : List Parameter) (f : String → S String) {x : String}
      → first_problem read_id params (text key ∷ rest) ≡ some x
      → ((v : String) → first_problem read_id params rest ≡ some x → Stops (f v) x)
      → Stops (lift (extract_string_param params key) >>= f) x
  unfolding extract_string_param
  needs-text key rest f h next =
      needs (text key) rest (extract_string_param params key) f
        (elim (Option-cases (string_param params key)) [
          | inl q ↦ rw (q, problem) refl
          | inr (v, q) ↦ rw (q, problem) refl
        ])
        h next

  needs-integer :
      (key : String) (rest : List Parameter) (f : ℕ → S String) {x : String}
      → first_problem read_id params (integer key ∷ rest) ≡ some x
      → ((v : ℕ) → first_problem read_id params rest ≡ some x → Stops (f v) x)
      → Stops (lift (extract_i32_param params key) >>= f) x
  unfolding extract_i32_param
  needs-integer key rest f h next =
      needs (integer key) rest (extract_i32_param params key) f
        (elim (Option-cases (i32_param params key)) [
          | inl q ↦ rw (q, problem) refl
          | inr (v, q) ↦ rw (q, problem) refl
        ])
        h next

  needs-delay :
      (key : String) (rest : List Parameter) (f : ℕ → S String) {x : String}
      → first_problem read_id params (delay key ∷ rest) ≡ some x
      → ((v : ℕ) → first_problem read_id params rest ≡ some x → Stops (f v) x)
      → Stops
          (lift (ok_or (and_option (get params key) as_u64) (key +++ " parameter is required"))
            >>= f)
          x
  needs-delay key rest f h next =
      needs (delay key) rest _ f
        (elim (Option-cases (and_option (get params key) as_u64)) [
          | inl q ↦ rw (q, problem) refl
          | inr (v, q) ↦ rw (q, problem) refl
        ])
        h next

after_parse :
    (r : Result Fields) (params : Fields) (x : String) (f : Fields → S String)
    → r ≡ ok params
    → Stops (f params) x
    → Stops (lift r >>= f) x
unfolding ◌>>=◌ lift
after_parse r params x f q next = record { stops = λ st. rw q (next.stops st) }

module _ (w : World) (clock : Clock) (client_id : Option ℕ) (params : Fields) (x : String) where
  subscribe-Stops :
      first_problem w.reader.read_id params (topics ∷ client_unless client_id) ≡ some x
      → Stops (on_server (handle_subscribe w.printer w.reader.read_id client_id params)) x
  unfolding on_server handle_subscribe
  subscribe-Stops h = record {
    stops = λ st. rw (error_path _ (read_request-error w.reader.read_id params client_id ∙ h)) refl;
  }

  unsubscribe-Stops :
      first_problem w.reader.read_id params (topics ∷ client_unless client_id) ≡ some x
      → Stops (on_server (handle_unsubscribe w.printer w.reader.read_id client_id params)) x
  unfolding on_server handle_unsubscribe
  unsubscribe-Stops h = record {
    stops = λ st. rw (error_path _ (read_request-error w.reader.read_id params client_id ∙ h)) refl;
  }

  handle_command-Stops :
      (command : WebSocketCommand)
      → payload_of w.reader command ≡ ok params
      → first_problem w.reader.read_id params (required client_id command) ≡ some x
      → Stops (handle_command w clock client_id command) x
  unfolding handle_command handle_get_app_by_name handle_add_process handle_delete_process
      handle_create_checkpoint handle_set_active_checkpoint handle_delete_checkpoint
      handle_get_checkpoint_stats handle_update_config
  handle_command-Stops (get_app_by_name payload) q h =
      after_parse _ params x _ q
        (needs-text w.reader.read_id params "name" [] _ h (λ v none'. nothing none'))
  handle_command-Stops (add_process payload) q h = after_parse _ params x _ q (
      needs-text w.reader.read_id params "process_name" (text "path" ∷ []) _ h
        (λ v h'. needs-text w.reader.read_id params "path" [] _ h' (λ u none'. nothing none')))
  handle_command-Stops (delete_process payload) q h =
      after_parse _ params x _ q
        (needs-text w.reader.read_id params "process_name" [] _ h (λ v none'. nothing none'))
  handle_command-Stops (create_checkpoint payload) q h = after_parse _ params x _ q (
      needs-text w.reader.read_id params "name" (integer "app_id" ∷ []) _ h
        (λ v h'. needs-integer w.reader.read_id params "app_id" [] _ h' (λ u none'. nothing none')))
  handle_command-Stops (set_active_checkpoint payload) q h =
      after_parse _ params x _ q
        (needs-integer w.reader.read_id params "checkpoint_id" [] _ h (λ v none'. nothing none'))
  handle_command-Stops (delete_checkpoint payload) q h =
      after_parse _ params x _ q
        (needs-integer w.reader.read_id params "checkpoint_id" [] _ h (λ v none'. nothing none'))
  handle_command-Stops (get_checkpoint_stats payload) q h =
      after_parse _ params x _ q
        (needs-integer w.reader.read_id params "checkpoint_id" [] _ h (λ v none'. nothing none'))
  handle_command-Stops (update_config payload) q h = after_parse _ params x _ q (
      needs-delay w.reader.read_id params "tracking_delay_ms" (delay "check_delay_ms" ∷ []) _ h
        (λ v h'.
          needs-delay w.reader.read_id params "check_delay_ms" [] _ h' (λ u none'. nothing none')))
  handle_command-Stops (subscribe payload) q h = after_parse _ params x _ q (subscribe-Stops h)
  handle_command-Stops (unsubscribe payload) q h = after_parse _ params x _ q (unsubscribe-Stops h)
  handle_command-Stops command q h = nothing h

  -- A command whose payload is an object without one of the command's required parameters, or with a
  -- value of another type for it, or with a text among its topics that names none: the answer is the
  -- error for the first such parameter, and nothing changes. The commands that answer with all rows
  -- of a table, the tracking status or the statistics require no parameter.
  pub handle_command-missing :
      (command : WebSocketCommand) (st : Service)
      → payload_of w.reader command ≡ ok params
      → first_problem w.reader.read_id params (required client_id command) ≡ some x
      → handle_command w clock client_id command st ≡ (st, err x)
  handle_command-missing command st q h = (handle_command-Stops command q h).stops st
