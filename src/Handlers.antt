-- ===== src/Handlers.antt =====
-- websocket/handlers.rs: the requests to subscribe to topics and to leave them, from the parsed payload.
pub mod Topics
pub mod Updates
use Prim.Native.String.{◌++◌ as ◌+++◌}
use time_tracker.Common.{
  ℕ, String, Bool, true, false, Option, none, some, List, [], ◌∷◌, if◌then◌else◌, Result, ok, err,
  ok_or,
}
use time_tracker.Json.{Json, Fields, as_array, as_str, get}
use time_tracker.Messages
use time_tracker.Websocket.{
  SubscriptionTopic, topic_from_str, as_str as topic_name, Printer, ServerState, subscribe_client,
  unsubscribe_client, to_json,
}

abbrev pub and_result {ℓ κ} : {A : Type ℓ} {B : Type κ} → Result A → (A → Result B) → Result B
and_result (ok a) f = f a
and_result (err x) f = err x

-- `serde_json::from_value::<Vec<String>>`: an array, all of whose items are texts.
abbrev pub push_str : Option String → Option (List String) → Option (List String)
push_str (some s) (some rest) = some (s ∷ rest)
push_str _ _ = none

unfoldable pub all_strings : List Json → Option (List String)
all_strings [] = some []
all_strings (v ∷ vs) = push_str (as_str v) (all_strings vs)

abbrev pub items_strings : Option (List Json) → Option (List String)
items_strings none = none
items_strings (some vs) = all_strings vs

unfoldable pub read_topics : Fields → Result (List String)
read_topics params =
    and_result (ok_or (get params "topics") "Missing 'topics' parameter")
      (λ v. ok_or (items_strings (as_array v)) "Failed to parse topics array")

-- The `collect` into a `Result`: the first text that is no topic is the error.
abbrev pub read_topic : String → Result SubscriptionTopic
read_topic s = ok_or (topic_from_str s) ("Invalid subscription topic: " +++ s)

unfoldable pub parse_topics : List String → Result (List SubscriptionTopic)
parse_topics [] = ok []
parse_topics (s ∷ rest) =
    let later = parse_topics rest in
    and_result (read_topic s) (λ t. and_result later (λ ts. ok (t ∷ ts)))

-- The client that the connection names, or else the one that the payload names; `read_id` is
-- `serde_json::from_value::<u64>`.
unfoldable pub choose_client : (Json → Option ℕ) → Option ℕ → Fields → Result ℕ
choose_client read_id (some id) params = ok id
choose_client read_id none params =
    and_result
      (ok_or (get params "client_id") "Missing 'client_id' parameter and no client context")
      (λ v. ok_or (read_id v) "Failed to parse client_id")

-- `names.join(", ")`
unfoldable pub join_names : List SubscriptionTopic → String
join_names [] = ""
join_names (t ∷ []) = topic_name t
join_names (t ∷ u ∷ ts) = topic_name t +++ (", " +++ join_names (u ∷ ts))

-- The answer, printed. Of serde_json's own error the text is not modelled.
abbrev pub success_message : Printer → String → Result String
success_message s text =
    ok_or (to_json s (Messages.success_message text)) "Failed to serialize response"

-- What both requests read before they change anything.
unfoldable pub read_request :
    (Json → Option ℕ) → Option ℕ → Fields → Result (ℕ × List SubscriptionTopic)
unfolding read_topics choose_client
read_request read_id client_id params = and_result (read_topics params) (λ names.
    and_result (parse_topics names)
      (λ topics. and_result (choose_client read_id client_id params) (λ id. ok (id, topics))))

module _ (s : Printer) (read_id : Json → Option ℕ) where
  abbrev pub answer_subscribe :
      Result (ℕ × List SubscriptionTopic) → ServerState → ServerState × Result String
  answer_subscribe (err x) st = (st, err x)
  answer_subscribe (ok (id, topics)) st = (
    subscribe_client id topics st,
    success_message s ("Successfully subscribed to topics: " +++ join_names topics),
  )

  unfoldable pub handle_subscribe : Option ℕ → Fields → ServerState → ServerState × Result String
  unfolding read_request
  handle_subscribe client_id params st = answer_subscribe (read_request read_id client_id params) st

  abbrev pub answer_unsubscribe :
      Result (ℕ × List SubscriptionTopic) → ServerState → ServerState × Result String
  answer_unsubscribe (err x) st = (st, err x)
  answer_unsubscribe (ok (id, topics)) st = (
    unsubscribe_client id topics st,
    success_message s ("Successfully unsubscribed from topics: " +++ join_names topics),
  )

  unfoldable pub handle_unsubscribe : Option ℕ → Fields → ServerState → ServerState × Result String
  unfolding read_request
  handle_unsubscribe client_id params st =
      answer_unsubscribe (read_request read_id client_id params) st
