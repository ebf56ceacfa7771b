-- ===== src/Handlers/Topics.antt =====
-- Which requests for topics are granted, and what they change.
use time_tracker.Common.{
  ℕ, String, ◌≡◌, refl, sym, ap, ◌∙◌, ◌⊎◌, inl, inr, Option, none, some, List, [], ◌∷◌, ◌++◌, map,
  str_eq, eq_iff, ok, err, Result-cases, Option-cases, Bool-cases, arith,
}
use time_tracker.Json.{
  to_list-of_list, Json, Fields, Items, nil, cons, null, bool, number, other_number, object, string,
  array, of_list, as_array, get, to_list,
}
use time_tracker.Websocket.{
  SubscriptionTopic, apps, timeline, tracking_status, topic_from_str, as_str as topic_name,
  subscribe, unsubscribe, Printer, ServerState,
}
use time_tracker.Handlers.{
  all_strings, items_strings, read_topics, parse_topics, choose_client, read_request,
  handle_subscribe, handle_unsubscribe,
}

some_path {ℓ} : {A : Type ℓ} {x y : A} → some x ≡ some y → x ≡ y
some_path h = cc

refuse : {x : List String} → none ≡ some x → ⊥
refuse h = cc

ok_path {ℓ} : {A : Type ℓ} {x y : A} → ok x ≡ ok y → x ≡ y
ok_path h = cc

-- A topic's name is read back as the topic.
topic_from_str-topic_name : (t : SubscriptionTopic) → topic_from_str (topic_name t) ≡ some t
unfolding topic_from_str
topic_from_str-topic_name apps = refl
topic_from_str-topic_name timeline = refl
topic_from_str-topic_name tracking_status = refl

parse_topics-names : (ts : List SubscriptionTopic) → parse_topics (map topic_name ts) ≡ ok ts
unfolding parse_topics
parse_topics-names [] = refl
parse_topics-names (t ∷ ts) = rw (topic_from_str-topic_name t, parse_topics-names ts) refl

all_strings-string : (ss : List String) → all_strings (map string ss) ≡ some ss
unfolding all_strings
all_strings-string [] = refl
all_strings-string (x ∷ ss) = rw (all_strings-string ss) refl

-- Only the three names are topics.
name_of_topic : (x : String) (t : SubscriptionTopic) → topic_from_str x ≡ some t → topic_name t ≡ x
unfolding topic_from_str
name_of_topic x t h = elim (Bool-cases (str_eq x "apps")) [
  | inl a ↦ ap topic_name (sym (some_path (rw a at h))) ∙ sym ((eq_iff x "apps").0 a)
  | inr a ↦ elim (Bool-cases (str_eq x "timeline")) [
    | inl b ↦ ap topic_name (sym (some_path (rw (a, b) at h))) ∙ sym ((eq_iff x "timeline").0 b)
    | inr b ↦ elim (Bool-cases (str_eq x "tracking_status")) [
      | inl c ↦
          ap topic_name (sym (some_path (rw (a, b, c) at h)))
          ∙ sym ((eq_iff x "tracking_status").0 c)
      | inr c ↦ absurd (ground (arith, a, b, c, h))
    ]
  ]
]

names_of_topics :
    (names : List String) (ts : List SubscriptionTopic)
    → parse_topics names ≡ ok ts
    → map topic_name ts ≡ names
unfolding parse_topics
names_of_topics [] ts h = rw (← ok_path h) refl
names_of_topics (x ∷ names) ts h = elim (Option-cases (topic_from_str x)) [
  | inl q ↦ absurd (ground (arith, q, h))
  | inr (t, q) ↦ elim (Result-cases (parse_topics names)) [
    | inr (y, p) ↦ absurd (ground (arith, q, p, h))
    | inl (rest, p) ↦
        let same : t ∷ rest ≡ ts = ok_path (rw (q, p) at h) in
        rw (← same, name_of_topic x t q, names_of_topics names rest p) refl
  ]
]

strings_inverse :
    (vs : List Json) (ss : List String) → all_strings vs ≡ some ss → vs ≡ map string ss
unfolding all_strings
strings_inverse [] ss h = rw (← some_path h) refl
strings_inverse (string x ∷ vs) ss h = elim (Option-cases (all_strings vs)) [
  | inl q ↦ absurd (ground (arith, q, h))
  | inr (rest, q) ↦
      let same : x ∷ rest ≡ ss = some_path (rw q at h) in
      rw (← same, strings_inverse vs rest q) refl
]
strings_inverse (null ∷ vs) ss h = absurd (refuse h)
strings_inverse (bool b ∷ vs) ss h = absurd (refuse h)
strings_inverse (number n ∷ vs) ss h = absurd (refuse h)
strings_inverse (other_number n ∷ vs) ss h = absurd (refuse h)
strings_inverse (array n ∷ vs) ss h = absurd (refuse h)
strings_inverse (object n ∷ vs) ss h = absurd (refuse h)

of_list-to_list : (vs : Items) → of_list (to_list vs) ≡ vs
of_list-to_list nil = refl
of_list-to_list (cons v vs) = ap (cons v) (of_list-to_list vs)

-- An array of texts.
abbrev pub strings : List String → Json
strings ss = array (of_list (map string ss))

array_inverse :
    (v : Json) (ss : List String) → items_strings (as_array v) ≡ some ss → v ≡ strings ss
array_inverse (array vs) ss h =
    ap array (sym (of_list-to_list vs) ∙ ap of_list (strings_inverse (to_list vs) ss h))
array_inverse null ss h = absurd (refuse h)
array_inverse (bool b) ss h = absurd (refuse h)
array_inverse (number n) ss h = absurd (refuse h)
array_inverse (other_number x) ss h = absurd (refuse h)
array_inverse (string x) ss h = absurd (refuse h)
array_inverse (object fs) ss h = absurd (refuse h)

apart : {A : Type 0} {x : String} {y : A} → err x ≡ ok y → ⊥
apart h = cc

-- The topics that a payload asks for.
abbrev pub Asks : Fields → List SubscriptionTopic → Type 0
Asks params ts = get params "topics" ≡ some (strings (map topic_name ts))

module _ (read_id : Json → Option ℕ) (id : ℕ) (params : Fields) where
  reads_topics :
      (ts : List SubscriptionTopic)
      → Asks params ts
      → read_request read_id (some id) params ≡ ok (id, ts)
  unfolding read_request read_topics choose_client
  reads_topics ts h =
      rw
        (
          h,
          to_list-of_list (map string (map topic_name ts)),
          all_strings-string (map topic_name ts),
          parse_topics-names ts,
        )
        refl

  -- A request is read exactly if the payload asks for topics by their names.
  read_request-cases :
      ((ts : List SubscriptionTopic) × Asks params ts
        × (read_request read_id (some id) params ≡ ok (id, ts)))
      ⊎ ((x : String) × (read_request read_id (some id) params ≡ err x)
          × ((ts : List SubscriptionTopic) → Asks params ts → ⊥))
  unfolding read_request read_topics choose_client
  read_request-cases = elim (Result-cases (read_request read_id (some id) params)) [
    | inr (x, q) ↦ inr (x, q, (λ ts h. apart (sym q ∙ reads_topics ts h)))
    | inl (r, q) ↦ elim (Option-cases (get params "topics")) [
      | inl g ↦ absurd (ground (arith, g, q))
      | inr (v, g) ↦ elim (Option-cases (items_strings (as_array v))) [
        | inl f ↦ absurd (ground (arith, g, f, q))
        | inr (ss, f) ↦ elim (Result-cases (parse_topics ss)) [
          | inr (y, p) ↦ absurd (ground (arith, g, f, p, q))
          | inl (ts, p) ↦
              let asked : Asks params ts =
                g
                ∙ ap some (array_inverse v ss f)
                ∙ ap (λ z. some (strings z)) (sym (names_of_topics ss ts p)) in
              inl (ts, asked, reads_topics ts asked)
        ]
      ]
    ]
  ]

pub handle_subscribe-Asks :
    (s : Printer) (read_id : Json → Option ℕ) (id : ℕ) (params : Fields)
    (ts : List SubscriptionTopic) (st : ServerState)
    → Asks params ts
    → (handle_subscribe s read_id (some id) params st).0
      ≡ record st { queue = st.queue ++ subscribe id ts ∷ [] }
unfolding handle_subscribe
handle_subscribe-Asks s read_id id params ts st asked =
    rw (reads_topics read_id id params ts asked) refl

-- A request from a connection, with any payload: if the payload's `topics` is an array of names of topics,
-- then one message with exactly these topics, under the connection's id, is put at the end of the
-- broadcast channel, and nothing else changes; for any other payload the answer is an error and
-- nothing changes. The same holds of both kinds of requests.
pub handle_subscribe_lem :
    (s : Printer) (read_id : Json → Option ℕ) (id : ℕ) (params : Fields) (st : ServerState)
    → ((ts : List SubscriptionTopic) × Asks params ts
        × ((handle_subscribe s read_id (some id) params st).0
            ≡ record st { queue = st.queue ++ subscribe id ts ∷ [] })
        × ((handle_unsubscribe s read_id (some id) params st).0
            ≡ record st { queue = st.queue ++ unsubscribe id ts ∷ [] }))
      ⊎ ((x : String) × ((ts : List SubscriptionTopic) → Asks params ts → ⊥)
          × (handle_subscribe s read_id (some id) params st ≡ (st, err x))
          × (handle_unsubscribe s read_id (some id) params st ≡ (st, err x)))
unfolding handle_subscribe handle_unsubscribe
handle_subscribe_lem s read_id id params st = elim (read_request-cases read_id id params) [
  | inl (ts, asked, q) ↦ inl (ts, asked, rw q refl, rw q refl)
  | inr (x, q, nothing) ↦ inr (x, nothing, rw q refl, rw q refl)
]
