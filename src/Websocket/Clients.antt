-- ===== src/Websocket/Clients.antt =====
-- The table of clients, and what a broadcast to the subscribers of a topic does to each of them.
use time_tracker.Common.{
  ℕ, String, ◌≡◌, refl, false, ◌==◌, ==_iff, Option, none, some, List, [], ◌∷◌, ◌++◌, is_empty, map,
  if◌then◌else◌, any, Bool-cases, Option-cases, inl, inr, arith,
}
use time_tracker.Websocket.{
  SubscriptionTopic, WebSocketClient, Clients, get_client, change_client, delete_client,
  is_subscribed, send_to, is_lost, delete_clients, lost_clients, broadcast_to_subscribers,
}

-- A client is held once, under its id.
abbrev pub IsKeyed : Clients → Type 0
IsKeyed [] = Unit
IsKeyed (c ∷ cs) = (get_client c.id cs ≡ none) × IsKeyed cs

abbrev pub then_client :
    Option WebSocketClient → (WebSocketClient → Option WebSocketClient) → Option WebSocketClient
then_client none f = none
then_client (some c) f = f c

-- What a text under a topic does to one client: a subscriber gets it, or is dropped if it hung up.
abbrev pub receive : SubscriptionTopic → Option String → WebSocketClient → Option WebSocketClient
receive topic none c = some c
receive topic (some message) c =
    if is_subscribed topic c.subscriptions
    then if c.connected then some (record c { inbox = c.inbox ++ message ∷ [] }) else none
    else some c

get_client-delete_client :
    (k id : ℕ) (cs : Clients)
    → IsKeyed cs
    → get_client id (delete_client k cs) ≡ (if k == id then none else get_client id cs)
unfolding get_client delete_client
get_client-delete_client k id [] h = ground arith
get_client-delete_client k id (c ∷ cs) h =
    ground
      (arith, get_client-delete_client k id cs h.1, ==_iff c.id k, ==_iff c.id id, ==_iff k id, h.0)

pub delete_client-IsKeyed : (k : ℕ) (cs : Clients) → IsKeyed cs → IsKeyed (delete_client k cs)
unfolding get_client delete_client
delete_client-IsKeyed k [] h = tt
delete_client-IsKeyed k (c ∷ cs) h =
    ground (arith, delete_client-IsKeyed k cs h.1, get_client-delete_client k c.id cs h.1)

get_client-delete_clients :
    (ids : List ℕ) (id : ℕ) (cs : Clients)
    → IsKeyed cs
    → get_client id (delete_clients ids cs)
      ≡ (if any (λ k. k == id) ids then none else get_client id cs)
get_client-delete_clients [] id cs h = refl
get_client-delete_clients (k ∷ ks) id cs h = ground (
  arith,
  get_client-delete_clients ks id (delete_client k cs) (delete_client-IsKeyed k cs h),
  get_client-delete_client k id cs h,
)

delete_clients-IsKeyed :
    (ids : List ℕ) (cs : Clients) → IsKeyed cs → IsKeyed (delete_clients ids cs)
delete_clients-IsKeyed [] cs h = h
delete_clients-IsKeyed (k ∷ ks) cs h =
    delete_clients-IsKeyed ks (delete_client k cs) (delete_client-IsKeyed k cs h)

module _ (topic : SubscriptionTopic) (message : String) where
  get_client-sent_none :
      (id : ℕ) (cs : Clients)
      → get_client id cs ≡ none
      → get_client id (map (send_to topic message) cs) ≡ none
  unfolding get_client
  get_client-sent_none id [] h = refl
  get_client-sent_none id (c ∷ cs) h = ground (arith, get_client-sent_none id cs)

  get_client-sent :
      (id : ℕ) (cs : Clients) (c : WebSocketClient)
      → get_client id cs ≡ some c
      → get_client id (map (send_to topic message) cs) ≡ some (send_to topic message c)
  unfolding get_client
  get_client-sent id [] d h = cc
  get_client-sent id (c ∷ cs) d h = elim (Bool-cases (c.id == id)) [
    | inl e ↦ ground (arith, e, rw e at h)
    | inr e ↦ ground (arith, e, get_client-sent id cs d (rw e at h))
  ]

  sent-IsKeyed : (cs : Clients) → IsKeyed cs → IsKeyed (map (send_to topic message) cs)
  sent-IsKeyed [] h = tt
  sent-IsKeyed (c ∷ cs) h = ground (arith, sent-IsKeyed cs h.1, get_client-sent_none c.id cs h.0)

  lost_none :
      (id : ℕ) (cs : Clients)
      → get_client id cs ≡ none
      → any (λ k. k == id) (lost_clients topic cs) ≡ false
  unfolding get_client
  lost_none id [] h = refl
  lost_none id (c ∷ cs) h = ground (arith, lost_none id cs)

  lost_lem :
      (id : ℕ) (cs : Clients) (c : WebSocketClient)
      → IsKeyed cs
      → get_client id cs ≡ some c
      → any (λ k. k == id) (lost_clients topic cs) ≡ is_lost topic c
  unfolding get_client
  lost_lem id [] d h f = cc
  lost_lem id (c ∷ cs) d h f = elim (Bool-cases (c.id == id)) [
    | inl e ↦ ground (arith, e, rw e at f, lost_none c.id cs h.0, (==_iff c.id id).0 e)
    | inr e ↦ ground (arith, e, lost_lem id cs d h.1 (rw e at f))
  ]

pub broadcast_to_subscribers-get_client :
    (topic : SubscriptionTopic) (text : Option String) (id : ℕ) (cs : Clients)
    → IsKeyed cs
    → get_client id (broadcast_to_subscribers topic text cs)
      ≡ then_client (get_client id cs) (receive topic text)
unfolding broadcast_to_subscribers
broadcast_to_subscribers-get_client topic none id cs h = elim (Option-cases (get_client id cs)) [
  | inl q ↦ rw q refl
  | inr (c, q) ↦ rw q refl
]
broadcast_to_subscribers-get_client topic (some m) id cs h =
    let sent = map (send_to topic m) cs in
    let dropped =
      get_client-delete_clients (lost_clients topic cs) id sent (sent-IsKeyed topic m cs h) in
    elim (Option-cases (get_client id cs)) [
      | inl q ↦ ground (arith, q, dropped, get_client-sent_none topic m id cs q)
      | inr (c, q) ↦
          ground
            (arith, q, dropped, get_client-sent topic m id cs c q, lost_lem topic m id cs c h q)
    ]

pub broadcast_to_subscribers-IsKeyed :
    (topic : SubscriptionTopic) (text : Option String) (cs : Clients)
    → IsKeyed cs
    → IsKeyed (broadcast_to_subscribers topic text cs)
unfolding broadcast_to_subscribers
broadcast_to_subscribers-IsKeyed topic none cs h = h
broadcast_to_subscribers-IsKeyed topic (some m) cs h =
    let k = sent-IsKeyed topic m cs h in
    elim (Bool-cases (is_empty (lost_clients topic cs))) [
      | inl e ↦ rw e k
      | inr e ↦ rw e (delete_clients-IsKeyed (lost_clients topic cs) _ k)
    ]

module _ (k : ℕ) (f : WebSocketClient → WebSocketClient)
    (same : (c : WebSocketClient) → (f c).id ≡ c.id) where
  pub get_client-change_client :
      (id : ℕ) (cs : Clients)
      → get_client id (change_client k f cs)
        ≡ then_client (get_client id cs) (λ c. some (if k == id then f c else c))
  unfolding get_client change_client
  get_client-change_client id [] = refl
  get_client-change_client id (c ∷ cs) =
      ground
        (arith, get_client-change_client id cs, same c, ==_iff c.id k, ==_iff c.id id, ==_iff k id)

  pub change_client-IsKeyed : (cs : Clients) → IsKeyed cs → IsKeyed (change_client k f cs)
  unfolding get_client change_client
  change_client-IsKeyed [] h = tt
  change_client-IsKeyed (c ∷ cs) h =
      ground (arith, change_client-IsKeyed cs h.1, same c, h.0, get_client-change_client c.id cs)
