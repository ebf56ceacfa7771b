-- ===== src/Websocket/Updates.antt =====
-- From a request to subscribe to the text in the client's channel.
use time_tracker.Common.{
  ℕ, zero, suc, String, ◌≡◌, refl, sym, ap, ◌∙◌, inl, inr, true, Bool-cases, ==_self, some, List,
  [], ◌∷◌, ◌++◌, length, append_assoc, arith,
}
use time_tracker.Structs.{App}
use time_tracker.Websocket.{
  SubscriptionTopic, apps, timeline, tracking_status, topic_eq, BroadcastMessage, apps_update,
  subscribe, WebSocketClient, Printer, Clients, get_client, ServerState, is_subscribed, add_topic,
  apply_topics, create_apps_message, handle_broadcast,
}
use time_tracker.Websocket.Clients.{IsKeyed}
use time_tracker.Websocket.Delivery.{
  handle_broadcasts, handle_broadcasts-get_client, texts_of, texts_run, topics_of, topics_run,
}
use time_tracker.Websocket.Server.{Turn, broadcasts, serve_all}

abbrev pub turns_of : ℕ → List Turn
turns_of zero = []
turns_of (suc n) = broadcasts ∷ turns_of n

drain_lem :
    (s : Printer) (queue : List BroadcastMessage) (st : ServerState)
    → st.queue ≡ queue
    → serve_all s (turns_of (length queue)) st
      ≡ record st { queue = []; clients = handle_broadcasts s queue st.clients }
drain_lem s [] st q = rw (sym q) refl
drain_lem s (m ∷ ms) st q =
    rw q (drain_lem s ms (record st { queue = ms; clients = handle_broadcast s m st.clients }) refl)

-- As many turns of the broadcast loop as there are messages in its channel empty the channel, and
-- handle each message once, in order.
pub serve_all-broadcasts :
    (s : Printer) (st : ServerState)
    → serve_all s (turns_of (length st.queue)) st
      ≡ record st { queue = []; clients = handle_broadcasts s st.queue st.clients }
serve_all-broadcasts s st = drain_lem s st.queue st refl

topics_run-append :
    (id : ℕ) (ms ns : List BroadcastMessage) (subs : List SubscriptionTopic)
    → topics_run id (ms ++ ns) subs ≡ topics_run id ns (topics_run id ms subs)
topics_run-append id [] ns subs = refl
topics_run-append id (m ∷ ms) ns subs = topics_run-append id ms ns (topics_of id m subs)

texts_run-append :
    (s : Printer) (id : ℕ) (ms ns : List BroadcastMessage) (subs : List SubscriptionTopic)
    → texts_run s id (ms ++ ns) subs
      ≡ texts_run s id ms subs ++ texts_run s id ns (topics_run id ms subs)
texts_run-append s id [] ns subs = refl
texts_run-append s id (m ∷ ms) ns subs = rw (texts_run-append s id ms ns (topics_of id m subs)) (
    sym (
      append_assoc (texts_of s m subs) (texts_run s id ms (topics_of id m subs))
        (texts_run s id ns (topics_run id ms (topics_of id m subs)))))

topic_eq-same : (t : SubscriptionTopic) → topic_eq t t ≡ true
topic_eq-same apps = refl
topic_eq-same timeline = refl
topic_eq-same tracking_status = refl

keeps_topic :
    (t u : SubscriptionTopic) (subs : List SubscriptionTopic)
    → is_subscribed t subs ≡ true
    → is_subscribed t (add_topic u subs) ≡ true
keeps_topic t u subs h = ground (arith, h)

adds_topic :
    (t u : SubscriptionTopic) (subs : List SubscriptionTopic)
    → topic_eq t u ≡ true
    → is_subscribed t (add_topic u subs) ≡ true
adds_topic apps apps subs h = ground arith
adds_topic timeline timeline subs h = ground arith
adds_topic tracking_status tracking_status subs h = ground arith
adds_topic apps timeline subs h = cc
adds_topic apps tracking_status subs h = cc
adds_topic timeline apps subs h = cc
adds_topic timeline tracking_status subs h = cc
adds_topic tracking_status apps subs h = cc
adds_topic tracking_status timeline subs h = cc

kept_topic :
    (t : SubscriptionTopic) (ts subs : List SubscriptionTopic)
    → is_subscribed t subs ≡ true
    → is_subscribed t (apply_topics true ts subs) ≡ true
kept_topic t [] subs h = h
kept_topic t (u ∷ ts) subs h = kept_topic t ts (add_topic u subs) (keeps_topic t u subs h)

subscribed :
    (t : SubscriptionTopic) (ts subs : List SubscriptionTopic)
    → is_subscribed t ts ≡ true
    → is_subscribed t (apply_topics true ts subs) ≡ true
subscribed t [] subs h = cc
subscribed t (u ∷ ts) subs h = elim (Bool-cases (topic_eq t u)) [
  | inl e ↦ kept_topic t ts (add_topic u subs) (adds_topic t u subs e)
  | inr e ↦ subscribed t ts (add_topic u subs) (rw e at h)
]

-- The texts of a client that subscribed before an update of the apps.
pub subscribe-apps_update :
    (s : Printer) (id : ℕ) (ts : List SubscriptionTopic) (l : List App) (text : String)
    (queue : List BroadcastMessage) (cs : Clients) (c : WebSocketClient)
    → IsKeyed cs
    → get_client id cs ≡ some c
    → c.connected ≡ true
    → is_subscribed apps ts ≡ true
    → create_apps_message s l ≡ some text
    → get_client id (handle_broadcasts s ((queue ++ subscribe id ts ∷ []) ++ apps_update l ∷ []) cs)
      ≡ some (record c {
        subscriptions = apply_topics true ts (topics_run id queue c.subscriptions);
        inbox = c.inbox ++ (texts_run s id queue c.subscriptions ++ text ∷ []);
      })
subscribe-apps_update s id ts l text queue cs c keyed found live asks printed =
    let last = subscribe id ts ∷ apps_update l ∷ [] in
    let subs = topics_run id queue c.subscriptions in
    handle_broadcasts-get_client s ((queue ++ subscribe id ts ∷ []) ++ apps_update l ∷ []) id cs c
      keyed found live
    ∙ rw
        (
          append_assoc queue (subscribe id ts ∷ []) (apps_update l ∷ []),
          topics_run-append id queue last c.subscriptions,
          texts_run-append s id queue last c.subscriptions,
          ==_self id,
        )
        (ap
          (λ texts. some (record c {
            subscriptions = apply_topics true ts subs;
            inbox = c.inbox ++ (texts_run s id queue c.subscriptions ++ texts);
          }))
          (rw (printed, subscribed apps ts subs asks) refl))
