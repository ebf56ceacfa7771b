-- ===== src/Websocket/Delivery.antt =====
-- What one turn of the broadcast loop, and the whole loop, do to each client.
use time_tracker.Common.{
  ℕ, String, ◌≡◌, refl, ◌∙◌, true, false, ◌==◌, Option, none, some, List, [], ◌∷◌, ◌++◌,
  if◌then◌else◌, append_nil, append_assoc, arith,
}
use time_tracker.Websocket.{
  SubscriptionTopic, apps, timeline, tracking_status, BroadcastMessage, tracking_status_update,
  apps_update, timeline_update, client_connected, client_disconnected, subscribe, unsubscribe,
  WebSocketClient, Printer, Clients, get_client, is_subscribed, apply_topics, handle_subscription,
  create_apps_message, create_timeline_message, create_tracking_status_message, handle_broadcast,
}
use time_tracker.Websocket.Clients.{
  IsKeyed, then_client, receive, broadcast_to_subscribers-get_client,
  broadcast_to_subscribers-IsKeyed, get_client-change_client, change_client-IsKeyed,
}

-- What a broadcast message does to one client.
abbrev pub turn_of : Printer → ℕ → BroadcastMessage → WebSocketClient → Option WebSocketClient
turn_of s id (tracking_status_update st) c =
    receive tracking_status (create_tracking_status_message s st) c
turn_of s id (apps_update l) c = receive apps (create_apps_message s l) c
turn_of s id (timeline_update rows) c = receive timeline (create_timeline_message s rows) c
turn_of s id (client_connected k) c = some c
turn_of s id (client_disconnected k) c = some c
turn_of s id (subscribe k topics) c =
    some
      (if k == id then record c { subscriptions = apply_topics true topics c.subscriptions } else c)
turn_of s id (unsubscribe k topics) c =
    some (
      if k == id then record c { subscriptions = apply_topics false topics c.subscriptions } else c)

then_client-some : (o : Option WebSocketClient) → o ≡ then_client o (λ c. some c)
then_client-some none = refl
then_client-some (some c) = refl

-- One turn of the broadcast loop, for every message and every client, with the clients held once
-- under their ids: a client that subscribed to the message's topic gets the text at the end of its
-- channel, and is removed if it hung up; a subscription changes the client that it names; nothing else
-- happens to any client, whatever the other clients are.
pub handle_broadcast-get_client :
    (s : Printer) (m : BroadcastMessage) (id : ℕ) (cs : Clients)
    → IsKeyed cs
    → (get_client id (handle_broadcast s m cs) ≡ then_client (get_client id cs) (turn_of s id m))
      × IsKeyed (handle_broadcast s m cs)
unfolding handle_broadcast handle_subscription
handle_broadcast-get_client s (tracking_status_update st) id cs h =
    let text = create_tracking_status_message s st in
    (
      broadcast_to_subscribers-get_client tracking_status text id cs h,
      broadcast_to_subscribers-IsKeyed tracking_status text cs h,
    )
handle_broadcast-get_client s (apps_update l) id cs h =
    let text = create_apps_message s l in
    (
      broadcast_to_subscribers-get_client apps text id cs h,
      broadcast_to_subscribers-IsKeyed apps text cs h,
    )
handle_broadcast-get_client s (timeline_update rows) id cs h =
    let text = create_timeline_message s rows in
    (
      broadcast_to_subscribers-get_client timeline text id cs h,
      broadcast_to_subscribers-IsKeyed timeline text cs h,
    )
handle_broadcast-get_client s (client_connected k) id cs h = (then_client-some _, h)
handle_broadcast-get_client s (client_disconnected k) id cs h = (then_client-some _, h)
handle_broadcast-get_client s (subscribe k topics) id cs h =
    (get_client-change_client k _ (λ c. refl) id cs, change_client-IsKeyed k _ (λ c. refl) cs h)
handle_broadcast-get_client s (unsubscribe k topics) id cs h =
    (get_client-change_client k _ (λ c. refl) id cs, change_client-IsKeyed k _ (λ c. refl) cs h)

-- The loop over the messages that came in.
abbrev pub handle_broadcasts : Printer → List BroadcastMessage → Clients → Clients
handle_broadcasts s [] cs = cs
handle_broadcasts s (m ∷ ms) cs = handle_broadcasts s ms (handle_broadcast s m cs)

-- The texts that a message adds to the channel of a client with these subscriptions.
abbrev pub text_under : SubscriptionTopic → Option String → List SubscriptionTopic → List String
text_under topic none subs = []
text_under topic (some text) subs = if is_subscribed topic subs then text ∷ [] else []

abbrev pub texts_of : Printer → BroadcastMessage → List SubscriptionTopic → List String
texts_of s (tracking_status_update st) =
    text_under tracking_status (create_tracking_status_message s st)
texts_of s (apps_update l) = text_under apps (create_apps_message s l)
texts_of s (timeline_update rows) = text_under timeline (create_timeline_message s rows)
texts_of s _ = λ subs. []

abbrev pub topics_of : ℕ → BroadcastMessage → List SubscriptionTopic → List SubscriptionTopic
topics_of id (subscribe k topics) subs = if k == id then apply_topics true topics subs else subs
topics_of id (unsubscribe k topics) subs = if k == id then apply_topics false topics subs else subs
topics_of id _ subs = subs

abbrev pub texts_run : Printer → ℕ → List BroadcastMessage → List SubscriptionTopic → List String
texts_run s id [] subs = []
texts_run s id (m ∷ ms) subs = texts_of s m subs ++ texts_run s id ms (topics_of id m subs)

abbrev pub topics_run : ℕ → List BroadcastMessage → List SubscriptionTopic → List SubscriptionTopic
topics_run id [] subs = subs
topics_run id (m ∷ ms) subs = topics_run id ms (topics_of id m subs)

receive_lem :
    (topic : SubscriptionTopic) (text : Option String) (c : WebSocketClient)
    → c.connected ≡ true
    → receive topic text c
      ≡ some (record c { inbox = c.inbox ++ text_under topic text c.subscriptions })
receive_lem topic none c live = rw (append_nil c.inbox) refl
receive_lem topic (some m) c live = ground (arith, append_nil c.inbox)

turn_of_lem :
    (s : Printer) (m : BroadcastMessage) (id : ℕ) (c : WebSocketClient)
    → c.connected ≡ true
    → turn_of s id m c
      ≡ some (record c {
        subscriptions = topics_of id m c.subscriptions;
        inbox = c.inbox ++ texts_of s m c.subscriptions;
      })
turn_of_lem s (tracking_status_update st) id c live = receive_lem tracking_status _ c live
turn_of_lem s (apps_update l) id c live = receive_lem apps _ c live
turn_of_lem s (timeline_update rows) id c live = receive_lem timeline _ c live
turn_of_lem s (client_connected k) id c live = rw (append_nil c.inbox) refl
turn_of_lem s (client_disconnected k) id c live = rw (append_nil c.inbox) refl
turn_of_lem s (subscribe k topics) id c live = ground (arith, append_nil c.inbox)
turn_of_lem s (unsubscribe k topics) id c live = ground (arith, append_nil c.inbox)

-- The whole broadcast loop, for a client that stays connected while the messages are handled, with
-- the clients held once under their ids: it is kept, and its channel has grown by exactly the texts of
-- those messages whose topic it was subscribed to when their turn came, in the order of the messages.
pub handle_broadcasts-get_client :
    (s : Printer) (ms : List BroadcastMessage) (id : ℕ) (cs : Clients) (c : WebSocketClient)
    → IsKeyed cs
    → get_client id cs ≡ some c
    → c.connected ≡ true
    → get_client id (handle_broadcasts s ms cs)
      ≡ some (record c {
        subscriptions = topics_run id ms c.subscriptions;
        inbox = c.inbox ++ texts_run s id ms c.subscriptions;
      })
handle_broadcasts-get_client s [] id cs c h q live = q ∙ rw (append_nil c.inbox) refl
handle_broadcasts-get_client s (m ∷ ms) id cs c h q live =
    let turn = handle_broadcast-get_client s m id cs h in
    let d : WebSocketClient = record c {
      subscriptions = topics_of id m c.subscriptions;
      inbox = c.inbox ++ texts_of s m c.subscriptions;
    } in
    let found = turn.0 ∙ rw q (turn_of_lem s m id c live) in
    handle_broadcasts-get_client s ms id (handle_broadcast s m cs) d turn.1 found live
    ∙ rw
        (append_assoc c.inbox (texts_of s m c.subscriptions)
          (texts_run s id ms (topics_of id m c.subscriptions)))
        refl
