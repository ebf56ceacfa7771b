-- ===== src/Requests/Sound.antt =====
-- The invariants of the program under every sequence of messages.

use time_tracker.Common.{
  ℕ, String, ◌≡◌, refl, sym, subst, inl, inr, true, Option, List, [], ◌∷◌, Result, Result-cases,
}
use time_tracker.Store.Engine.{Lawful}
use time_tracker.Store.Monad.{M}
use time_tracker.OneActive.{IsConsistent}
use time_tracker.OneActive.Keeps.{Keeps}
use time_tracker.OneActive.Commands.{
  run-IsConsistent, step, run, creates, sets, deletes, adds_app, deletes_app,
}
use time_tracker.Registry.{Registry, Outcome, add_process, delete_process}
use time_tracker.Registry.Names.{IsRegistered}
use time_tracker.Registry.Consistent.{add_process-IsRegistered, delete_process-IsRegistered}
use time_tracker.Websocket.{ServerState}
use time_tracker.Websocket.Clients.{IsKeyed}
use time_tracker.Messages
use time_tracker.Messages.{WebSocketCommand, command_of}
use time_tracker.Requests.{Service, World, Clock, S, ◌>>=◌, lift, call_db_method}
use time_tracker.Requests.Apps.{change_registry, handle_add_process, handle_delete_process}
use time_tracker.Requests.Checkpoints.{
  handle_create_checkpoint, handle_set_active_checkpoint, handle_delete_checkpoint,
}
use time_tracker.Requests.Reports.{set_config, handle_update_config}
use time_tracker.Requests.Dispatch.{on_server, handle_command, handle_message}
use time_tracker.Requests.Quiet.{Quiet, Quiet-lift, list_created-Quiet}
use time_tracker.Requests.Reading.{handle_command-Quiet}
use time_tracker.Requests.Effects.{
  SameApps, create_checkpoint-apps, delete_checkpoint-apps, set_checkpoint_active-apps,
  add_process-db, delete_process-db, deliver-clients, handle_subscribe-clients,
  handle_unsubscribe-clients,
}

-- No app has two active checkpoints, and no two checkpoints the same id; each process of the map is
-- the name of an app, and no two apps have the same name; no two clients have the same id.
pub record IsSound (st : Service) : Type 0 where
  pub consistent : IsConsistent st.registry.db.checkpoints
  pub registered : IsRegistered st.registry
  pub keyed : IsKeyed st.server.clients

record Safe {A : Type 0} (m : S A) : Type 0 where
  safe : (st : Service) → IsSound st → IsSound (m st).0

Safe-bind :
    {A B : Type 0} {m : S A} {f : A → S B} → Safe m → ((a : A) → Safe (f a)) → Safe (m >>= f)
unfolding ◌>>=◌
Safe-bind {m = m} km kf = record {
  safe = λ st v. elim (Result-cases (m st).1) [
    | inl (a, h) ↦ rw h ((kf a).safe (m st).0 (km.safe st v))
    | inr (x, h) ↦ rw h (km.safe st v)
  ];
}

Safe-Quiet : {A : Type 0} {m : S A} → Quiet m → Safe m
Safe-Quiet quiet = record { safe = λ st v. subst IsSound (sym (quiet.same st)) v }

Safe-lift : {A : Type 0} (r : Result A) → Safe (lift r)
Safe-lift r = Safe-Quiet (Quiet-lift r)

Safe-call :
    {A : Type 0} (m : M A) (context : String)
    → Keeps m
    → SameApps m
    → Safe (call_db_method m context)
unfolding call_db_method
Safe-call m context keeps same = record {
  safe = λ st v. record {
    consistent = keeps st.registry.db v.consistent;
    registered = record {
      named = λ p entry h. rw (same st.registry.db) (v.registered.named p entry h);
      unique = rw (same st.registry.db) v.registered.unique;
    };
    keyed = v.keyed;
  };
}

Safe-change :
    (change : Registry → Outcome) (context : String)
    → ((g : Registry) → IsRegistered g → IsRegistered (change g).registry)
    → ((g : Registry)
        → IsConsistent g.db.checkpoints
        → IsConsistent (change g).registry.db.checkpoints)
    → Safe (change_registry change context)
unfolding change_registry
Safe-change change context registered consistent = record {
  safe = λ st v. record {
    consistent = consistent st.registry v.consistent;
    registered = registered st.registry v.registered;
    keyed = subst IsKeyed (sym (deliver-clients (change st.registry).sent st.server)) v.keyed;
  };
}

Safe-on_server :
    (f : ServerState → ServerState × Result String)
    → ((s : ServerState) → (f s).0.clients ≡ s.clients)
    → Safe (on_server f)
unfolding on_server
Safe-on_server f same = record {
  safe = λ st v. record {
    consistent = v.consistent;
    registered = v.registered;
    keyed = subst IsKeyed (sym (same st.server)) v.keyed;
  };
}

module _ (w : World) (law : Lawful w.engine) (clock : Clock) where
  handle_add_process-Safe : (payload : String) → Safe (handle_add_process w payload)
  unfolding handle_add_process step run
  handle_add_process-Safe payload = Safe-bind (Safe-lift _) (λ params.
      Safe-bind (Safe-lift _) (λ name. Safe-bind (Safe-lift _) (λ path.
        let product = w.reader.ver_query_value path in
        Safe-bind
          (Safe-change (add_process w.engine w.codec true name product) _
            (add_process-IsRegistered w.engine w.codec law true name product)
            (λ g v.
              add_process-db w.engine w.codec (λ db. IsConsistent db.checkpoints) true name product
                g v (run-IsConsistent w.engine w.codec law (adds_app name _ ∷ []) g.db v)))
          (λ u. Safe-lift _))))

  handle_delete_process-Safe : (payload : String) → Safe (handle_delete_process w payload)
  unfolding handle_delete_process step run
  handle_delete_process-Safe payload = Safe-bind (Safe-lift _) (λ params.
      Safe-bind (Safe-lift _) (λ name.
        Safe-bind
          (Safe-change (delete_process w.engine w.codec true name) _
            (delete_process-IsRegistered w.engine w.codec law true name)
            (λ g v.
              rw (delete_process-db w.engine w.codec true name g)
                (run-IsConsistent w.engine w.codec law (deletes_app name ∷ []) g.db v)))
          (λ u. Safe-lift _)))

  handle_create_checkpoint-Safe :
      (payload : String) → Safe (handle_create_checkpoint w clock payload)
  unfolding handle_create_checkpoint step run
  handle_create_checkpoint-Safe payload = Safe-bind (Safe-lift _) (λ params.
      Safe-bind (Safe-lift _) (λ name. Safe-bind (Safe-lift _) (λ app_id.
        Safe-bind
          (Safe-call _ _
            (λ db v.
              run-IsConsistent w.engine w.codec law (creates name _ app_id clock.now ∷ []) db v)
            (create_checkpoint-apps w.engine law name _ app_id clock.now))
          (λ u. Safe-bind (Safe-Quiet (list_created-Quiet w name app_id)) (λ r. Safe-lift _)))))

  handle_set_active_checkpoint-Safe :
      (payload : String) → Safe (handle_set_active_checkpoint w clock payload)
  unfolding handle_set_active_checkpoint step run
  handle_set_active_checkpoint-Safe payload = Safe-bind (Safe-lift _) (λ params.
      Safe-bind (Safe-lift _) (λ id. Safe-bind (Safe-lift _) (λ is_active.
        Safe-bind
          (Safe-call _ _
            (λ db v.
              run-IsConsistent w.engine w.codec law (sets id is_active clock.earlier clock.now ∷ [])
                db v)
            (set_checkpoint_active-apps w.engine law id is_active clock.earlier clock.now))
          (λ u. Safe-lift _))))

  handle_delete_checkpoint-Safe : (payload : String) → Safe (handle_delete_checkpoint w payload)
  unfolding handle_delete_checkpoint step run
  handle_delete_checkpoint-Safe payload = Safe-bind (Safe-lift _) (λ params.
      Safe-bind (Safe-lift _) (λ id.
        Safe-bind
          (Safe-call _ _ (λ db v. run-IsConsistent w.engine w.codec law (deletes id ∷ []) db v)
            (delete_checkpoint-apps w.engine law id))
          (λ u. Safe-lift _)))

  handle_update_config-Safe : (payload : String) → Safe (handle_update_config w payload)
  unfolding handle_update_config set_config
  handle_update_config-Safe payload = Safe-bind (Safe-lift _) (λ params.
      Safe-bind (Safe-lift _) (λ tracking_delay_ms. Safe-bind (Safe-lift _) (λ check_delay_ms.
        Safe-bind
          (record {
            safe = λ st v. record {
              consistent = v.consistent;
              registered = v.registered;
              keyed = v.keyed;
            };
          })
          (λ u. Safe-lift _))))

  module _ (client_id : Option ℕ) where
    handle_command-Safe :
        (command : WebSocketCommand) → Safe (handle_command w clock client_id command)
    unfolding handle_command
    handle_command-Safe (Messages.add_process payload) = handle_add_process-Safe payload
    handle_command-Safe (Messages.delete_process payload) = handle_delete_process-Safe payload
    handle_command-Safe (Messages.create_checkpoint payload) = handle_create_checkpoint-Safe payload
    handle_command-Safe (Messages.set_active_checkpoint payload) =
        handle_set_active_checkpoint-Safe payload
    handle_command-Safe (Messages.delete_checkpoint payload) = handle_delete_checkpoint-Safe payload
    handle_command-Safe (Messages.update_config payload) = handle_update_config-Safe payload
    handle_command-Safe (Messages.subscribe payload) = Safe-bind (Safe-lift _) (λ params.
        Safe-on_server _
          (λ s. handle_subscribe-clients w.printer w.reader.read_id client_id params s))
    handle_command-Safe (Messages.unsubscribe payload) = Safe-bind (Safe-lift _) (λ params.
        Safe-on_server _
          (λ s. handle_unsubscribe-clients w.printer w.reader.read_id client_id params s))
    handle_command-Safe question = Safe-Quiet (handle_command-Quiet w clock client_id question refl)

    handle_message-Safe : (text : Result String) → Safe (handle_message w clock client_id text)
    unfolding handle_message
    handle_message-Safe text = Safe-bind (Safe-lift _) (λ json.
        Safe-bind (Safe-lift _)
          (λ tagged. Safe-bind (Safe-lift _) (λ command. handle_command-Safe command)))

pub handle_message-IsSound :
    (w : World)
    → Lawful w.engine
    → (clock : Clock) (client_id : Option ℕ) (text : Result String) (st : Service) → IsSound st
    → IsSound (handle_message w clock client_id text st).0
handle_message-IsSound w law clock client_id text st =
    (handle_message-Safe w law clock client_id text).safe st

-- A message of a client, and the clock while it is handled.
pub record Arrival : Type 0 where
  pub clock : Clock
  pub client_id : Option ℕ
  pub text : Result String

unfoldable pub serve : World → List Arrival → Service → Service
serve w [] st = st
serve w (m ∷ ms) st = serve w ms (handle_message w m.clock m.client_id m.text st).0

-- Over every sequence of messages of clients, whatever their texts are and whichever calls of the
-- lawful database fail: if it is so at the start, then no app ever has two active checkpoints, each process of the
-- process map is the name of an app, no two apps have the same name, and no two clients the same id.
pub serve-IsSound :
    (w : World)
    → Lawful w.engine
    → (messages : List Arrival) (st : Service) → IsSound st
    → IsSound (serve w messages st)
unfolding serve
serve-IsSound w law [] st v = v
serve-IsSound w law (m ∷ ms) st v =
    serve-IsSound w law ms _ (handle_message-IsSound w law m.clock m.client_id m.text st v)
