-- ===== src/Requests/Quiet.antt =====
-- Which functions of the database and of the service only read.
use Prim.Native.String.{◌++◌ as ◌+++◌}
use time_tracker.Text.{show_i32}
use time_tracker.Common.{
  String, ◌≡◌, refl, ap, ◌∙◌, inl, inr, Bool, Bool-cases, Option, none, some, List, [], ◌∷◌, Result,
  Result-cases, ok, err, is_empty,
}
use time_tracker.Common.Word.{I32}
use time_tracker.Json.{Json}
use time_tracker.Store.{Table, Row, Db}
use time_tracker.Store.Engine.{Engine, Order}
use time_tracker.Store.Monad
use time_tracker.Store.Monad.{M, query}
use time_tracker.Store.Codec.{Codec}
use time_tracker.Queries.{
  select_json, get_checkpoints_for_app, get_all_checkpoints, get_active_checkpoints,
  get_active_checkpoints_for_app, get_checkpoint_durations_by_ids, get_all_app_ids,
  get_session_count_for_app, get_timeline_with_checkpoints,
}
use time_tracker.Events.{get_all_apps}
use time_tracker.Requests.{
  Service, World, Clock, S, ◌>>=◌, lift, asks, settled, i32_param, call_db_method,
}
use time_tracker.Requests.Apps.{
  listed_apps, handle_get_apps, handle_get_timeline, handle_get_app_by_name,
  handle_get_tracking_status,
}
use time_tracker.Requests.Checkpoints.{
  handle_get_checkpoints, list_created, created_response, handle_get_active_checkpoints,
  handle_get_checkpoint_stats,
}
use time_tracker.Requests.Reports.{count_sessions, handle_get_session_counts, handle_get_statistics}

abbrev pub Reads : {A : Type 0} → M A → Type 0
Reads m = (db : Db) → (m db).0 ≡ db

-- A query and what is made of its rows.
pub query-Reads :
    {A B : Type 0} (q : Db → Result A) (f : A → B)
    → Reads (Monad.◌>>=◌ (query q) (λ a. Monad.pure (f a)))
query-Reads q f db = elim (Result-cases (q db)) [
  | inl (a, h) ↦ rw (h, Monad.and_then) refl
  | inr (x, h) ↦ rw (h, Monad.and_then) refl
]

select_json-Reads :
    (e : Engine) (c : Codec) (t : Table) (p : Row t → Bool) (o : Order (Row t))
    → Reads (select_json e c t p o)
unfolding select_json
select_json-Reads e c t p o = query-Reads (e.select t p o) _

get_timeline_with_checkpoints-Reads :
    (e : Engine) (c : Codec) → Reads (get_timeline_with_checkpoints e c)
unfolding get_timeline_with_checkpoints
get_timeline_with_checkpoints-Reads e c = query-Reads _ _

get_all_app_ids-Reads : (e : Engine) → Reads (get_all_app_ids e)
unfolding get_all_app_ids
get_all_app_ids-Reads e = query-Reads _ _

get_session_count_for_app-Reads : (e : Engine) (k : I32) → Reads (get_session_count_for_app e k)
unfolding get_session_count_for_app
get_session_count_for_app-Reads e k = query-Reads _ _

get_checkpoint_durations_by_ids-Reads :
    (e : Engine) (c : Codec) (ids : List I32) → Reads (get_checkpoint_durations_by_ids e c ids)
unfolding get_checkpoint_durations_by_ids
get_checkpoint_durations_by_ids-Reads e c ids db = elim (Bool-cases (is_empty ids)) [
  | inl h ↦ rw h refl
  | inr h ↦ rw h (select_json-Reads e c _ _ _ db)
]

-- A request that leaves the service as it is.
pub record Quiet {A : Type 0} (m : S A) : Type 0 where
  pub same : (st : Service) → (m st).0 ≡ st

pub Quiet-bind :
    {A B : Type 0} {m : S A} {f : A → S B} → Quiet m → ((a : A) → Quiet (f a)) → Quiet (m >>= f)
unfolding ◌>>=◌
Quiet-bind {m = m} {f = f} km kf = record {
  same = λ st. elim (Result-cases (m st).1) [
    | inl (a, h) ↦ rw h ((kf a).same (m st).0 ∙ km.same st)
    | inr (x, h) ↦ rw h (km.same st)
  ];
}

pub Quiet-lift : {A : Type 0} (r : Result A) → Quiet (lift r)
unfolding lift
Quiet-lift r = record { same = λ st. refl }

pub Quiet-asks : {A : Type 0} (f : Service → Result A) → Quiet (asks f)
unfolding asks
Quiet-asks f = record { same = λ st. refl }

Quiet-settled : {A : Type 0} {m : S A} → Quiet m → Quiet (settled m)
unfolding settled
Quiet-settled k = record { same = k.same }

Quiet-call : {A : Type 0} (m : M A) (context : String) → Reads m → Quiet (call_db_method m context)
unfolding call_db_method
Quiet-call m context reads = record {
  same = λ st.
      ap (λ (db : Db). record st { registry = record st.registry { db = db } })
        (reads st.registry.db);
}

module _ (w : World) where
  listed_apps-Quiet : Quiet (listed_apps w)
  unfolding listed_apps get_all_apps
  listed_apps-Quiet =
      Quiet-bind (Quiet-call _ _ (select_json-Reads w.engine w.codec _ _ _)) (λ v. (Quiet-lift _))

  pub handle_get_apps-Quiet : Quiet (handle_get_apps w)
  unfolding handle_get_apps
  handle_get_apps-Quiet =
      Quiet-bind listed_apps-Quiet (λ apps. Quiet-bind (Quiet-lift _) (λ j. (Quiet-lift _)))

  pub handle_get_timeline-Quiet : Quiet (handle_get_timeline w)
  unfolding handle_get_timeline
  handle_get_timeline-Quiet =
      Quiet-bind (Quiet-call _ _ (get_timeline_with_checkpoints-Reads w.engine w.codec))
        (λ v. Quiet-bind (Quiet-lift _) (λ j. (Quiet-lift _)))

  pub handle_get_app_by_name-Quiet : (payload : String) → Quiet (handle_get_app_by_name w payload)
  unfolding handle_get_app_by_name
  handle_get_app_by_name-Quiet payload = Quiet-bind (Quiet-lift _) (λ params.
      Quiet-bind (Quiet-lift _) (λ app_name. Quiet-bind listed_apps-Quiet (λ apps.
        Quiet-bind (Quiet-lift _) (λ found. Quiet-bind (Quiet-lift _) (λ j. (Quiet-lift _))))))

  pub handle_get_tracking_status-Quiet : Quiet (handle_get_tracking_status w)
  unfolding handle_get_tracking_status
  handle_get_tracking_status-Quiet =
      Quiet-bind (Quiet-asks _) (λ status. Quiet-bind (Quiet-lift _) (λ j. (Quiet-lift _)))

  checkpoints-Reads :
      (app_id : Option I32)
      → Reads (elim app_id [
        | some app_id ↦ get_checkpoints_for_app w.engine w.codec app_id
        | none ↦ get_all_checkpoints w.engine w.codec
      ])
  unfolding get_checkpoints_for_app get_all_checkpoints
  checkpoints-Reads none = select_json-Reads w.engine w.codec _ _ _
  checkpoints-Reads (some app_id) = select_json-Reads w.engine w.codec _ _ _

  pub handle_get_checkpoints-Quiet : (payload : String) → Quiet (handle_get_checkpoints w payload)
  unfolding handle_get_checkpoints
  handle_get_checkpoints-Quiet payload = Quiet-bind (Quiet-lift _) (λ params.
      Quiet-bind (Quiet-call _ _ (checkpoints-Reads (i32_param params "app_id")))
        (λ v. Quiet-bind (Quiet-lift _) (λ j. (Quiet-lift _))))

  created_response-Quiet :
      (name : String) (read : Result Json) → Quiet (created_response w name read)
  created_response-Quiet name (ok v) = Quiet-bind (Quiet-lift _) (λ j. (Quiet-lift _))
  created_response-Quiet name (err x) = (Quiet-lift _)

  pub list_created-Quiet : (name : String) (app_id : I32) → Quiet (list_created w name app_id)
  unfolding list_created get_checkpoints_for_app
  list_created-Quiet name app_id =
      Quiet-bind (Quiet-settled (Quiet-call _ _ (select_json-Reads w.engine w.codec _ _ _)))
        (created_response-Quiet name)

  active_checkpoints-Quiet :
      (app_id : Option I32)
      → Quiet {A = Json} (elim app_id [
        | some app_id ↦
            call_db_method
              (get_active_checkpoints_for_app w.engine w.codec app_id)
              ("Failed to get active checkpoints for app " +++ show_i32 app_id)
        | none ↦
            call_db_method
              (get_active_checkpoints w.engine w.codec)
              "Failed to get active checkpoints"
      ])
  unfolding get_active_checkpoints_for_app get_active_checkpoints
  active_checkpoints-Quiet none = Quiet-call _ _ (select_json-Reads w.engine w.codec _ _ _)
  active_checkpoints-Quiet (some app_id) = Quiet-call _ _ (select_json-Reads w.engine w.codec _ _ _)

  pub handle_get_active_checkpoints-Quiet :
      (payload : String) → Quiet (handle_get_active_checkpoints w payload)
  unfolding handle_get_active_checkpoints
  handle_get_active_checkpoints-Quiet payload = Quiet-bind (Quiet-lift _) (λ params.
      Quiet-bind (active_checkpoints-Quiet (i32_param params "app_id"))
        (λ v. Quiet-bind (Quiet-lift _) (λ j. (Quiet-lift _))))

  pub handle_get_checkpoint_stats-Quiet :
      (payload : String) → Quiet (handle_get_checkpoint_stats w payload)
  unfolding handle_get_checkpoint_stats
  handle_get_checkpoint_stats-Quiet payload = Quiet-bind (Quiet-lift _) (λ params.
      Quiet-bind (Quiet-lift _) (λ id.
        Quiet-bind
          (Quiet-call _ _ (get_checkpoint_durations_by_ids-Reads w.engine w.codec (id ∷ [])))
          (λ v. (Quiet-lift _))))

  count_sessions-Quiet : (ids : List I32) → Quiet (count_sessions w ids)
  unfolding count_sessions
  count_sessions-Quiet [] = (Quiet-lift _)
  count_sessions-Quiet (id ∷ ids) =
      Quiet-bind (Quiet-call _ _ (get_session_count_for_app-Reads w.engine id))
        (λ n. Quiet-bind (count_sessions-Quiet ids) (λ counts. (Quiet-lift _)))

  pub handle_get_session_counts-Quiet : Quiet (handle_get_session_counts w)
  unfolding handle_get_session_counts
  handle_get_session_counts-Quiet =
      Quiet-bind (Quiet-call _ _ (get_all_app_ids-Reads w.engine)) (λ ids.
        Quiet-bind (count_sessions-Quiet ids)
          (λ counts. Quiet-bind (Quiet-lift _) (λ j. (Quiet-lift _))))

  pub handle_get_statistics-Quiet : (clock : Clock) → Quiet (handle_get_statistics w clock)
  unfolding handle_get_statistics get_all_apps
  handle_get_statistics-Quiet clock =
      Quiet-bind (Quiet-call _ _ (select_json-Reads w.engine w.codec _ _ _))
        (λ v. Quiet-bind (Quiet-asks _) (λ l. Quiet-bind (Quiet-lift _) (λ j. (Quiet-lift _))))
