-- ===== src/Requests/Effects.antt =====
-- What the functions that requests call leave alone.
use time_tracker.Common.{
  String, ◌≡◌, refl, ◌∙◌, inl, inr, ◌==◌, Bool, true, false, Bool-cases, Option, none, some, List,
  [], ◌∷◌, Result-cases, if◌then◌else◌, unwrap_or, ℕ,
}
use time_tracker.Common.Word.{I32}
use time_tracker.Json.{Json, Fields}
use time_tracker.Entities.{DateTime, CheckpointModel}
use time_tracker.Store.{Db, checkpoints, delete_rows, delete_checkpoints}
use time_tracker.Store.Engine.{Engine, Lawful}
use time_tracker.Store.Monad.{M, ◌>>=◌, ◌>>◌, query, execute, pure, and_then, executed}
use time_tracker.Store.Calls.{on_ok, update_cases, delete_cases, for_each_inv}
use time_tracker.Store.Codec.{Codec}
use time_tracker.Queries.{
  create_checkpoint, set_checkpoint_active, delete_checkpoint, deactivate_all, deactivate_rivals,
  deactivate, set_active, new_checkpoint, success_json,
}
use time_tracker.Events.{
  Broadcast, apps_update, timeline_update, put_data, delete_data, get_processes,
}
use time_tracker.Processes.{contains}
use time_tracker.Registry.{
  Registry, add_process, add_unless_known, finish_add, delete_process, finish_delete,
}
use time_tracker.Websocket.{ServerState, Printer}
use time_tracker.Handlers.{handle_subscribe, handle_unsubscribe, read_request}
use time_tracker.Requests.Apps.{deliver}

-- A function of the database that leaves the apps as they are.
abbrev pub SameApps : {A : Type 0} → M A → Type 0
SameApps m = (db : Db) → (m db).0.apps ≡ db.apps

SameApps-bind :
    {A B : Type 0} (m : M A) (f : A → M B)
    → SameApps m
    → ((a : A) → SameApps (f a))
    → SameApps (m >>= f)
SameApps-bind m f km kf db = elim (Result-cases (m db).1) [
  | inl (a, q) ↦ rw (q, and_then) (kf a (m db).0 ∙ km db)
  | inr (x, q) ↦ rw (q, and_then) (km db)
]

module _ (e : Engine) (law : Lawful e) where
  SameApps-update :
      (k : I32) (f : CheckpointModel → CheckpointModel)
      → SameApps (execute (e.update checkpoints k f))
  SameApps-update k f db = elim (update_cases e law checkpoints k f db) [
    | inl q ↦ rw (q, executed) refl
    | inr (x, q) ↦ rw (q, executed) refl
  ]

  pub create_checkpoint-apps :
      (name : String) (description : Option String) (app_id : I32) (now : DateTime)
      → SameApps (create_checkpoint e name description app_id now)
  unfolding create_checkpoint
  create_checkpoint-apps name description app_id now db =
      let f = new_checkpoint name description app_id now in
      elim (Result-cases (e.insert_new checkpoints f db)) [
        | inl (db', q) ↦
            let (k, _, put) = on_ok _ _ (law.insert_new_law checkpoints f db) q in
            rw (q, executed, put.1) refl
        | inr (x, q) ↦ rw (q, executed) refl
      ]

  pub delete_checkpoint-apps : (id : I32) → SameApps (delete_checkpoint e id)
  unfolding delete_checkpoint delete_rows delete_checkpoints
  delete_checkpoint-apps id db = elim (delete_cases e law checkpoints (λ c. c.id == id) db) [
    | inl q ↦ rw (q, executed) refl
    | inr (x, q) ↦ rw (q, executed) refl
  ]

  deactivate_rivals-apps :
      (app_id id : I32) (now : DateTime) → SameApps (deactivate_rivals e app_id id now)
  unfolding deactivate_rivals deactivate_all
  deactivate_rivals-apps app_id id now =
      SameApps-bind (query _) (deactivate_all e now) (λ db. refl)
        (λ cs db.
          for_each_inv (λ mid. mid.apps ≡ db.apps)
            (λ c. execute (e.update checkpoints c.id (deactivate now)))
            (λ c mid h. SameApps-update c.id (deactivate now) mid ∙ h) cs db refl)

  pub set_checkpoint_active-apps :
      (id : I32) (is_active : Bool) (earlier now : DateTime)
      → SameApps (set_checkpoint_active e id is_active earlier now)
  unfolding set_checkpoint_active
  set_checkpoint_active-apps id is_active earlier now db =
      elim (Result-cases (e.one checkpoints (λ c. c.id == id) db)) [
        | inr (x, q) ↦ rw (q, and_then) refl
        | inl (none, q) ↦ rw (q, and_then) refl
        | inl (some c, q) ↦
            let first = if is_active then deactivate_rivals e c.app_id id earlier else pure tt in
            let final = execute (e.update checkpoints c.id (set_active is_active now)) in
            let done = success_json "Checkpoint status updated successfully" in
            rw (q, and_then)
              (SameApps-bind first (λ _. final >> pure done) (rivals is_active c.app_id)
                (λ u.
                  SameApps-bind final (λ _. pure done)
                    (SameApps-update c.id (set_active is_active now)) (λ v mid. refl))
                db)
      ]
    where
      rivals :
          (b : Bool) (app_id : I32)
          → SameApps (if b then deactivate_rivals e app_id id earlier else pure tt)
      rivals true app_id = deactivate_rivals-apps app_id id earlier
      rivals false app_id = λ db. refl

-- The database after add_process is the one before, or the one that put_data left.
pub add_process-db :
    (e : Engine) (c : Codec) (P : Db → Type 0) (active : Bool) (p : String)
    (product : Option String) (g : Registry)
    → P g.db
    → P (put_data e p (unwrap_or product p) g.db).0
    → P (add_process e c active p product g).registry.db
unfolding add_process add_unless_known finish_add
add_process-db e c P active p product g before after =
    elim (Result-cases (get_processes e g.db).1) [
      | inr (x, q) ↦ rw q before
      | inl (names, q) ↦ rw q (elim (Bool-cases (contains names p)) [
        | inl known ↦ rw known before
        | inr new ↦ elim (Result-cases (put_data e p (unwrap_or product p) g.db).1) [
          | inl (u, f) ↦ rw (new, f) after
          | inr (x, f) ↦ rw (new, f) after
        ]
      ])
    ]

pub delete_process-db :
    (e : Engine) (c : Codec) (active : Bool) (p : String) (g : Registry)
    → (delete_process e c active p g).registry.db ≡ (delete_data e p g.db).0
unfolding delete_process finish_delete
delete_process-db e c active p g = elim (Result-cases (delete_data e p g.db).1) [
  | inl (u, f) ↦ rw f refl
  | inr (x, f) ↦ rw f refl
]

pub deliver-clients : (bs : List Broadcast) (s : ServerState) → (deliver bs s).clients ≡ s.clients
unfolding deliver
deliver-clients [] s = refl
deliver-clients (apps_update l ∷ bs) s = deliver-clients bs _
deliver-clients (timeline_update rows ∷ bs) s = deliver-clients bs _

module _ (s : Printer) (read_id : Json → Option ℕ) (client_id : Option ℕ) (params : Fields)
    (st : ServerState) where
  pub handle_subscribe-clients :
      (handle_subscribe s read_id client_id params st).0.clients ≡ st.clients
  unfolding handle_subscribe
  handle_subscribe-clients = elim (Result-cases (read_request read_id client_id params)) [
    | inl (r, q) ↦ rw q refl
    | inr (x, q) ↦ rw q refl
  ]

  pub handle_unsubscribe-clients :
      (handle_unsubscribe s read_id client_id params st).0.clients ≡ st.clients
  unfolding handle_unsubscribe
  handle_unsubscribe-clients = elim (Result-cases (read_request read_id client_id params)) [
    | inl (r, q) ↦ rw q refl
    | inr (x, q) ↦ rw q refl
  ]
