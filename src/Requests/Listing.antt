-- ===== src/Requests/Listing.antt =====
-- websocket/handlers.rs: what the lists hold that clients are sent.

use time_tracker.Common.{
  String, ◌≡◌, refl, ap, ◌<◌, inl, inr, ◌==◌, Bool, true, Option, none, some, List, [], ◌∷◌, map,
  Has, Result, ok, err, ok_or,
}
use time_tracker.Common.Word.{I32, i32_mod, rank}
use time_tracker.Json.{to_list-of_list, Json, Fields, object, array, of_list}
use time_tracker.Entities.{AppModel, TimelineModel, CheckpointModel}
use time_tracker.Store.{Table, Row, Db, apps, timeline, checkpoints}
use time_tracker.Store.Engine.{Lawful, Reliable, Order, asc, desc, Selects}
use time_tracker.Store.Monad
use time_tracker.Store.Codec.{Codec, model_to_json}
use time_tracker.Store.Calls.{on_ok}
use time_tracker.Queries.{select_json, get_checkpoints_for_app, get_all_checkpoints, by_id}
use time_tracker.Events.{get_all_apps}
use time_tracker.Rows.{
  Calendar, RowMap, row_map, convert_json_rows, convert_to_apps, convert_to_checkpoints,
  app_from_pg_row, checkpoint_from_pg_row,
}
use time_tracker.Rows.Shown.{
  Reads, app_fields, timeline_fields, checkpoint_fields, shown_app, shown_checkpoint, IsWord,
  app_from_pg_row_lem, checkpoint_from_pg_row_lem,
}
use time_tracker.Messages.{WebSocketMessage, apps_list_message, checkpoints_list_message}
use time_tracker.Websocket.{Printer, to_json}
use time_tracker.Requests.{
  Service, World, ◌>>=◌, lift, call_db_method, converted, parse_payload, i32_param,
}
use time_tracker.Requests.Apps.{listed_apps, handle_get_apps}
use time_tracker.Requests.Checkpoints.{handle_get_checkpoints}

-- The serialization that serde derives.
pub record IsDerived (cal : Calendar) (c : Codec) : Type 0 where
  pub app_encoded : (r : AppModel) → c.encode apps r ≡ ok (object (app_fields cal r))
  pub timeline_encoded :
      (r : TimelineModel) → c.encode timeline r ≡ ok (object (timeline_fields cal r))
  pub checkpoint_encoded :
      (r : CheckpointModel) → c.encode checkpoints r ≡ ok (object (checkpoint_fields cal r))

-- The numbers of every row are 32-bit ones.
abbrev pub HasWords : Db → Type 0
HasWords db =
    ((r : AppModel)
      → Has r db.apps
      → (r.id < i32_mod) × IsWord r.duration × IsWord r.launches × IsWord r.longest_session)
    × ((r : CheckpointModel)
        → Has r db.checkpoints
        → (r.id < i32_mod) × (r.app_id < i32_mod) × IsWord r.duration × IsWord r.sessions_count)
    × ((r : TimelineModel)
        → Has r db.timeline
        → (r.id < i32_mod) × (r.app_id < i32_mod) × IsWord r.duration)

-- Rows that all convert.
pub convert_json_rows-map :
    {R T : Type 0} (print : Json → Option String) (converter : RowMap → Option T)
    (encoded : R → Json) (fields : R → Fields) (shown : R → T) (xs : List R)
    → ((r : R) → Has r xs → encoded r ≡ object (fields r))
    → ((r : R) → Has r xs → converter (row_map print (fields r)) ≡ some (shown r))
    → convert_json_rows print converter (map encoded xs) ≡ map shown xs
unfolding convert_json_rows
convert_json_rows-map print converter encoded fields shown [] e h = refl
convert_json_rows-map print converter encoded fields shown (x ∷ xs) e h =
    rw
      (
        e x (inl refl),
        h x (inl refl),
        convert_json_rows-map print converter encoded fields shown xs (λ r m. e r (inr m))
            (λ r m. h r (inr m)),
      )
      refl

-- An answer: the printed list in its message.
abbrev pub answer : Printer → Option String → String → (String → WebSocketMessage) → Result String
answer s none context message = err context
answer s (some json) context message =
    ok_or (to_json s (message json)) "Failed to serialize response"

pub print_and_send :
    (s : Printer) (json : Option String) (context : String) (message : String → WebSocketMessage)
    (st : Service)
    → (lift (ok_or json context) >>= λ text.
          lift (ok_or (to_json s (message text)) "Failed to serialize response"))
        st
      ≡ (st, answer s json context message)
unfolding ◌>>=◌ lift
print_and_send s none context message st = refl
print_and_send s (some json) context message st = refl

-- A lawful and reliable database, the serialization that serde derives, dates that are read as they were
-- printed, and numbers of 32 bits.
pub record IsUsual (w : World) (db : Db) : Type 0 where
  pub law : Lawful w.engine
  pub sure : Reliable w.engine
  pub reads : Reads w.calendar
  pub derived : IsDerived w.calendar w.codec
  pub words : HasWords db

module _ (w : World) (st : Service) (usual : IsUsual w st.registry.db) where
  -- The rows that a select gives, as an array.
  pub selected :
      (t : Table) (p : Row t → Bool) (o : Order (Row t))
      → (xs : List (Row t)) × Selects t p o st.registry.db xs
        × (select_json w.engine w.codec t p o st.registry.db
            ≡ (st.registry.db, ok (array (of_list (map (model_to_json w.codec t) xs)))))
  unfolding select_json
  selected t p o =
      let (xs, q) = usual.sure.select_answers t p o st.registry.db in
      (xs, on_ok _ _ (usual.law.select_law t p o st.registry.db) q, rw (q, Monad.and_then) refl)

  pub called :
      {A : Type 0} (m : Monad.M A) (context : String) (a : A)
      → m st.registry.db ≡ (st.registry.db, ok a)
      → call_db_method m context st ≡ (st, ok a)
  unfolding call_db_method
  called m context a q = rw q refl

  pub apps_shown :
      (xs : List AppModel)
      → ((r : AppModel) → Has r xs → Has r st.registry.db.apps)
      → converted
          (convert_to_apps w.printer.value_json w.calendar)
          (array (of_list (map (model_to_json w.codec apps) xs)))
        ≡ map shown_app xs
  unfolding model_to_json convert_json_rows app_from_pg_row
  apps_shown xs there = rw (to_list-of_list (map (model_to_json w.codec apps) xs)) (
      convert_json_rows-map w.printer.value_json (app_from_pg_row w.calendar)
        (model_to_json w.codec apps) (app_fields w.calendar) shown_app xs
        (λ r m. rw (usual.derived.app_encoded r) refl)
        (λ r m.
          let (a, b, c, d) = usual.words.0 r (there r m) in
          app_from_pg_row_lem w.printer.value_json w.calendar usual.reads r a b c d))

  pub listed_apps_lem :
      (xs : List AppModel) × Selects apps (λ r. true) (asc (λ r. rank r.id)) st.registry.db xs
      × (listed_apps w st ≡ (st, ok (map shown_app xs)))
  unfolding listed_apps get_all_apps ◌>>=◌ lift
  listed_apps_lem =
      let (xs, sel, q) = selected apps (λ r. true) (asc (λ r. rank r.id)) in
      (
        xs,
        sel,
        rw (called (get_all_apps w.engine w.codec) "Failed to retrieve apps" _ q)
            (ap (λ l. (st, ok l)) (apps_shown xs (λ r m. (sel.sound r m).0))),
      )

  -- With a lawful and reliable database, the derived serialization, and numbers of 32 bits: the
  -- answer to GetApps is the printed list of all rows of the apps, each once, by ascending id, an
  -- empty text as no text; nothing changes.
  pub handle_get_apps_lem :
      (xs : List AppModel) × Selects apps (λ r. true) (asc (λ r. rank r.id)) st.registry.db xs
      × (handle_get_apps w st ≡ (
        st,
        answer w.printer
            (w.printer.apps_json (map shown_app xs))
            "Failed to serialize apps"
            apps_list_message,
      ))
  unfolding handle_get_apps ◌>>=◌
  handle_get_apps_lem =
      let (xs, sel, q) = listed_apps_lem in
      (xs, sel, rw q (print_and_send w.printer _ "Failed to serialize apps" apps_list_message st))

  checkpoints_shown :
      (xs : List CheckpointModel)
      → ((r : CheckpointModel) → Has r xs → Has r st.registry.db.checkpoints)
      → converted
          (convert_to_checkpoints w.printer.value_json w.calendar)
          (array (of_list (map (model_to_json w.codec checkpoints) xs)))
        ≡ map shown_checkpoint xs
  unfolding model_to_json convert_json_rows checkpoint_from_pg_row
  checkpoints_shown xs there = rw (to_list-of_list (map (model_to_json w.codec checkpoints) xs)) (
      convert_json_rows-map w.printer.value_json (checkpoint_from_pg_row w.calendar)
        (model_to_json w.codec checkpoints) (checkpoint_fields w.calendar) shown_checkpoint xs
        (λ r m. rw (usual.derived.checkpoint_encoded r) refl)
        (λ r m.
          let (a, b, c, d) = usual.words.1 r (there r m) in
          checkpoint_from_pg_row_lem w.printer.value_json w.calendar usual.reads r a b c d))

  -- The checkpoints that are asked for.
  abbrev pub asked_for : Option I32 → CheckpointModel → Bool
  asked_for none r = true
  asked_for (some app_id) r = r.app_id == app_id

  checkpoints_read :
      (app_id : Option I32)
      → (xs : List CheckpointModel) × Selects checkpoints
          (asked_for app_id)
          (desc by_id)
          st.registry.db
          xs
        × (call_db_method
              (elim app_id [
                | some app_id ↦ get_checkpoints_for_app w.engine w.codec app_id
                | none ↦ get_all_checkpoints w.engine w.codec
              ])
              "Failed to retrieve checkpoints"
              st
            ≡ (st, ok (array (of_list (map (model_to_json w.codec checkpoints) xs)))))
  unfolding get_checkpoints_for_app get_all_checkpoints
  checkpoints_read none =
      let (xs, sel, q) = selected checkpoints (λ r. true) (desc by_id) in
      (xs, sel, called (get_all_checkpoints w.engine w.codec) "Failed to retrieve checkpoints" _ q)
  checkpoints_read (some app_id) =
      let (xs, sel, q) = selected checkpoints (λ r. r.app_id == app_id) (desc by_id) in
      (
        xs,
        sel,
        called (get_checkpoints_for_app w.engine w.codec app_id) "Failed to retrieve checkpoints" _
            q,
      )

  -- With a lawful and reliable database, the derived serialization, and numbers of 32 bits: the answer to GetCheckpoints is the printed list of exactly the
  -- checkpoints of the app that the payload names, or of all checkpoints if it names none, by
  -- descending id; nothing changes.
  pub handle_get_checkpoints_lem :
      (payload : String) (params : Fields)
      → parse_payload w.reader payload ≡ ok params
      → (xs : List CheckpointModel) × Selects checkpoints
          (asked_for (i32_param params "app_id"))
          (desc by_id)
          st.registry.db
          xs
        × (handle_get_checkpoints w payload st ≡ (
          st,
          answer w.printer
              (w.printer.checkpoints_json (map shown_checkpoint xs))
              "Failed to serialize checkpoints"
              checkpoints_list_message,
        ))
  unfolding handle_get_checkpoints ◌>>=◌ lift
  handle_get_checkpoints_lem payload params parsed =
      let (xs, sel, q) = checkpoints_read (i32_param params "app_id") in
      (
        xs,
        sel,
        rw (parsed, q, checkpoints_shown xs (λ r m. (sel.sound r m).0))
            (print_and_send w.printer _ "Failed to serialize checkpoints" checkpoints_list_message
              st),
      )
