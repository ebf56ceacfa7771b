-- ===== src/Requests/Entries.antt =====
-- websocket/handlers.rs: what the timeline holds that clients are sent.
use time_tracker.Common.{◌≡◌, refl, ap, Option, none, some, List, map, map_congr, ok}
use time_tracker.Json.{Json, array, of_list, object, string, field, end}
use time_tracker.Entities.{TimelineModel, CheckpointModel}
use time_tracker.Store.{timeline}
use time_tracker.Store.Engine.{desc, Relates}
use time_tracker.Store.Monad
use time_tracker.Store.Codec.{model_to_json}
use time_tracker.Store.Calls.{on_ok}
use time_tracker.Requests.Apps.{handle_get_timeline}
use time_tracker.Queries.{with_checkpoint, get_timeline_with_checkpoints}
use time_tracker.Rows.{Calendar}
use time_tracker.Rows.Shown.{timeline_fields, checkpoint_fields, int_json, to_json as optional_json}
use time_tracker.Messages.{timeline_data_message}
use time_tracker.Requests.{Service, World, ◌>>=◌}
use time_tracker.Requests.Reports.{}
use time_tracker.Requests.Listing.{IsUsual, answer, print_and_send, called}

-- A row of the timeline as a client is sent it, and its checkpoint as one more field.
abbrev pub entry_json : Calendar → TimelineModel × Option CheckpointModel → Json
entry_json cal (r, none) = object (timeline_fields cal r)
entry_json cal (r, some c) = object (
    field "id" (int_json r.id) (
      field "date" (string (cal.show_date r.date)) (
        field "duration" (optional_json int_json r.duration) (
          field "app_id" (int_json r.app_id) (
            field "checkpoint_id" (optional_json int_json r.checkpoint_id)
              (field "checkpoint" (object (checkpoint_fields cal c)) end))))))

module _ (w : World) (st : Service) (usual : IsUsual w st.registry.db) where
  entry_lem :
      (x : TimelineModel × Option CheckpointModel)
      → with_checkpoint w.engine w.codec (model_to_json w.codec timeline x.0) x.1
        ≡ entry_json w.calendar x
  unfolding model_to_json
  entry_lem (r, none) = rw (usual.derived.timeline_encoded r) refl
  entry_lem (r, some c) =
      rw (usual.derived.timeline_encoded r, usual.derived.checkpoint_encoded c) refl

  -- With a lawful and reliable database and the derived serialization, the answer to GetTimeline is the printed list of all rows of the timeline, newest
  -- first, each with the checkpoint that it refers to, if there is one; nothing changes.
  pub handle_get_timeline_lem :
      (xs : List (TimelineModel × Option CheckpointModel)) × Relates
        (desc (λ r. r.date))
        st.registry.db
        xs
      × (handle_get_timeline w st ≡ (
        st,
        answer w.printer
            (w.printer.value_json (array (of_list (map (entry_json w.calendar) xs))))
            "Failed to serialize timeline data"
            timeline_data_message,
      ))
  unfolding handle_get_timeline get_timeline_with_checkpoints ◌>>=◌
  handle_get_timeline_lem =
      let (xs, q) = usual.sure.related_answers (desc (λ r. r.date)) st.registry.db in
      let related = on_ok _ _ (usual.law.related_law (desc (λ r. r.date)) st.registry.db) q in
      let read : get_timeline_with_checkpoints w.engine w.codec st.registry.db
          ≡ (st.registry.db, ok (array (of_list (map (entry_json w.calendar) xs)))) =
        rw (q, Monad.and_then)
          (ap (λ l. (st.registry.db, ok (array (of_list l))))
            (map_congr _ (entry_json w.calendar) xs (λ x _. entry_lem x))) in
      (
        xs,
        related,
        rw
            (called w st usual (get_timeline_with_checkpoints w.engine w.codec)
              "Failed to retrieve timeline data" _ read)
            (print_and_send w.printer _ "Failed to serialize timeline data" timeline_data_message
              st),
      )
