-- ===== src/OneActive/Switching.antt =====
-- `set_checkpoint_active` and the invariant of the checkpoints.
use time_tracker.Common.{
  ◌≡◌, refl, sym, subst, inl, inr, Bool, true, false, ◌==◌, none, some, List, if◌then◌else◌, ok,
  err, Result-cases, arith,
}
use time_tracker.Common.Word.{I32}
use time_tracker.Json.{Json}
use time_tracker.Entities.{CheckpointModel, DateTime}
use time_tracker.Store.{checkpoints, Db, update_rows}
use time_tracker.Store.Engine.{Engine, Lawful, unordered}
use time_tracker.Store.Monad.{pure, query, and_then}
use time_tracker.Store.Calls.{one_cases, update_cases}
use time_tracker.Queries.{
  deactivate, set_active, is_rival, deactivate_all, deactivate_rivals, set_checkpoint_active,
  success_json,
}
use time_tracker.Queries.Activation.{set_checkpoint_active-rows}
use time_tracker.Events.{}
use time_tracker.OneActive.{IsConsistent, IsConsistent-after_set}
use time_tracker.OneActive.Keeps.{Keeps, Keeps-bind, Keeps-for_each, Keeps-update}

module _ (e : Engine) (law : Lawful e) where
  deactivate_all-Keeps :
      (now : DateTime) (cs : List CheckpointModel) → Keeps (deactivate_all e now cs)
  unfolding deactivate_all
  deactivate_all-Keeps now cs =
      Keeps-for_each _
        (λ c.
          Keeps-update e law checkpoints c.id (deactivate now)
            (record { same_id = λ r. refl; same_app = λ r. refl; calm = λ r. ground arith }))
        cs

  rivals-Keeps :
      (b : Bool) (app_id id : I32) (now : DateTime)
      → Keeps (if b then deactivate_rivals e app_id id now else pure tt)
  unfolding deactivate_rivals
  rivals-Keeps false app_id id now db v = v
  rivals-Keeps true app_id id now db v =
      Keeps-bind (query (e.select checkpoints (is_rival app_id id) unordered))
        (deactivate_all e now) (λ db v. v) (deactivate_all-Keeps now) db v

  set_ok :
      (id : I32) (b : Bool) (earlier now : DateTime) (db db' : Db) {w : Json}
      → IsConsistent db.checkpoints
      → set_checkpoint_active e id b earlier now db ≡ (db', ok w)
      → IsConsistent db'.checkpoints
  set_ok id b earlier now db db' v h =
      let (c, has, same, rows) = set_checkpoint_active-rows e law id b earlier now db v.keyed h in
      rw (rows, ← same) (IsConsistent-after_set db.checkpoints c b earlier now v has)

  -- A failure leaves the rows as they were, or some of the rivals deactivated.
  pub set_checkpoint_active-Keeps :
      (id : I32) (b : Bool) (earlier now : DateTime)
      → Keeps (set_checkpoint_active e id b earlier now)
  unfolding set_checkpoint_active
  set_checkpoint_active-Keeps id b earlier now db v =
      elim (one_cases e law checkpoints (λ c. c.id == id) db) [
        | inr (x, q) ↦ rw (q, and_then) v
        | inl (none, q, _) ↦ rw (q, and_then) v
        | inl (some c, q, _) ↦
            let first = if b then deactivate_rivals e c.app_id id earlier else pure tt in
            let kept = rivals-Keeps b c.app_id id earlier db v in
            elim (Result-cases (first db).1) [
              | inr (x, f) ↦ rw (q, and_then, f) kept
              | inl (u, f) ↦
                  elim (update_cases e law checkpoints c.id (set_active b now) (first db).0) [
                    | inr (x, g) ↦
                        let ran : set_checkpoint_active e id b earlier now db
                            ≡ ((first db).0, err x) =
                          ground arith in
                        subst (λ r. IsConsistent r.0.checkpoints) (sym ran) kept
                    | inl g ↦
                        let final = record (first db).0 {
                          checkpoints =
                              update_rows checkpoints c.id (set_active b now)
                                (first db).0.checkpoints;
                        } in
                        let ran : set_checkpoint_active e id b earlier now db
                            ≡ (final, ok (success_json "Checkpoint status updated successfully")) =
                          ground arith in
                        subst (λ r. IsConsistent r.0.checkpoints) (sym ran)
                          (set_ok id b earlier now db final v ran)
                  ]
            ]
      ]
