-- ===== src/Queries/Answers.antt =====
-- What `set_checkpoint_active` answers on a database whose calls do not fail without a reason.
use time_tracker.Common.{
  ◌≡◌, refl, ap, ◌∙◌, ◌⊎◌, inl, inr, Bool, true, false, ◌==◌, ==_self, none, some, List, [], ◌∷◌,
  map, map_congr, Bool-cases, is_true, ◌&&◌, if◌then◌else◌, Has, any-Has, ok, err, arith,
}
use time_tracker.Common.Word.{I32}
use time_tracker.Entities.{CheckpointModel, DateTime}
use time_tracker.Store.{Db, checkpoints, has_key, put_rows, update_rows}
use time_tracker.Store.Engine.{Engine, Lawful, Reliable, unordered}
use time_tracker.Store.Monad.{query, and_then, for_each, execute}
use time_tracker.Store.Calls.{then_ok, execute_ok, on_ok, one_cases}
use time_tracker.Queries.{
  deactivate, set_active, is_rival, deactivate_all, deactivate_rivals, set_checkpoint_active,
  success_json,
}
use time_tracker.Queries.Activation.{Keyed, after_set, set_checkpoint_active-rows}

has_key-deactivate :
    (j k : I32) (now : DateTime) (cs : List CheckpointModel)
    → has_key checkpoints k (update_rows checkpoints j (deactivate now) cs)
      ≡ has_key checkpoints k cs
has_key-deactivate j k now [] = refl
has_key-deactivate j k now (c ∷ cs) = ground (arith, has_key-deactivate j k now cs)

absent :
    (id : I32) (cs : List CheckpointModel)
    → ((c : CheckpointModel) → Has c cs → (c.id == id) ≡ false)
    → has_key checkpoints id cs ≡ false
absent id [] none_has = refl
absent id (c ∷ cs) none_has =
    ground (arith, none_has c (inl refl), absent id cs (λ d m. none_has d (inr m)))

-- A row once the checkpoint `id` of `app_id` has been switched: its own columns, those of another active row
-- of the app when it is switched on, and no others.
abbrev pub switched_row : I32 → I32 → Bool → DateTime → DateTime → CheckpointModel → CheckpointModel
switched_row id app_id is_active earlier now r =
    if r.id == id
    then record {
      id = r.id;
      name = r.name;
      description = r.description;
      created_at = r.created_at;
      valid_from = r.valid_from;
      color = r.color;
      app_id = r.app_id;
      is_active = some is_active;
      duration = r.duration;
      sessions_count = r.sessions_count;
      last_updated = some now;
      activated_at = if is_active then some now else none;
    }
    else if is_active && (r.app_id == app_id) && is_true r.is_active
    then record {
      id = r.id;
      name = r.name;
      description = r.description;
      created_at = r.created_at;
      valid_from = r.valid_from;
      color = r.color;
      app_id = r.app_id;
      is_active = some false;
      duration = r.duration;
      sessions_count = r.sessions_count;
      last_updated = some earlier;
      activated_at = none;
    }
    else r

after_set-switched_row :
    (id app_id : I32) (is_active : Bool) (earlier now : DateTime) (r : CheckpointModel)
    → after_set id app_id is_active earlier now r ≡ switched_row id app_id is_active earlier now r
after_set-switched_row id app_id is_active earlier now r = elim (Bool-cases (r.id == id)) [
  | inl e ↦ rw e refl
  | inr e ↦ ground (arith, e)
]

module _ (e : Engine) (law : Lawful e) (sure : Reliable e) where
  -- The loop runs to its end, and keeps the keys.
  deactivate_all-answers :
      (now : DateTime) (cs : List CheckpointModel) (db : Db)
      → ((r : CheckpointModel) → Has r cs → has_key checkpoints r.id db.checkpoints ≡ true)
      → (db' : Db) × (deactivate_all e now cs db ≡ (db', ok tt))
        × ((k : I32) → has_key checkpoints k db'.checkpoints ≡ has_key checkpoints k db.checkpoints)
  unfolding deactivate_all for_each
  deactivate_all-answers now [] db there = (db, refl, (λ k. refl))
  deactivate_all-answers now (c ∷ cs) db there =
      let (mid, q) =
        sure.update_answers checkpoints c.id (deactivate now) db (there c (inl refl))
          (λ r. (refl, refl, refl)) in
      let same : mid
          ≡ put_rows checkpoints (update_rows checkpoints c.id (deactivate now) db.checkpoints) db =
        on_ok _ _ (law.update_law checkpoints c.id (deactivate now) db) q in
      let kept = λ (k : I32).
        ap (λ (z : Db). has_key checkpoints k z.checkpoints) same
        ∙ has_key-deactivate c.id k now db.checkpoints in
      let (end, ran, keys) =
        deactivate_all-answers now cs mid (λ r m. kept r.id ∙ there r (inr m)) in
      (
        end,
        then_ok (execute (e.update checkpoints c.id (deactivate now)))
              (λ u. deactivate_all e now cs) db
              (execute_ok (e.update checkpoints c.id (deactivate now)) db q)
            ∙ ran,
        (λ k. keys k ∙ kept k),
      )

  deactivate_rivals-answers :
      (app_id id : I32) (now : DateTime) (db : Db)
      → (db' : Db) × (deactivate_rivals e app_id id now db ≡ (db', ok tt))
        × ((k : I32) → has_key checkpoints k db'.checkpoints ≡ has_key checkpoints k db.checkpoints)
  unfolding deactivate_rivals
  deactivate_rivals-answers app_id id now db =
      let (xs, q) = sure.select_answers checkpoints (is_rival app_id id) unordered db in
      let sel = on_ok _ _ (law.select_law checkpoints (is_rival app_id id) unordered db) q in
      let (end, ran, keys) =
        deactivate_all-answers now xs db
          (λ r m. any-Has (λ x. x.id == r.id) r db.checkpoints (sel.sound r m).0 (==_self r.id)) in
      (
        end,
        then_ok (query (e.select checkpoints (is_rival app_id id) unordered)) (deactivate_all e now)
              db (ap (λ r. (db, r)) q)
            ∙ ran,
        keys,
      )

  set_answers :
      (id : I32) (is_active : Bool) (earlier now : DateTime) (db : Db) (c : CheckpointModel)
      → e.one checkpoints (λ c. c.id == id) db ≡ ok (some c)
      → has_key checkpoints c.id db.checkpoints ≡ true
      → (db' : Db) × (set_checkpoint_active e id is_active earlier now db
          ≡ (db', ok (success_json "Checkpoint status updated successfully")))
  unfolding set_checkpoint_active
  set_answers id true earlier now db c q there =
      let (mid, ran, keys) = deactivate_rivals-answers c.app_id id earlier db in
      let (end, f) =
        sure.update_answers checkpoints c.id (set_active true now) mid (keys c.id ∙ there)
          (λ r. (refl, refl, refl)) in
      (
        end,
        ground (arith, q, ran, execute_ok (e.update checkpoints c.id (set_active true now)) mid f),
      )
  set_answers id false earlier now db c q there =
      let (end, f) =
        sure.update_answers checkpoints c.id (set_active false now) db there
          (λ r. (refl, refl, refl)) in
      (end, ground (arith, q, execute_ok (e.update checkpoints c.id (set_active false now)) db f))

  -- On a database that is lawful and reliable, with unique checkpoint ids: if no checkpoint has the id, the
  -- answer is an error and nothing changes. If one has it, the call succeeds, and that row has the new status,
  -- the later time as its last update, and that time as its activation if it is switched on, or no activation;
  -- when it is switched on, the other active rows of its app are off, without an activation and with
  -- the earlier time as their last update; all else is as it was.
  pub set_checkpoint_active_lem :
      (id : I32) (is_active : Bool) (earlier now : DateTime) (db : Db)
      → Keyed checkpoints db.checkpoints
      → ((has_key checkpoints id db.checkpoints ≡ false)
          × (set_checkpoint_active e id is_active earlier now db
              ≡ (db, err "Checkpoint not found")))
        ⊎ ((c : CheckpointModel) × Has c db.checkpoints
            × (c.id ≡ id)
            × (set_checkpoint_active e id is_active earlier now db ≡ (
              record db {
                checkpoints = map (switched_row id c.app_id is_active earlier now) db.checkpoints;
              },
              ok (success_json "Checkpoint status updated successfully"),
            )))
  unfolding set_checkpoint_active
  set_checkpoint_active_lem id is_active earlier now db keyed =
      elim (one_cases e law checkpoints (λ c. c.id == id) db) [
        | inr (x, q) ↦
            let (found, p) = sure.one_answers checkpoints (λ c. c.id == id) db in
            absurd (ground (arith, p, q))
        | inl (none, q, nobody) ↦ inl (absent id db.checkpoints nobody, rw (q, and_then) refl)
        | inl (some c, q, found) ↦
            let (end, ran) =
              set_answers id is_active earlier now db c q
                (any-Has (λ x. x.id == c.id) c db.checkpoints found.0 (==_self c.id)) in
            let (d, m, at_id, after) =
              set_checkpoint_active-rows e law id is_active earlier now db keyed ran in
            inr (
              d,
              m,
              at_id,
              ran
                  ∙ ap (λ (z : Db). (z, ok (success_json "Checkpoint status updated successfully")))
                      (after
                        ∙ ap (λ cs. record db { checkpoints = cs })
                            (map_congr (after_set id d.app_id is_active earlier now) _
                              db.checkpoints
                              (λ r _. after_set-switched_row id d.app_id is_active earlier now r))),
            )
      ]
