-- ===== src/Queries/Activation.antt =====
-- What `set_checkpoint_active` does to the table of checkpoints.
use time_tracker.Common.{
  map-map, ◌≡◌, refl, ap, ◌∙◌, inl, inr, Bool, true, false, ◌&&◌, ◌==◌, ==_iff, Bool-cases, none,
  some, List, [], ◌∷◌, map, Has, any-Has, any-witness, map_congr, if◌then◌else◌, ok, arith,
}
use time_tracker.Common.Word.{I32}
use time_tracker.Json.{Json}
use time_tracker.Entities.{CheckpointModel, DateTime}
use time_tracker.Store.{Table, Row, Db, checkpoints, key, has_key, update_rows}
use time_tracker.Store.Engine.{Engine, Order, Lawful, Selects, unordered}
use time_tracker.Store.Monad.{◌>>◌, pure, execute, for_each}
use time_tracker.Store.Calls.{bind_ok, update_cases, select_cases, one_cases}
use time_tracker.Queries.{
  deactivate, set_active, is_rival, deactivate_all, deactivate_rivals, set_checkpoint_active,
  success_json,
}

pub map_same : {A : Type 0} (f : A → A) (xs : List A) → ((x : A) → f x ≡ x) → map f xs ≡ xs
map_same f [] h = refl
map_same f (x ∷ xs) h = cc (h x, map_same f xs h)

-- A row after the loop over `cs`.
abbrev switched_off : DateTime → List CheckpointModel → CheckpointModel → CheckpointModel
switched_off now cs r = if has_key checkpoints r.id cs then deactivate now r else r

switched_off-cons :
    (now : DateTime) (c : CheckpointModel) (cs : List CheckpointModel) (r : CheckpointModel)
    → switched_off now cs (if r.id == c.id then deactivate now r else r)
      ≡ switched_off now (c ∷ cs) r
switched_off-cons now c cs r = ground arith

module _ (e : Engine) (law : Lawful e) where
  pub deactivate_all-rows :
      (now : DateTime) (cs : List CheckpointModel) (db : Db) {db' : Db}
      → deactivate_all e now cs db ≡ (db', ok tt)
      → db' ≡ record db { checkpoints = map (switched_off now cs) db.checkpoints }
  unfolding deactivate_all for_each
  deactivate_all-rows now [] db {db'} h =
      rw (map_same (switched_off now []) db.checkpoints (λ r. refl)) (ground arith)
  deactivate_all-rows now (c ∷ cs) db {db'} h =
      elim (update_cases e law checkpoints c.id (deactivate now) db) [
        | inl q ↦
            let mid : Db = record db {
              checkpoints = update_rows checkpoints c.id (deactivate now) db.checkpoints;
            } in
            deactivate_all-rows now cs mid {db' = db'} (ground arith)
            ∙ ap (λ xs. record db { checkpoints = xs })
                (map-map (switched_off now cs) _ db.checkpoints
                  ∙ map_congr _ (switched_off now (c ∷ cs)) db.checkpoints
                      (λ r _. switched_off-cons now c cs r))
        | inr (x, q) ↦ ground arith
      ]

-- No two rows share a key, as of a primary key.
abbrev pub Keyed : (t : Table) → List (Row t) → Type 0
Keyed t xs = (r s : Row t) → Has r xs → Has s xs → key t r ≡ key t s → r ≡ s

-- A row once the checkpoint `id` of `app_id` has been set.
abbrev pub after_set : I32 → I32 → Bool → DateTime → DateTime → CheckpointModel → CheckpointModel
after_set id app_id is_active earlier now r =
    if r.id == id
    then set_active is_active now r
    else if is_active && is_rival app_id id r
    then deactivate earlier r
    else r

after_set_lem :
    (k id app_id : I32) (is_active : Bool) (earlier now : DateTime) (r : CheckpointModel)
    → k ≡ id
    → let s = if is_active && is_rival app_id id r then deactivate earlier r else r in
      (if s.id == k then set_active is_active now s else s)
      ≡ after_set id app_id is_active earlier now r
after_set_lem k id app_id is_active earlier now r same = ground arith

-- The keys of the rows that a query found are those of the rows that pass its filter.
pub has_key-select :
    (p : CheckpointModel → Bool) (o : Order CheckpointModel) (db : Db) (xs : List CheckpointModel)
    (r : CheckpointModel)
    → Keyed checkpoints db.checkpoints
    → Selects checkpoints p o db xs
    → Has r db.checkpoints
    → has_key checkpoints r.id xs ≡ p r
has_key-select p o db xs r keyed sel m = elim (Bool-cases (p r)) [
  | inl e ↦ rw e (any-Has (λ x. x.id == r.id) r xs (sel.complete r m e) (ground arith))
  | inr e ↦ elim (Bool-cases (has_key checkpoints r.id xs)) [
    | inl f ↦
        let (x, hx, q) = any-witness (λ x. x.id == r.id) xs f in
        let same : x ≡ r = keyed x r (sel.sound x hx).0 m ((==_iff x.id r.id).0 q) in
        cc ((sel.sound x hx).1, ap p same)
    | inr f ↦ rw (e, f)
  ]
]

module _ (e : Engine) (law : Lawful e) where
  pub deactivate_rivals-rows :
      (app_id id : I32) (now : DateTime) (db : Db) {db' : Db}
      → Keyed checkpoints db.checkpoints
      → deactivate_rivals e app_id id now db ≡ (db', ok tt)
      → db' ≡ record db {
        checkpoints =
            map (λ r. if is_rival app_id id r then deactivate now r else r) db.checkpoints;
      }
  unfolding deactivate_rivals
  deactivate_rivals-rows app_id id now db {db'} keyed h =
      elim (select_cases e law checkpoints (is_rival app_id id) unordered db) [
        | inl (xs, q, sel) ↦
            deactivate_all-rows e law now xs db {db' = db'} (ground arith)
            ∙ ap (λ cs. record db { checkpoints = cs })
                (map_congr (switched_off now xs) _ db.checkpoints
                  (λ r m. rw (has_key-select (is_rival app_id id) unordered db xs r keyed sel m)))
        | inr (x, q) ↦ ground arith
      ]

  -- The rows after the conditional part.
  cleared-rows :
      (is_active : Bool) (app_id id : I32) (now : DateTime) (db : Db) {db' : Db}
      → Keyed checkpoints db.checkpoints
      → (if is_active then deactivate_rivals e app_id id now else pure tt) db ≡ (db', ok tt)
      → db' ≡ record db {
        checkpoints =
            map
              (λ r. if is_active && is_rival app_id id r then deactivate now r else r)
              db.checkpoints;
      }
  cleared-rows true app_id id now db keyed h = deactivate_rivals-rows app_id id now db keyed h
  cleared-rows false app_id id now db {db'} keyed h =
      rw (map_same (λ (r : CheckpointModel). r) db.checkpoints (λ r. refl)) (ground arith)

  -- A successful `set_checkpoint_active` found the checkpoint, and rewrote it and its rivals only.
  pub set_checkpoint_active-rows :
      (id : I32) (is_active : Bool) (earlier now : DateTime) (db : Db) {db' : Db} {v : Json}
      → Keyed checkpoints db.checkpoints
      → set_checkpoint_active e id is_active earlier now db ≡ (db', ok v)
      → (c : CheckpointModel) × Has c db.checkpoints
        × (c.id ≡ id)
        × (db' ≡ record db {
          checkpoints = map (after_set id c.app_id is_active earlier now) db.checkpoints;
        })
  unfolding set_checkpoint_active
  set_checkpoint_active-rows id is_active earlier now db {db'} {v} keyed h =
      elim (one_cases e law checkpoints (λ c. c.id == id) db) [
        | inl (none, q, _) ↦ ground arith
        | inl (some c, q, found) ↦
            (c, found.0, (==_iff c.id id).0 found.1, rest c q ((==_iff c.id id).0 found.1))
        | inr (x, q) ↦ ground arith
      ]
    where
      rest :
          (c : CheckpointModel)
          → e.one checkpoints (λ c. c.id == id) db ≡ ok (some c)
          → c.id ≡ id
          → db' ≡ record db {
            checkpoints = map (after_set id c.app_id is_active earlier now) db.checkpoints;
          }
      rest c q same =
          let first = if is_active then deactivate_rivals e c.app_id id earlier else pure tt in
          let final = execute (e.update checkpoints c.id (set_active is_active now)) in
          let done = success_json "Checkpoint status updated successfully" in
          let (_, mid, ran, h') =
            bind_ok first (λ _. final >> pure done) db {db' = db'} {b = v} (ground arith) in
          let cleared = cleared-rows is_active c.app_id id earlier db keyed ran in
          elim (update_cases e law checkpoints c.id (set_active is_active now) mid) [
            | inl wrote ↦
                let written : db' ≡ record mid {
                  checkpoints =
                      update_rows checkpoints c.id (set_active is_active now) mid.checkpoints;
                } =
                  ground arith in
                written
                ∙ rw cleared (
                    ap (λ xs. record db { checkpoints = xs })
                      (map-map _ _ db.checkpoints
                        ∙ map_congr _ (after_set id c.app_id is_active earlier now) db.checkpoints
                            (λ r _. after_set_lem c.id id c.app_id is_active earlier now r same)))
            | inr (x, failed) ↦ ground arith
          ]
