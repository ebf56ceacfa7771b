-- ===== src/Events/Rounds.antt =====
-- The rounds of the event loop over the active checkpoints of an app.
use time_tracker.Common.{
  ◌≡◌, refl, sym, ap, ◌∙◌, inl, inr, true, false, ◌==◌, ==_iff, ==_self, Bool-cases, none, some,
  List, [], ◌∷◌, map, map-map, map_congr, Has, any-Has, any-witness, if◌then◌else◌, ok, arith,
}
use time_tracker.Common.Word.{I32}
use time_tracker.Json.{array, of_list, to_list-of_list}
use time_tracker.Entities.{CheckpointModel}
use time_tracker.Store.{Db, checkpoints, has_key, update_rows}
use time_tracker.Store.Engine.{Engine, Lawful, Reliable, Leaves, desc}
use time_tracker.Store.Monad.{and_then, executed, for_each}
use time_tracker.Store.Codec.{Codec, RoundTrips, model_to_json, decode-model_to_json}
use time_tracker.Store.Calls.{then_ok, on_ok, one_cases}
use time_tracker.Queries.{get_active_checkpoints_for_app, select_json, is_active_for, by_id}
use time_tracker.Queries.Activation.{Keyed, map_same, has_key-select}
use time_tracker.Events.{update_checkpoint, update_each, update_listed, update_checkpoints}

has_key-update :
    (j k : I32) (f : CheckpointModel → CheckpointModel) (cs : List CheckpointModel)
    → Leaves checkpoints f
    → has_key checkpoints k (update_rows checkpoints j f cs) ≡ has_key checkpoints k cs
has_key-update j k f [] kept = refl
has_key-update j k f (c ∷ cs) kept = ground (arith, (kept c).0, has_key-update j k f cs kept)

-- An update that depends on the row that was read, changes no keys, and does the same when repeated.
pub record Settles (set : CheckpointModel → CheckpointModel → CheckpointModel) : Type 0 where
  pub leaves : (c : CheckpointModel) → Leaves checkpoints (set c)
  pub again : (c r : CheckpointModel) → set c (set c r) ≡ set c r

module _ (set : CheckpointModel → CheckpointModel → CheckpointModel) (settles : Settles set) where
  -- A row after the rounds over `cs`.
  abbrev stepped : List CheckpointModel → CheckpointModel → CheckpointModel
  stepped [] r = r
  stepped (c ∷ cs) r = stepped cs (if r.id == c.id then set c r else r)

  -- The rows that were read are rows of the table, so one of the same key is the row itself.
  abbrev OwnRow : List CheckpointModel → CheckpointModel → Type 0
  OwnRow cs r = (c : CheckpointModel) → Has c cs → c.id ≡ r.id → c ≡ r

  stepped-set :
      (cs : List CheckpointModel) (r : CheckpointModel)
      → OwnRow cs r
      → stepped cs (set r r) ≡ set r r
  stepped-set [] r own = refl
  stepped-set (c ∷ cs) r own = elim (Bool-cases ((set r r).id == c.id)) [
    | inr e ↦ rw e (stepped-set cs r (λ d m. own d (inr m)))
    | inl e ↦
        let same : c ≡ r =
          own c (inl refl) (sym ((==_iff (set r r).id c.id).0 e) ∙ (settles.leaves r r).0) in
        rw (e, same, settles.again r r) (stepped-set cs r (λ d m. own d (inr m)))
  ]

  stepped_lem :
      (cs : List CheckpointModel) (r : CheckpointModel)
      → OwnRow cs r
      → stepped cs r ≡ (if has_key checkpoints r.id cs then set r r else r)
  stepped_lem [] r own = refl
  stepped_lem (c ∷ cs) r own = elim (Bool-cases (r.id == c.id)) [
    | inr e ↦
        let other : (c.id == r.id) ≡ false = ground (arith, e) in
        rw (e, other) (stepped_lem cs r (λ d m. own d (inr m)))
    | inl e ↦
        let same : c ≡ r = own c (inl refl) (sym ((==_iff r.id c.id).0 e)) in
        rw (e, same, ==_self r.id) (stepped-set cs r (λ d m. own d (inr m)))
  ]

module _ (e : Engine) (codec : Codec) (law : Lawful e) (sure : Reliable e)
    (round : RoundTrips codec) where
  module _ (set : CheckpointModel → CheckpointModel → CheckpointModel) (settles : Settles set) where
    update_checkpoint_lem :
        (c : CheckpointModel) (db : Db)
        → has_key checkpoints c.id db.checkpoints ≡ true
        → update_checkpoint e codec set (model_to_json codec checkpoints c) db
          ≡ (record db { checkpoints = update_rows checkpoints c.id (set c) db.checkpoints }, ok tt)
    unfolding update_checkpoint
    update_checkpoint_lem c db there = elim (one_cases e law checkpoints (λ r. r.id == c.id) db) [
      | inr (x, q) ↦
          let (found, p) = sure.one_answers checkpoints (λ r. r.id == c.id) db in
          absurd (ground (arith, p, q))
      | inl (none, q, nobody) ↦
          let (r, m, h) = any-witness (λ r. r.id == c.id) db.checkpoints there in
          absurd (ground (arith, nobody r m, h))
      | inl (some r, q, found) ↦
          let same = (==_iff r.id c.id).0 found.1 in
          let (db', p) =
            sure.update_answers checkpoints r.id (set c) db
              (any-Has (λ x. x.id == r.id) r db.checkpoints found.0 (==_self r.id))
              (settles.leaves c) in
          let wrote = on_ok _ _ (law.update_law checkpoints r.id (set c) db) p in
          rw (update_checkpoint, decode-model_to_json codec round c, q, p, executed, wrote, same)
            refl
    ]

    update_each_lem :
        (cs : List CheckpointModel) (db : Db)
        → ((c : CheckpointModel) → Has c cs → has_key checkpoints c.id db.checkpoints ≡ true)
        → update_each e codec set (map (model_to_json codec checkpoints) cs) db
          ≡ (record db { checkpoints = map (stepped set settles cs) db.checkpoints }, ok tt)
    unfolding update_each for_each
    update_each_lem [] db there =
        rw (map_same (stepped set settles []) db.checkpoints (λ r. refl)) refl
    update_each_lem (c ∷ cs) db there =
        let mid : Db = record db {
          checkpoints = update_rows checkpoints c.id (set c) db.checkpoints;
        } in
        let rest = update_each_lem cs mid (λ d m.
          has_key-update c.id d.id (set c) db.checkpoints (settles.leaves c) ∙ there d (inr m)) in
        then_ok (update_checkpoint e codec set (model_to_json codec checkpoints c))
          (λ _. update_each e codec set (map (model_to_json codec checkpoints) cs)) db
          (update_checkpoint_lem c db (there c (inl refl)))
        ∙ rest
        ∙ ap (λ xs. (record db { checkpoints = xs }, ok tt))
            (map-map (stepped set settles cs) (λ r. if r.id == c.id then set c r else r)
              db.checkpoints)

    -- The rows of the app that are active are updated, each by its own columns.
    pub update_checkpoints_lem :
        (app_id : I32) (db : Db)
        → Keyed checkpoints db.checkpoints
        → update_checkpoints e codec set app_id db ≡ (
          record db {
            checkpoints = map (λ c. if is_active_for app_id c then set c c else c) db.checkpoints;
          },
          ok tt,
        )
    unfolding update_checkpoints update_listed get_active_checkpoints_for_app select_json
    update_checkpoints_lem app_id db keyed =
        let p = is_active_for app_id in
        let (xs, q) = sure.select_answers checkpoints p (desc by_id) db in
        let sel = on_ok _ _ (law.select_law checkpoints p (desc by_id) db) q in
        let there = λ (c : CheckpointModel) (m : Has c xs).
          any-Has (λ x. x.id == c.id) c db.checkpoints (sel.sound c m).0 (==_self c.id) in
        let values = map (model_to_json codec checkpoints) xs in
        let read : get_active_checkpoints_for_app e codec app_id db
            ≡ (db, ok (array (of_list values))) =
          rw (q, and_then) refl in
        then_ok (get_active_checkpoints_for_app e codec app_id) (update_listed e codec set) db read
        ∙ rw (to_list-of_list values) (update_each_lem xs db there)
        ∙ ap (λ cs. (record db { checkpoints = cs }, ok tt))
            (map_congr (stepped set settles xs) _ db.checkpoints (λ r m.
              stepped_lem set settles xs r (λ c n same. keyed c r (sel.sound c n).0 m same)
              ∙ rw (has_key-select p (desc by_id) db xs r keyed sel m) refl))
