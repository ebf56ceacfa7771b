-- ===== src/Events/Ticks.antt =====
-- What a Timeline event does to the timeline.
use time_tracker.Common.{
  ◌+◌, ◌<◌, ◌≤◌, String, ◌≡◌, refl, sym, subst, ◌∙◌, ◌⊎◌, inl, inr, Bool, true, false, ◌==◌, ==_iff,
  Bool-cases, Option, none, some, List, [], ◌∷◌, ◌++◌, map, Has, any-witness, any-Has, ==_self, All,
  if◌then◌else◌, ok, arith,
}
use time_tracker.Common.Word.{I32, i32_mod, rank, add32}
use time_tracker.Entities.{AppModel, TimelineModel, CheckpointModel, Date}
use time_tracker.Store.{Db, apps, timeline, checkpoints, has_key}
use time_tracker.Store.Engine.{Engine, Lawful, Reliable, Selects, desc, IsMaxId, InOrder, Before}
use time_tracker.Store.Monad.{and_then, executed}
use time_tracker.Store.Codec.{Codec, RoundTrips, decode-model_to_json}
use time_tracker.Store.Calls.{on_ok, one_cases}
use time_tracker.Queries.{get_active_checkpoints_for_app, select_json, is_active_for, by_id}
use time_tracker.Events.{
  by_name, bump, next_id, is_entry, get_first_active_checkpoint_id, insert_entry, add_to_timeline,
  tick_timeline, with_app, handle_timeline,
}

-- The active checkpoint of the app with the greatest id, or none if the app has no active one.
abbrev pub IsNewestActive : I32 → Db → Option I32 → Type 0
IsNewestActive app_id db none =
    (c : CheckpointModel) → Has c db.checkpoints → is_active_for app_id c ≡ false
IsNewestActive app_id db (some k) =
    (c : CheckpointModel) × Has c db.checkpoints
    × (is_active_for app_id c ≡ true)
    × (c.id ≡ k)
    × ((d : CheckpointModel)
        → Has d db.checkpoints
        → is_active_for app_id d ≡ true
        → rank d.id ≤ rank k)

All-at : {A : Type 0} (P : A → Type 0) (x : A) (xs : List A) → All P xs → Has x xs → P x
All-at P x (y ∷ ys) h (inl m) = subst P (sym m) h.0
All-at P x (y ∷ ys) h (inr m) = All-at P x ys h.1 m
All-at P x [] h m = absurd m

-- The first row in a descending order is the greatest.
first_greatest :
    (c : CheckpointModel) (cs : List CheckpointModel)
    → InOrder (desc by_id) (c ∷ cs)
    → (d : CheckpointModel) → Has d (c ∷ cs)
    → rank d.id ≤ rank c.id
first_greatest c cs order d (inl m) = rw m (omega arith)
first_greatest c cs order d (inr m) = All-at (Before (desc by_id) c) d cs order.0 m

new_entry : I32 → Date → Option I32 → Option I32 → TimelineModel
new_entry app_id today max checkpoint_id = record {
  id = next_id max;
  date = today;
  duration = some 1;
  app_id = app_id;
  checkpoint_id = checkpoint_id;
}

-- The key of a new entry is no other's, if the greatest id is not the last of the 32-bit numbers.
next_id-fresh :
    (max : Option I32) (xs : List TimelineModel)
    → IsMaxId timeline xs max
    → ((r : TimelineModel) → Has r xs → rank r.id + 1 < i32_mod)
    → has_key timeline (next_id max) xs ≡ false
next_id-fresh none xs h room = rw h refl
next_id-fresh (some m) xs h room = elim (Bool-cases (has_key timeline (add32 m 1) xs)) [
  | inr e ↦ e
  | inl e ↦
      let (r, n, q) = any-witness (λ r. r.id == add32 m 1) xs e in
      let (s, k, g) = any-witness (λ r. r.id == m) xs h.0 in
      let above = h.1 r n in
      let same_r : r.id ≡ add32 m 1 = (==_iff r.id (add32 m 1)).0 q in
      let same_s : s.id ≡ m = (==_iff s.id m).0 g in
      absurd (omega (arith, above, same_r, same_s, room s k))
]

module _ (e : Engine) (codec : Codec) (law : Lawful e) (sure : Reliable e)
    (round : RoundTrips codec) where
  newest :
      (app_id : I32) (db : Db) (xs : List CheckpointModel)
      → e.select checkpoints (is_active_for app_id) (desc by_id) db ≡ ok xs
      → Selects checkpoints (is_active_for app_id) (desc by_id) db xs
      → IsNewestActive app_id db (get_first_active_checkpoint_id e codec app_id db)
  unfolding get_first_active_checkpoint_id get_active_checkpoints_for_app select_json
  newest app_id db [] q sel =
      rw (q, and_then)
        (λ c m. elim (Bool-cases (is_active_for app_id c)) [
          | inl h ↦ absurd (sel.complete c m h)
          | inr h ↦ h
        ])
  newest app_id db (c ∷ cs) q sel =
      rw (q, and_then, decode-model_to_json codec round c)
        (
          c,
          (sel.sound c (inl refl)).0,
          (sel.sound c (inl refl)).1,
          refl,
          λ d m h. first_greatest c cs sel.in_order d (sel.complete d m h),
        )

  get_first_active_checkpoint_id_lem :
      (app_id : I32) (db : Db)
      → IsNewestActive app_id db (get_first_active_checkpoint_id e codec app_id db)
  get_first_active_checkpoint_id_lem app_id db =
      let (xs, q) = sure.select_answers checkpoints (is_active_for app_id) (desc by_id) db in
      newest app_id db xs q
        (on_ok _ _ (law.select_law checkpoints (is_active_for app_id) (desc by_id) db) q)

  -- The entry of the app and the day grows by one, or there is none and one more row is added, with a
  -- fresh id, the length 1, and the newest active checkpoint of the app.
  abbrev pub TicksTimeline : AppModel → Date → Db → Db → Type 0
  TicksTimeline a today db db' =
      ((r : TimelineModel) × Has r db.timeline
        × (is_entry a.id today r ≡ true)
        × (db' ≡ record db {
          timeline =
              map (λ x. if x.id == r.id then record x { duration = some (bump r.duration) } else x)
                db.timeline;
        }))
      ⊎ (((r : TimelineModel) → Has r db.timeline → is_entry a.id today r ≡ false)
          × ((k : I32) × (checkpoint_id : Option I32) × (has_key timeline k db.timeline ≡ false)
              × IsNewestActive a.id db checkpoint_id
              × (db' ≡ record db {
                timeline =
                    db.timeline
                    ++ record {
                      id = k;
                      date = today;
                      duration = some 1;
                      app_id = a.id;
                      checkpoint_id = checkpoint_id;
                    }
                      ∷ [];
              })))

  known_checkpoint :
      (app_id : I32) (db : Db) (o : Option I32)
      → IsNewestActive app_id db o
      → (k : I32) → o ≡ some k
      → (c : CheckpointModel) × Has c db.checkpoints × (c.id ≡ k)
  known_checkpoint app_id db none h k q = cc
  known_checkpoint app_id db (some j) h k q = (h.0, h.1, h.3 ∙ cc q)

  tick_timeline_lem :
      (a : AppModel) (today : Date) (db : Db)
      → Has a db.apps
      → ((r : TimelineModel) → Has r db.timeline → rank r.id + 1 < i32_mod)
      → TicksTimeline a today db (tick_timeline e codec today a db).0
  unfolding tick_timeline add_to_timeline insert_entry new_entry
  tick_timeline_lem a today db there room =
      elim (one_cases e law timeline (is_entry a.id today) db) [
        | inr (x, q) ↦
            let (found, p) = sure.one_answers timeline (is_entry a.id today) db in
            absurd (ground (arith, p, q))
        | inl (some r, q, found) ↦
            let f : TimelineModel → TimelineModel =
              λ x. record x { duration = some (bump r.duration) } in
            let (db', p) =
              sure.update_answers timeline r.id f db
                (any-Has (λ x. x.id == r.id) r db.timeline found.0 (==_self r.id))
                (λ x. (refl, refl, refl)) in
            let wrote = on_ok _ _ (law.update_law timeline r.id f db) p in
            inl (r, found.0, found.1, rw (q, and_then, add_to_timeline, p, executed) wrote)
        | inl (none, q, nothing) ↦
            let (max, g) = sure.max_id_answers timeline db in
            let top = on_ok _ _ (law.max_id_law timeline db) g in
            let free = next_id-fresh max db.timeline top room in
            let newest_id = get_first_active_checkpoint_id e codec a.id db in
            let known = get_first_active_checkpoint_id_lem a.id db in
            let row = new_entry a.id today max newest_id in
            let (db', p) =
              sure.insert_answers timeline row db free refl
                ((a, there, refl), known_checkpoint a.id db newest_id known) in
            let put = on_ok _ _ (law.insert_law timeline row db) p in
            inr (
              nothing,
              (
                next_id max,
                newest_id,
                free,
                known,
                rw (q, and_then, add_to_timeline, g, insert_entry, p, executed) put.1,
              ),
            )
      ]

  -- A Timeline event on a lawful and reliable database, with a serialization that reads checkpoints back as
  -- they were, and no entry under the last 32-bit id: if no app has the name, nothing changes; otherwise some
  -- app has it, and either an entry of that app and day has its duration raised by one, modulo 2^32 (from an
  -- empty duration as from 0), or there is no such entry and one is added, with a fresh id, the duration 1,
  -- and the newest active checkpoint of the app, if it has one. No row under another id and no other table
  -- changes.
  pub handle_timeline_lem :
      (active : Bool) (item : String) (today : Date) (db : Db)
      → ((r : TimelineModel) → Has r db.timeline → rank r.id + 1 < i32_mod)
      → (((a : AppModel) → Has a db.apps → by_name item a ≡ false)
          × ((handle_timeline e codec active item today db).0 ≡ db))
        ⊎ ((a : AppModel) × Has a db.apps
            × (by_name item a ≡ true)
            × TicksTimeline a today db (handle_timeline e codec active item today db).0)
  unfolding handle_timeline with_app
  handle_timeline_lem active item today db room = elim (one_cases e law apps (by_name item) db) [
    | inr (x, q) ↦
        let (found, p) = sure.one_answers apps (by_name item) db in absurd (ground (arith, p, q))
    | inl (none, q, nobody) ↦ inl (nobody, rw (q, and_then) refl)
    | inl (some a, q, found) ↦
        inr (a, found.0, found.1, rw (q, and_then) (tick_timeline_lem a today db found.0 room))
  ]
