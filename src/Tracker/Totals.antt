-- ===== src/Tracker/Totals.antt =====
-- What a tracking thread's ticks add up to in the database.
use time_tracker.Common.{
  map-map, ℕ, zero, suc, ◌+◌, ◌%◌, ◌<◌, String, ◌≡◌, refl, sym, ap, subst, ◌∙◌, inl, inr, Bool,
  true, ◌==◌, ==_self, Bool-cases, some, List, [], ◌∷◌, map, Has, Has-map, map-Has, map_congr,
  if◌then◌else◌, unwrap_or, arith,
}
use time_tracker.Common.Word.{I32, i32_mod, add32}
use time_tracker.Entities.{AppModel, Date, DateTime}
use time_tracker.Store.{Db, apps}
use time_tracker.Store.Engine.{Engine, Lawful, Reliable}
use time_tracker.Store.Codec.{Codec}
use time_tracker.Queries.Activation.{Keyed}
use time_tracker.Registry.Names.{IsUnique}
use time_tracker.Events.{ReceiveType, duration, timeline_tick, by_name, bump, handle_event}
use time_tracker.Events.Effects.{effect_of, Changes, handle_event-apps}
use time_tracker.Tracker.{Thread, looping}
use time_tracker.Tracker.Threads.{View, run_thread, run_thread_lem, events, ticks_of, counted}

-- One round of the event loop: whether somebody listens, the clock, and the event.
pub record Received : Type 0 where
  pub active : Bool
  pub today : Date
  pub now : DateTime
  pub event : String × ReceiveType

-- The row once `n` ticks of the app `a` have been counted.
abbrev pub ticked : ℕ → AppModel → AppModel → AppModel
ticked zero a r = r
ticked (suc n) a r = record r { duration = some ((unwrap_or a.duration 0 + suc n) % i32_mod) }

abbrev pub at_id : (AppModel → AppModel) → I32 → AppModel → AppModel
at_id f id r = if r.id == id then f r else r

unique_name :
    (xs : List AppModel) (p : String) (a b : AppModel)
    → IsUnique xs
    → Has a xs
    → Has b xs
    → by_name p a ≡ true
    → by_name p b ≡ true
    → a ≡ b
unique_name (x ∷ xs) p a b u (inl e) (inl f) n m = e ∙ sym f
unique_name (x ∷ xs) p a b u (inl e) (inr f) n m =
    absurd (ground (arith, u.0 b f p (subst (λ y. by_name p y ≡ true) e n), m))
unique_name (x ∷ xs) p a b u (inr e) (inl f) n m =
    absurd (ground (arith, u.0 a e p (subst (λ y. by_name p y ≡ true) f m), n))
unique_name (x ∷ xs) p a b u (inr e) (inr f) n m = unique_name xs p a b u.1 e f n m
unique_name [] p a b u e f n m = absurd e

-- Rows that keep their names and their ids.
map-IsUnique :
    (f : AppModel → AppModel) (xs : List AppModel)
    → ((r : AppModel) (p : String) → by_name p (f r) ≡ by_name p r)
    → IsUnique xs
    → IsUnique (map f xs)
map-IsUnique f [] same u = tt
map-IsUnique f (x ∷ xs) same u = (
  (λ b m p h.
      let (y, n, e) = map-Has f b xs m in
      ap (by_name p) e ∙ same y p ∙ u.0 y n p (sym (same x p) ∙ h)),
  map-IsUnique f xs same u.1,
)

map-Keyed :
    (f : AppModel → AppModel) (xs : List AppModel)
    → ((r : AppModel) → (f r).id ≡ r.id)
    → Keyed apps xs
    → Keyed apps (map f xs)
map-Keyed f xs same keyed r s m n h =
    let (x, mx, e) = map-Has f r xs m in
    let (y, my, g) = map-Has f s xs n in
    e
    ∙ ap f (
        keyed x y mx my (
          sym (ap (λ (z : AppModel). z.id) e ∙ same x)
          ∙ h
          ∙ ap (λ (z : AppModel). z.id) g
          ∙ same y))
    ∙ sym g

map_id : {A : Type 0} (f : A → A) (xs : List A) → ((x : A) → f x ≡ x) → map f xs ≡ xs
map_id f [] h = refl
map_id f (x ∷ xs) h = cc (h x, map_id f xs h)

-- The first tick changes the row, and the others go on from there.
first_tick : AppModel → AppModel → AppModel
first_tick a r = record r { duration = some (bump a.duration) }

ticked-suc :
    (n : ℕ) (a r : AppModel)
    → at_id (ticked n (first_tick a a)) a.id (at_id (first_tick a) a.id r)
      ≡ at_id (ticked (suc n) a) a.id r
unfolding first_tick
ticked-suc zero a r = ground arith
ticked-suc (suc n) a r = elim (Bool-cases (r.id == a.id)) [
  | inl h ↦
      let sum : (add32 (unwrap_or a.duration 0) 1 + suc n) % i32_mod
          ≡ (unwrap_or a.duration 0 + suc (suc n)) % i32_mod =
        omega arith in
      rw (h, h) (ap (λ (d : I32). record r { duration = some d }) sum)
  | inr h ↦ rw (h, h) refl
]

module _ (e : Engine) (codec : Codec) where
  unfoldable pub handle_events : List Received → Db → Db
  handle_events [] db = db
  handle_events (r ∷ rest) db =
      handle_events rest (handle_event e codec r.active r.today r.now r.event db).0

  module _ (law : Lawful e) (sure : Reliable e) where
    changed_row :
        (effect : AppModel → AppModel → AppModel) (p : String) (db db' : Db) (a : AppModel)
        → Has a db.apps
        → by_name p a ≡ true
        → IsUnique db.apps
        → Changes effect p db db'
        → db'.apps ≡ map (at_id (effect a) a.id) db.apps
    changed_row effect p db db' a m n u (inl (nobody, q)) = absurd (ground (arith, nobody a m, n))
    changed_row effect p db db' a m n u (inr (b, mb, nb, q)) =
        q
        ∙ ap (λ (x : AppModel). map (at_id (effect x) x.id) db.apps)
            (unique_name db.apps p b a u mb m nb n)

    duration_round :
        (r : Received) (p : String) (db : Db) (a : AppModel)
        → r.event ≡ (p, duration)
        → Has a db.apps
        → by_name p a ≡ true
        → IsUnique db.apps
        → (handle_event e codec r.active r.today r.now r.event db).0.apps
          ≡ map (at_id (first_tick a) a.id) db.apps
    unfolding first_tick
    duration_round r p db a q m n u = rw q (
        changed_row (effect_of duration 0 r.today) p db _ a m n u
          (handle_event-apps e codec law sure r.active r.today r.now (p, duration) db))

    timeline_round :
        (r : Received) (p : String) (db : Db) (a : AppModel)
        → r.event ≡ (p, timeline_tick)
        → Has a db.apps
        → by_name p a ≡ true
        → IsUnique db.apps
        → (handle_event e codec r.active r.today r.now r.event db).0.apps ≡ db.apps
    timeline_round r p db a q m n u = rw q (
        changed_row (effect_of timeline_tick 0 r.today) p db _ a m n u
          (handle_event-apps e codec law sure r.active r.today r.now (p, timeline_tick) db)
        ∙ map_id (at_id (λ x. x) a.id) db.apps (λ x. ground arith))

    ticks_lem :
        (n : ℕ) (rs : List Received) (p : String) (db : Db) (a : AppModel)
        → map (λ r. r.event) rs ≡ ticks_of p n
        → Has a db.apps
        → by_name p a ≡ true
        → IsUnique db.apps
        → Keyed apps db.apps
        → (handle_events rs db).apps ≡ map (at_id (ticked n a) a.id) db.apps
    unfolding handle_events first_tick
    ticks_lem zero [] p db a q m k u keyed = sym (map_id _ db.apps (λ r. ground arith))
    ticks_lem (suc n) [] p db a q m k u keyed = cc
    ticks_lem zero (r ∷ rs) p db a q m k u keyed = cc
    ticks_lem (suc n) (r ∷ []) p db a q m k u keyed = cc
    ticks_lem (suc n) (r ∷ s ∷ rs) p db a q m k u keyed =
        let f = at_id (first_tick a) a.id in
        let a1 = first_tick a a in
        let mid = (handle_event e codec r.active r.today r.now r.event db).0 in
        let last = (handle_event e codec s.active s.today s.now s.event mid).0 in
        let one : mid.apps ≡ map f db.apps = duration_round r p db a (cc q) m k u in
        let here : f a ≡ a1 = rw (==_self a.id) refl in
        let there : Has a1 mid.apps = rw (one, sym here) (Has-map f a db.apps m) in
        let unique : IsUnique mid.apps = rw one (map-IsUnique f db.apps (λ x y. ground arith) u) in
        let same : last.apps ≡ mid.apps = timeline_round s p mid a1 (cc q) there k unique in
        let keys : Keyed apps last.apps =
          rw (same, one) (map-Keyed f db.apps (λ x. ground arith) keyed) in
        let rest : (handle_events rs last).apps ≡ map (at_id (ticked n a1) a1.id) last.apps =
          ticks_lem n rs p last a1 (cc q) (rw same there) k (rw same unique) keys in
        rest
        ∙ ap (map (at_id (ticked n a1) a1.id)) (same ∙ one)
        ∙ map-map (at_id (ticked n a1) a1.id) f db.apps
        ∙ map_congr _ _ db.apps (λ x _. ticked-suc n a x)

    -- A tracking thread's events, handled by the event loop one after the other on a lawful and reliable
    -- database with unique names and ids of apps, while nothing else writes: the duration of
    -- the app of the thread's process has grown by the number of counted ticks, as a 32-bit number, and no
    -- other row of the apps has changed.
    pub run_thread-handle_events :
        (vs : List View) (t : Thread) (rs : List Received) (db : Db) (a : AppModel)
        → t.phase ≡ looping
        → t.counter < i32_mod
        → map (λ r. r.event) rs ≡ events (run_thread looping vs t).1
        → Has a db.apps
        → by_name t.process a ≡ true
        → IsUnique db.apps
        → Keyed apps db.apps
        → (handle_events rs db).apps ≡ map (at_id (ticked (counted t.process vs) a) a.id) db.apps
    run_thread-handle_events vs t rs db a loop small sent m n u keyed =
        ticks_lem (counted t.process vs) rs t.process db a
          (sent ∙ (run_thread_lem vs t loop small).0) m n u keyed
