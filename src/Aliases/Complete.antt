-- ===== src/Aliases/Complete.antt =====
-- The aliases of an app's name, and the map that get_process_aliases_by_app_names builds.
use time_tracker.Common.{
  String, ◌≡◌, refl, sym, ap, subst, ◌∙◌, ◌↔◌, inl, inr, true, false, ◌==◌, ==_iff, Option, none,
  some, List, [], ◌∷◌, map, unwrap_or, Has, Has-map, map-Has, str_eq, eq_iff, str_eq_self, Result,
  ok, Bool-cases, Option-cases, arith,
}
use time_tracker.Common.Map.{Map, lookup, insert, lookup-insert}
use time_tracker.Entities.{AppModel, AliasModel}
use time_tracker.Store.{Db, apps, process_aliases}
use time_tracker.Store.Engine.{Engine, Lawful, unordered, Selects}
use time_tracker.Store.Monad.{and_then}
use time_tracker.Store.Calls.{bind_ok, select_cases, one_cases}
use time_tracker.Events.{by_name}
use time_tracker.Registry.Names.{IsUnique}
use time_tracker.Aliases.{
  insert_some, add_aliases, aliases_of, gather_aliases, get_process_aliases_by_app_names,
}

-- Some row gives the process name to an app of this name.
abbrev pub IsAlias : Db → String → String → Type 0
IsAlias db name process =
    (a : AppModel) × (r : AliasModel) × Has a db.apps
    × (by_name name a ≡ true)
    × Has r db.process_aliases
    × (r.app_id ≡ a.id)
    × (r.process_name ≡ process)

-- The list holds those process names and no other.
abbrev pub AliasesOf : Db → String → List String → Type 0
AliasesOf db name xs = (process : String) → Has process xs ↔ IsAlias db name process

abbrev pub aliases_in : String → Map (List String) → List String
aliases_in name m = unwrap_or (lookup name m) []

one_of_name :
    (xs : List AppModel) (name : String) (a b : AppModel)
    → IsUnique xs
    → Has a xs
    → Has b xs
    → by_name name a ≡ true
    → by_name name b ≡ true
    → a ≡ b
one_of_name (x ∷ xs) name a b u (inl e) (inl f) h k = e ∙ sym f
one_of_name (x ∷ xs) name a b u (inl e) (inr n) h k =
    absurd (ground (arith, u.0 b n name (subst (λ z. by_name name z ≡ true) e h), k))
one_of_name (x ∷ xs) name a b u (inr m) (inl f) h k =
    absurd (ground (arith, u.0 a m name (subst (λ z. by_name name z ≡ true) f k), h))
one_of_name (x ∷ xs) name a b u (inr m) (inr n) h k = one_of_name xs name a b u.1 m n h k
one_of_name [] name a b u m n h k = absurd m

ok_path : {A : Type 0} {x y : A} → ok x ≡ ok y → x ≡ y
ok_path h = cc

-- What two equal results have.
returned :
    {A : Type 0} {s t : Db} {x y : A}
    → ◌≡◌ {A = Db × Result A} (s, ok x) (t, ok y)
    → (t ≡ s) × (x ≡ y)
returned {A} h =
    (sym (ap (λ (z : Db × Result A). z.0) h), ok_path (ap (λ (z : Db × Result A). z.1) h))

module _ (e : Engine) (law : Lawful e) (db : Db) (unique : IsUnique db.apps) where
  no_app :
      (name : String)
      → ((a : AppModel) → Has a db.apps → by_name name a ≡ false)
      → AliasesOf db name []
  no_app name none_named process = (
    (λ m. absurd m),
    (λ (a, r, m, n, stored, same, q). absurd (ground (arith, none_named a m, n))),
  )

  listed-AliasesOf :
      (name : String) (a : AppModel) (rs : List AliasModel)
      → Has a db.apps
      → by_name name a ≡ true
      → Selects process_aliases (λ r. r.app_id == a.id) unordered db rs
      → AliasesOf db name (map (λ (r : AliasModel). r.process_name) rs)
  listed-AliasesOf name a rs m n sel process = (
    (λ h.
        let (r, k, q) = map-Has (λ (r : AliasModel). r.process_name) process rs h in
        let (stored, same) = sel.sound r k in
        (a, r, m, n, stored, (==_iff r.app_id a.id).0 same, sym q)),
    (λ (b, r, bm, bn, stored, same, q).
        let ba : b ≡ a = one_of_name db.apps name b a unique bm m bn n in
        let at_a : r.app_id ≡ a.id = same ∙ ap (λ (z : AppModel). z.id) ba in
        subst (λ p. Has p (map (λ (r : AliasModel). r.process_name) rs)) q
          (Has-map (λ (r : AliasModel). r.process_name) r rs
            (sel.complete r stored ((==_iff r.app_id a.id).1 at_a)))),
  )

  -- What is in the map is right, also for the names that are not asked for.
  abbrev Sound : Map (List String) → Type 0
  Sound m = (k : String) (xs : List String) → lookup k m ≡ some xs → AliasesOf db k xs

  abbrev Right : String → Map (List String) → Type 0
  Right k m = AliasesOf db k (aliases_in k m)

  unwrap_some : {xs ys : List String} → some xs ≡ some ys → xs ≡ ys
  unwrap_some h = cc

  Sound-Right :
      (name : String) (m : Map (List String)) → Sound m → AliasesOf db name [] → Right name m
  Sound-Right name m sound nothing = elim (Option-cases (lookup name m)) [
    | inl q ↦ rw q nothing
    | inr (ys, q) ↦ rw q (sound name ys q)
  ]

  -- Only the looked up answers of a map count.
  Right-lookup :
      (k : String) (m : Map (List String)) (o : Option (List String))
      → lookup k m ≡ o
      → AliasesOf db k (unwrap_or o [])
      → Right k m
  Right-lookup k m o q h =
      subst (λ (z : Option (List String)). AliasesOf db k (unwrap_or z [])) (sym q) h

  insert-Sound :
      (name : String) (xs : List String) (m : Map (List String))
      → AliasesOf db name xs
      → Sound m
      → Sound (insert name xs m)
        × Right name (insert name xs m)
        × ((k : String) → Right k m → Right k (insert name xs m))
  insert-Sound name xs m right sound =
      let at = λ (k : String) (same : str_eq name k ≡ true).
        lookup-insert {V = List String} name k xs m ∙ rw same refl in
      let off = λ (k : String) (other : str_eq name k ≡ false).
        lookup-insert {V = List String} name k xs m ∙ rw other refl in
      let moved = λ (k : String) (same : str_eq name k ≡ true).
        subst (λ z. AliasesOf db z xs) ((eq_iff name k).0 same) right in
      (
        (λ k ys h. elim (Bool-cases (str_eq name k)) [
          | inl same ↦ subst (AliasesOf db k) (unwrap_some (sym (at k same) ∙ h)) (moved k same)
          | inr other ↦ sound k ys (sym (off k other) ∙ h)
        ]),
        Right-lookup name _ (some xs) (at name (str_eq_self name)) right,
        (λ k old. elim (Bool-cases (str_eq name k)) [
          | inl same ↦ Right-lookup k _ (some xs) (at k same) (moved k same)
          | inr other ↦ Right-lookup k _ (lookup k m) (off k other) old
        ]),
      )

  insert_some-Sound :
      (name : String) (xs : List String) (m : Map (List String))
      → AliasesOf db name xs
      → Sound m
      → Sound (insert_some name m xs)
        × Right name (insert_some name m xs)
        × ((k : String) → Right k m → Right k (insert_some name m xs))
  insert_some-Sound name [] m right sound = (sound, Sound-Right name m sound right, (λ k old. old))
  insert_some-Sound name (x ∷ xs) m right sound = insert-Sound name (x ∷ xs) m right sound

  aliases_of-Sound :
      (name : String) (m : Map (List String)) {db' : Db} {m' : Map (List String)}
      → Sound m
      → aliases_of e name m db ≡ (db', ok m')
      → (db' ≡ db) × Sound m' × Right name m' × ((k : String) → Right k m → Right k m')
  unfolding aliases_of add_aliases
  aliases_of-Sound name m {db'} {m'} sound h = elim (one_cases e law apps (by_name name) db) [
    | inr (x, q) ↦ absurd (ground (arith, q, h))
    | inl (none, q, nobody) ↦
        let (kept, same) = returned {A = Map (List String)} (rw (q, and_then) at h) in
        (
          kept,
          subst Sound same sound,
          subst (Right name) same (Sound-Right name m sound (no_app name nobody)),
          (λ k old. subst (Right k) same old),
        )
    | inl (some a, q, found) ↦
        elim (select_cases e law process_aliases (λ r. r.app_id == a.id) unordered db) [
          | inr (x, p) ↦ absurd (ground (arith, q, p, h))
          | inl (rs, p, sel) ↦
              let xs = map (λ (r : AliasModel). r.process_name) rs in
              let (kept, same) = returned {A = Map (List String)} (rw (q, and_then, p) at h) in
              let (all, here, old) =
                insert_some-Sound name xs m (listed-AliasesOf name a rs found.0 found.1 sel)
                  sound in
              (
                kept,
                subst Sound same all,
                subst (Right name) same here,
                (λ k h. subst (Right k) same (old k h)),
              )
        ]
  ]

  gather_aliases-Sound :
      (names : List String) (m : Map (List String)) {db' : Db} {m' : Map (List String)}
      → Sound m
      → gather_aliases e names m db ≡ (db', ok m')
      → (db' ≡ db)
        × ((k : String) → Has k names → Right k m')
        × ((k : String) → Right k m → Right k m')
  unfolding gather_aliases
  gather_aliases-Sound [] m sound h =
      let (kept, same) = returned {A = Map (List String)} h in
      (kept, (λ k n. absurd n), (λ k old. subst (Right k) same old))
  gather_aliases-Sound (name ∷ names) m {db'} {m'} sound h =
      let (mid_map, mid, first, rest) =
        bind_ok (aliases_of e name m) (gather_aliases e names) db h in
      let (stays, all, here, old) = aliases_of-Sound name m sound first in
      let (kept, later, older) =
        gather_aliases-Sound names mid_map all
          (subst (λ z. gather_aliases e names mid_map z ≡ (db', ok m')) stays rest) in
      (
        kept,
        (λ k n. elim n [
          | inl q ↦ older k (subst (λ z. Right z mid_map) (sym q) here)
          | inr n' ↦ later k n'
        ]),
        (λ k right. older k (old k right)),
      )

  -- On a lawful database in which no two apps have the same name: if the queries succeed, the database is
  -- as before, and for each app name that was asked for, the list in the map (or the empty list, where
  -- the map has none) holds exactly the process names that some alias row gives to the app of that name.
  pub get_process_aliases_by_app_names_lem :
      (names : List String) {db' : Db} {m : Map (List String)}
      → get_process_aliases_by_app_names e names db ≡ (db', ok m)
      → (db' ≡ db) × ((k : String) → Has k names → AliasesOf db k (aliases_in k m))
  unfolding get_process_aliases_by_app_names lookup
  get_process_aliases_by_app_names_lem names h =
      let (kept, right, old) = gather_aliases-Sound names [] (λ k xs q. cc) h in (kept, right)
