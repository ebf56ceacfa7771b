-- ===== src/Registry/Consistent.antt =====
-- The process map and the apps table under add_process and delete_process.
use time_tracker.Common.{
  String, ◌≡◌, refl, sym, subst, Bool, true, false, Option, none, some, List, [], ◌∷◌, ◌++◌,
  filter_map, str_eq, str_eq_self, eq_iff, ok, err, Result-cases, Bool-cases, Option-cases, ◌⊎◌,
  inl, inr, Has, Has-filter, Has-append_left, Has-append_right, unwrap_or, arith,
}
use time_tracker.Common.Map.{lookup, insert, lookup-insert, lookup-remove}
use time_tracker.Entities.{AppModel}
use time_tracker.Store.{Db, apps, delete_rows, delete_apps, delete_checkpoints}
use time_tracker.Store.Engine.{Engine, Lawful, unordered}
use time_tracker.Store.Monad.{and_then, executed}
use time_tracker.Store.Codec.{Codec}
use time_tracker.Store.Calls.{on_ok, delete_cases, select_cases}
use time_tracker.Events.{by_name, get_processes, put_data, insert_app, delete_data, next_id}
use time_tracker.Processes.{contains}
use time_tracker.Tracker.{ProcessMap}
use time_tracker.Registry.{
  Registry, rejected, load_processes, finish_add, add_unless_known, add_process, finish_delete,
  delete_process, already_added, start,
}
use time_tracker.Registry.Names.{
  by_name-other, IsUnique, IsRegistered, filter-IsUnique, append-IsUnique, contains-names,
}

module _ (e : Engine) (c : Codec) (law : Lawful e) where
  pub delete_process-IsRegistered :
      (active : Bool) (p : String) (g : Registry)
      → IsRegistered g
      → IsRegistered (delete_process e c active p g).registry
  unfolding delete_process finish_delete delete_data delete_rows delete_apps delete_checkpoints
  delete_process-IsRegistered active p g v = elim (delete_cases e law apps (by_name p) g.db) [
    | inr (x, q) ↦ rw (q, executed) v
    | inl q ↦
        rw (q, executed)
          (record {
            named = λ k entry h.
                let other = lookup-remove p k g.processes in
                elim (Bool-cases (str_eq p k)) [
                  | inl same ↦ absurd (ground (arith, h, other))
                  | inr differ ↦
                      let (a, m, n) = v.named k entry (rw (other, differ) at h) in
                      (a, Has-filter _ a g.db.apps m (rw (by_name-other a p k n differ) refl), n)
                ];
            unique = filter-IsUnique _ g.db.apps v.unique;
          })
  ]

  pub put_data-cases :
      (p product_name : String) (db : Db)
      → ((a : AppModel) × (a.name ≡ some p)
          × (put_data e p product_name db ≡ (record db { apps = db.apps ++ a ∷ [] }, ok tt)))
        ⊎ ((x : String) × (put_data e p product_name db ≡ (db, err x)))
  unfolding put_data insert_app
  put_data-cases p product_name db = elim (Result-cases (e.max_id apps db)) [
    | inr (x, q) ↦ inr (x, rw (q, and_then) refl)
    | inl (max, q) ↦
        let a : AppModel = record {
          id = next_id max;
          duration = some 0;
          launches = some 0;
          longest_session = some 0;
          name = some p;
          product_name = some product_name;
          longest_session_on = none;
        } in
        elim (Result-cases (e.insert apps a db)) [
          | inr (x, f) ↦ inr (x, rw (q, and_then, f, executed) refl)
          | inl (db', f) ↦
              let put = on_ok _ _ (law.insert_law apps a db) f in
              inl (a, refl, rw (q, and_then, f, executed, put.1) refl)
        ]
  ]

  pub add_process-IsRegistered :
      (active : Bool) (p : String) (product : Option String) (g : Registry)
      → IsRegistered g
      → IsRegistered (add_process e c active p product g).registry
  unfolding add_process add_unless_known finish_add get_processes
  add_process-IsRegistered active p product g v =
      elim (select_cases e law apps (λ a. true) unordered g.db) [
        | inr (x, q) ↦ rw (q, and_then) v
        | inl (xs, q, sel) ↦
            elim (Bool-cases (contains (filter_map (λ (b : AppModel). b.name) xs) p)) [
              | inl known ↦ rw (q, and_then, known) v
              | inr new ↦ elim (put_data-cases p (unwrap_or product p) g.db) [
                | inr (x, f) ↦ rw (q, and_then, new, f) v
                | inl (a, name, f) ↦
                    rw (q, and_then, new, f)
                      (record {
                        named = λ k entry h.
                            let put =
                              lookup-insert {V = Bool × Bool} p k (false, false) g.processes in
                            elim (Bool-cases (str_eq p k)) [
                              | inl same ↦ (
                                a,
                                Has-append_right a g.db.apps (a ∷ []) (inl refl),
                                rw (name, (eq_iff p k).0 same) (str_eq_self k),
                              )
                              | inr differ ↦
                                  let (b, m, n) = v.named k entry (rw (put, differ) at h) in
                                  (b, Has-append_left b g.db.apps (a ∷ []) m, n)
                            ];
                        unique =
                            append-IsUnique a p g.db.apps name
                              (λ b m. elim (Bool-cases (by_name p b)) [
                                | inl h ↦ absurd (
                                    ground
                                      (arith, contains-names xs p b (sel.complete b m refl) h, new))
                                | inr h ↦ h
                              ])
                              v.unique;
                      })
              ]
            ]
      ]

  -- add_process of a name that some app has already, on a lawful database: it answers an error, and the
  -- database and the process map stay as they were and nothing is sent.
  pub add_process-known :
      (active : Bool) (p : String) (product : Option String) (g : Registry) (a : AppModel)
      → Has a g.db.apps
      → by_name p a ≡ true
      → (x : String) × (add_process e c active p product g ≡ rejected g x)
  unfolding add_process add_unless_known get_processes
  add_process-known active p product g a m n =
      elim (select_cases e law apps (λ a. true) unordered g.db) [
        | inr (x, q) ↦ (x, rw (q, and_then) refl)
        | inl (xs, q, sel) ↦ (
          already_added p,
          rw (q, and_then, contains-names xs p a (sel.complete a m refl) n) refl,
        )
      ]

  -- The map that `init` fills has an entry for no other process than the names it is given.
  load_processes-lookup :
      (ps : List String) (pm : ProcessMap) (p : String) (entry : Bool × Bool)
      → lookup p (load_processes ps pm) ≡ some entry
      → Has p ps ⊎ (lookup p pm ≡ some entry)
  unfolding load_processes
  load_processes-lookup [] pm p entry h = inr h
  load_processes-lookup (q ∷ ps) pm p entry h =
      elim (load_processes-lookup ps (insert q (false, false) pm) p entry h) [
        | inl m ↦ inl (inr m)
        | inr found ↦
            let put = lookup-insert {V = Bool × Bool} q p (false, false) pm in
            elim (Bool-cases (str_eq q p)) [
              | inl same ↦ inl (inl (sym ((eq_iff q p).0 same)))
              | inr differ ↦ inr (rw (put, differ) at found)
            ]
      ]

  -- Each name that get_processes lists is the name of one of the rows.
  names-Has :
      (xs : List AppModel) (p : String)
      → Has p (filter_map (λ (b : AppModel). b.name) xs)
      → (a : AppModel) × Has a xs × (by_name p a ≡ true)
  names-Has [] p m = absurd m
  names-Has (b ∷ xs) p m = elim (Option-cases b.name) [
    | inl q ↦ let (a, k, n) = names-Has xs p (rw q at m) in (a, inr k, n)
    | inr (n, q) ↦ elim (rw q at m) [
      | inl same ↦ (b, inl refl, rw (q, same) (str_eq_self n))
      | inr rest ↦ let (a, k, n') = names-Has xs p rest in (a, inr k, n')
    ]
  ]

  unwrap_ok : {x y : Registry} → ok x ≡ ok y → x ≡ y
  unwrap_ok h = cc

  start-IsRegistered :
      (db : Db) (g : Registry) → IsUnique db.apps → start e db ≡ ok g → IsRegistered g
  unfolding start get_processes load_processes lookup
  start-IsRegistered db g u h = elim (select_cases e law apps (λ a. true) unordered db) [
    | inr (x, q) ↦ absurd (ground (arith, q, h))
    | inl (xs, q, sel) ↦
        let names = filter_map (λ (b : AppModel). b.name) xs in
        let ran : ok (record { db = db; processes = load_processes names [] }) ≡ ok g =
          rw (q, and_then) at h in
        subst IsRegistered (unwrap_ok ran) (record {
          named = λ p entry found. elim (load_processes-lookup names [] p entry found) [
            | inl m ↦ let (a, k, n) = names-Has xs p m in (a, (sel.sound a k).0, n)
            | inr none' ↦ absurd (ground (arith, none'))
          ];
          unique = u;
        })
  ]

-- What a client can ask for.
pub data Request : Type 0 where
  adds : Bool → String → Option String → Request
  deletes : Bool → String → Request

abbrev pub apply_request : Engine → Codec → Request → Registry → Registry
apply_request e c (adds active p product) g = (add_process e c active p product g).registry
apply_request e c (deletes active p) g = (delete_process e c active p g).registry

abbrev pub apply_requests : Engine → Codec → List Request → Registry → Registry
apply_requests e c [] g = g
apply_requests e c (r ∷ rs) g = apply_requests e c rs (apply_request e c r g)

apply_requests-IsRegistered :
    (e : Engine) (c : Codec) (law : Lawful e) (rs : List Request) (g : Registry)
    → IsRegistered g
    → IsRegistered (apply_requests e c rs g)
apply_requests-IsRegistered e c law [] g v = v
apply_requests-IsRegistered e c law (adds active p product ∷ rs) g v =
    apply_requests-IsRegistered e c law rs _ (add_process-IsRegistered e c law active p product g v)
apply_requests-IsRegistered e c law (deletes active p ∷ rs) g v =
    apply_requests-IsRegistered e c law rs _ (delete_process-IsRegistered e c law active p g v)

-- From the start of the program, on a lawful database in which no two apps have the same name, over
-- any sequence of add_process and delete_process calls, whichever of them fail: each process of the
-- process map is the name of an app in the database, and no two apps have the same name.
pub apply_requests-start :
    (e : Engine) (c : Codec) (law : Lawful e) (rs : List Request) (db : Db) (g : Registry)
    → IsUnique db.apps
    → start e db ≡ ok g
    → IsRegistered (apply_requests e c rs g)
apply_requests-start e c law rs db g u h =
    apply_requests-IsRegistered e c law rs g (start-IsRegistered e c law db g u h)
