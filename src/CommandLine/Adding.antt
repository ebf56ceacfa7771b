-- ===== src/CommandLine/Adding.antt =====
-- A process that was added from the command line, at the next start.
use time_tracker.Common.{
  String, ◌≡◌, refl, sym, ap, subst, ◌∙◌, inl, inr, Bool, false, true, Bool-cases, Option, none,
  some, List, [], ◌∷◌, Has, Has-append_right, filter_map, str_eq_self, if◌then◌else◌, unwrap_or, ok,
  arith,
}
use time_tracker.Common.Map.{lookup, insert, lookup-insert}
use time_tracker.Entities.{AppModel}
use time_tracker.Store.{Db, apps}
use time_tracker.Store.Engine.{Engine, Lawful, unordered}
use time_tracker.Store.Monad.{and_then}
use time_tracker.Store.Codec.{Codec}
use time_tracker.Store.Calls.{select_cases}
use time_tracker.Events.{by_name, get_processes}
use time_tracker.Processes.{contains}
use time_tracker.Tracker.{ProcessMap}
use time_tracker.Registry.{
  Registry, Outcome, load_processes, start, add_process, add_unless_known, finish_add,
}
use time_tracker.Registry.Names.{contains-names}
use time_tracker.Registry.Consistent.{put_data-cases}
use time_tracker.CommandLine.{AddArgs, added, initialised, handle_client}

lookup-load_processes :
    (ps : List String) (pm : ProcessMap) (p : String)
    → lookup p (load_processes ps pm) ≡ (if contains ps p then some (false, false) else lookup p pm)
unfolding load_processes
lookup-load_processes [] pm p = refl
lookup-load_processes (q ∷ ps) pm p =
    lookup-load_processes ps (insert q (false, false) pm) p
    ∙ ground (arith, lookup-insert {V = Bool × Bool} q p (false, false) pm)

module _ (e : Engine) (c : Codec) (law : Lawful e) where
  -- A start on a database that holds an app of the name.
  start-lookup :
      (db : Db) (g : Registry) (p : String) (a : AppModel)
      → Has a db.apps
      → by_name p a ≡ true
      → start e db ≡ ok g
      → lookup p g.processes ≡ some (false, false)
  unfolding start get_processes
  start-lookup db g p a m n h = elim (select_cases e law apps (λ a. true) unordered db) [
    | inr (x, q) ↦ absurd (ground (arith, q, h))
    | inl (xs, q, sel) ↦
        let names = filter_map (λ (b : AppModel). b.name) xs in
        let ran : ok (record { db = db; processes = load_processes names [] }) ≡ ok g =
          rw (q, and_then) at h in
        let same : record { db = db; processes = load_processes names [] } ≡ g = cc ran in
        ap (λ (r : Registry). lookup p r.processes) (sym same)
        ∙ lookup-load_processes names [] p
        ∙ rw (contains-names xs p a (sel.complete a m refl) n) refl
  ]

  -- An add_process that succeeds leaves an app of the name.
  add_process-Has :
      (active : Bool) (p : String) (product : Option String) (g : Registry)
      → (add_process e c active p product g).answer ≡ ok tt
      → (a : AppModel) × Has a (add_process e c active p product g).registry.db.apps
        × (by_name p a ≡ true)
  unfolding add_process add_unless_known finish_add get_processes
  add_process-Has active p product g h = elim (select_cases e law apps (λ a. true) unordered g.db) [
    | inr (x, q) ↦ absurd (ground (arith, q, h))
    | inl (xs, q, sel) ↦ elim (Bool-cases (contains (filter_map (λ (b : AppModel). b.name) xs) p)) [
      | inl known ↦ absurd (ground (arith, q, known, h))
      | inr new ↦ elim (put_data-cases e c law p (unwrap_or product p) g.db) [
        | inr (x, f) ↦ absurd (ground (arith, q, new, f, h))
        | inl (a, name, f) ↦
            rw (q, and_then, new, f)
              (a, Has-append_right a g.db.apps (a ∷ []) (inl refl), rw name (str_eq_self p))
      ]
    ]
  ]

  -- The command line adds a process, and succeeds; a later start on the database that it left, a lawful one,
  -- succeeds: then the process is in the process map, neither seen running nor tracked.
  pub handle_client-handle_client :
      (ver_query_value : String → Option String) (args : AddArgs) (db : Db) (out : Outcome)
      (g : Registry)
      → handle_client e c ver_query_value db (some args) ≡ added out
      → out.answer ≡ ok tt
      → handle_client e c ver_query_value out.registry.db none ≡ initialised (ok g)
      → lookup args.process_name g.processes ≡ some (false, false)
  unfolding handle_client
  handle_client-handle_client ver_query_value args db out g first done second =
      let g0 : Registry = record { db = db; processes = [] } in
      let product = ver_query_value args.path in
      let same : add_process e c false args.process_name product g0 ≡ out = cc first in
      let (a, m, n) =
        add_process-Has false args.process_name product g0
          (ap (λ (o : Outcome). o.answer) same ∙ done) in
      let there = subst (λ (o : Outcome). Has a o.registry.db.apps) same m in
      start-lookup out.registry.db g args.process_name a there n (cc second)
