-- ===== src/Processes/Windows.antt =====
-- windows.rs: nt_are_processes_running, and that it answers as ux_are_processes_running of linux.rs.
use time_tracker.Common.{
  String, ◌≡◌, refl, ◌∙◌, Bool, true, false, ◌&&◌, none, some, List, [], ◌∷◌, map, str_eq, eq_iff,
  any, if◌then◌else◌, Result, ok, err, arith,
}
use time_tracker.Common.Map.{Map, lookup, insert, lookup-insert}
use time_tracker.Processes.{
  Process, Aliases, contains, alias_list, listed, mark, are_processes_running,
}
use time_tracker.Processes.Running.{runs_as, are_processes_running_lem, lookup-mark}

-- What the calls of the system gave: no snapshot, a snapshot without a first entry, or the names of its
-- entries, without the NUL characters.
pub data Snapshot : Type 0 where
  invalid_handle no_first_entry : Snapshot
  entries : String → List String → Snapshot

-- The two loops over the tracked processes, for an entry of the name `s`.
abbrev pub mark_entry : List String → Aliases → String → Map Bool → Map Bool
mark_entry processes aliases s m =
    mark (λ target. listed (alias_list aliases target) s) true processes
      (mark (λ process. str_eq s process) true processes m)

unfoldable pub mark_entries : List String → Aliases → List String → Map Bool → Map Bool
mark_entries processes aliases [] m = m
mark_entries processes aliases (s ∷ rest) m =
    mark_entries processes aliases rest (mark_entry processes aliases s m)

-- `if !map.contains_key(process) { map.insert(process, false) }`
unfoldable pub fill_missing : List String → Map Bool → Map Bool
fill_missing [] m = m
fill_missing (p ∷ ps) m =
    fill_missing ps (elim (lookup p m) [ none ↦ insert p false m | some b ↦ m ])

unfoldable pub nt_are_processes_running : List String → Aliases → Snapshot → Result (Map Bool)
nt_are_processes_running processes aliases invalid_handle = err "invalid Handle"
nt_are_processes_running processes aliases no_first_entry = err "invalid Handle"
nt_are_processes_running processes aliases (entries first rest) =
    ok (fill_missing processes (mark_entries processes aliases (first ∷ rest) []))

-- A name of the snapshot as an entry of the process table.
abbrev pub live : String → Process
live s = record { name = s; is_zombie = false }

lookup-mark_entries :
    (targets : List String) (aliases : Aliases) (names : List String) (m : Map Bool) (k : String)
    → lookup k (mark_entries targets aliases names m) ≡ (
        if contains targets k && any (runs_as aliases k) (map live names)
        then some true
        else lookup k m)
unfolding mark_entries
lookup-mark_entries targets aliases [] m k = ground arith
lookup-mark_entries targets aliases (s ∷ ss) m k =
    let own = mark (λ process. str_eq s process) true targets m in
    lookup-mark_entries targets aliases ss (mark_entry targets aliases s m) k
    ∙ ground (
      arith,
      lookup-mark (λ target. listed (alias_list aliases target) s) true targets own k,
      lookup-mark (λ process. str_eq s process) true targets m k,
      eq_iff s k,
      eq_iff k s,
    )

lookup-fill_missing :
    (targets : List String) (m : Map Bool) (k : String)
    → lookup k (fill_missing targets m) ≡ elim (lookup k m) [
      | none ↦ if contains targets k then some false else none
      | some b ↦ some b
    ]
unfolding fill_missing
lookup-fill_missing [] m k = ground arith
lookup-fill_missing (t ∷ ts) m k =
    lookup-fill_missing ts (elim (lookup t m) [ none ↦ insert t false m | some b ↦ m ]) k
    ∙ ground (arith, lookup-insert {V = Bool} t k false m, eq_iff t k)

-- On Windows, with the names of a snapshot: the answer has the same entry for every name as the answer on
-- Linux for a process table with the same names and no zombie.
pub nt_are_processes_running-are_processes_running :
    (processes : List String) (aliases : Aliases) (first : String) (rest : List String) (k : String)
    → (m : Map Bool) × (nt_are_processes_running processes aliases (entries first rest) ≡ ok m)
      × (lookup k m ≡ lookup k (are_processes_running processes aliases (map live (first ∷ rest))))
unfolding nt_are_processes_running lookup
nt_are_processes_running-are_processes_running processes aliases first rest k =
    let marked = mark_entries processes aliases (first ∷ rest) [] in
    (
      fill_missing processes marked,
      refl,
      lookup-fill_missing processes marked k
          ∙ ground (
            arith,
            lookup-mark_entries processes aliases (first ∷ rest) [] k,
            are_processes_running_lem processes aliases (map live (first ∷ rest)) k,
          ),
    )
