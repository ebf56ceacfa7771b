-- ===== src/Tests/Checkpoints.antt =====
-- The theorems on checkpoints and on the registry, on a database of two apps and two checkpoints.
use time_tracker.Common.{
  some, String, ◌≡◌, refl, sym, ap, subst, ◌∙◌, is_true, str_eq, eq_iff, true, false, none, List,
  [], ◌∷◌, ok, map, Has, inl, inr, ◌⊎◌, err, arith,
}
use time_tracker.Entities.{AppModel, CheckpointModel}
use time_tracker.Store.{Db, has_key, checkpoints}
use time_tracker.Store.Memory.{memory, memory-Lawful, memory-Reliable}
use time_tracker.Queries.{set_checkpoint_active, success_json}
use time_tracker.Queries.Activation.{Keyed, after_set}
use time_tracker.Queries.Answers.{switched_row, set_checkpoint_active_lem}
use time_tracker.OneActive.{IsConsistent}
use time_tracker.OneActive.Commands.{Command, sets, creates, event, run, run-IsConsistent}
use time_tracker.Events.{duration, by_name, get_processes, handle_event}
use time_tracker.Events.Effects.{Counts, handle_event-apps}
use time_tracker.Common.Map.{Map, insert}
use time_tracker.Aliases.{get_process_aliases_by_app_names, gather_aliases, aliases_of, add_aliases}
use time_tracker.Aliases.Complete.{AliasesOf, aliases_in, get_process_aliases_by_app_names_lem}
use time_tracker.Registry.{Registry, start, load_processes, add_process, rejected}
use time_tracker.Registry.Consistent.{
  Request, adds, deletes, apply_requests, apply_requests-start, add_process-known,
}
use time_tracker.Registry.Names.{IsUnique, IsRegistered}
use time_tracker.Tests.{app, two_checkpoints, silent}

id_path : {r s : CheckpointModel} → r ≡ s → r.id ≡ s.id
id_path h = ap (λ (r : CheckpointModel). r.id) h

on_path : {r s : CheckpointModel} → r ≡ s → is_true r.is_active ≡ is_true s.is_active
on_path h = ap (λ (r : CheckpointModel). is_true r.is_active) h

pub two_checkpoints-Keyed : Keyed checkpoints two_checkpoints.checkpoints
two_checkpoints-Keyed r s (inl m) (inl n) e = m ∙ sym n
two_checkpoints-Keyed r s (inl m) (inr (inl n)) e = absurd (omega (arith, id_path m, id_path n, e))
two_checkpoints-Keyed r s (inr (inl m)) (inl n) e = absurd (omega (arith, id_path m, id_path n, e))
two_checkpoints-Keyed r s (inr (inl m)) (inr (inl n)) e = m ∙ sym n
two_checkpoints-Keyed r s (inr (inr m)) n e = absurd m
two_checkpoints-Keyed r s m (inr (inr n)) e = absurd n

first_is_active :
    (r : CheckpointModel)
    → Has r two_checkpoints.checkpoints
    → is_true r.is_active ≡ true
    → r.id ≡ 1
first_is_active r (inl m) a = id_path m
first_is_active r (inr (inl m)) a = ground (arith, on_path m, a)
first_is_active r (inr (inr m)) a = absurd m

pub two_checkpoints-IsConsistent : IsConsistent two_checkpoints.checkpoints
two_checkpoints-IsConsistent = record {
  keyed = two_checkpoints-Keyed;
  one_active = λ r s m n a b e. first_is_active r m a ∙ sym (first_is_active s n b);
}

abbrev pub switched : Db
switched = record two_checkpoints {
  checkpoints = map (after_set 2 1 true 100 101) two_checkpoints.checkpoints;
}

switches :
    set_checkpoint_active memory 2 true 100 101 two_checkpoints
    ≡ (switched, ok (success_json "Checkpoint status updated successfully"))
unfolding set_checkpoint_active memory
switches = refl

set_checkpoint_active_lem_example :
    ((has_key checkpoints 2 two_checkpoints.checkpoints ≡ false)
      × (set_checkpoint_active memory 2 true 100 101 two_checkpoints
          ≡ (two_checkpoints, err "Checkpoint not found")))
    ⊎ ((c : CheckpointModel) × Has c two_checkpoints.checkpoints
        × (c.id ≡ 2)
        × (set_checkpoint_active memory 2 true 100 101 two_checkpoints ≡ (
          record two_checkpoints {
            checkpoints = map (switched_row 2 c.app_id true 100 101) two_checkpoints.checkpoints;
          },
          ok (success_json "Checkpoint status updated successfully"),
        )))
set_checkpoint_active_lem_example =
    set_checkpoint_active_lem memory memory-Lawful memory-Reliable 2 true 100 101 two_checkpoints
      two_checkpoints-Keyed

abbrev pub history : List Command
history =
    sets 2 true 100 101
    ∷ creates "boss" none 1 102
    ∷ event true 19000 103 ("quake", duration)
    ∷ sets 3 true 104 105
    ∷ []

run-IsConsistent_example : IsConsistent (run memory silent history two_checkpoints).checkpoints
run-IsConsistent_example =
    run-IsConsistent memory silent memory-Lawful history two_checkpoints
      two_checkpoints-IsConsistent

app_names :
    (r : AppModel) → Has r (app 2 "doom" ∷ []) → (p : String) → by_name p r ≡ str_eq "doom" p
app_names r (inl m) p = ap (λ (x : AppModel). by_name p x) m
app_names r (inr m) p = absurd m

pub two_checkpoints-IsUnique : IsUnique two_checkpoints.apps
two_checkpoints-IsUnique = (
  λ r m p h. app_names r m p ∙ subst (λ k. str_eq "doom" k ≡ false) ((eq_iff "quake" p).0 h) refl,
  ((λ r m p h. absurd m), tt),
)

abbrev pub at_start : Registry
at_start = record {
  db = two_checkpoints;
  processes = ("quake", (false, false)) ∷ ("doom", (false, false)) ∷ [];
}

pub starts_up : start memory two_checkpoints ≡ ok at_start
unfolding start memory get_processes load_processes insert
starts_up = refl

abbrev pub requests : List Request
requests = adds true "tetris" none ∷ adds true "quake" none ∷ deletes true "doom" ∷ []

apply_requests-start_example : IsRegistered (apply_requests memory silent requests at_start)
apply_requests-start_example =
    apply_requests-start memory silent memory-Lawful requests two_checkpoints at_start
      two_checkpoints-IsUnique starts_up

add_process-known_example :
    (x : String) × (add_process memory silent true "quake" none at_start ≡ rejected at_start x)
add_process-known_example =
    add_process-known memory silent memory-Lawful true "quake" none at_start (app 1 "quake")
      (inl refl) refl

abbrev pub with_alias : Db
with_alias = record two_checkpoints {
  process_aliases = record { id = 1; process_name = "quake.x86"; app_id = 1 } ∷ [];
}

abbrev pub alias_map : Map (List String)
alias_map = ("quake", "quake.x86" ∷ []) ∷ []

finds_aliases :
    get_process_aliases_by_app_names memory ("quake" ∷ "doom" ∷ []) with_alias
    ≡ (with_alias, ok alias_map)
unfolding get_process_aliases_by_app_names gather_aliases aliases_of add_aliases memory insert
finds_aliases = refl

get_process_aliases_by_app_names_lem_example :
    (with_alias ≡ with_alias)
    × ((k : String)
        → Has k ("quake" ∷ "doom" ∷ [])
        → AliasesOf with_alias k (aliases_in k alias_map))
get_process_aliases_by_app_names_lem_example =
    get_process_aliases_by_app_names_lem memory memory-Lawful with_alias two_checkpoints-IsUnique
      ("quake" ∷ "doom" ∷ []) finds_aliases

handle_event-apps_example :
    Counts
      ("quake", duration)
      19000
      two_checkpoints
      (handle_event memory silent true 19000 103 ("quake", duration) two_checkpoints).0
      (some ("quake", 0))
handle_event-apps_example =
    handle_event-apps memory silent memory-Lawful memory-Reliable true 19000 103 ("quake", duration)
      two_checkpoints
