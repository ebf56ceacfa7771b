-- ===== src/OneActive/Keeps.antt =====
-- The invariant under single calls and their sequences, whether they succeed or fail.
use time_tracker.Common.{
  ◌≡◌, ◌≢◌, refl, inl, inr, Bool, false, ◌==◌, List, [], ◌∷◌, ◌++◌, if◌then◌else◌, is_true, Result,
  ok, Result-cases, arith,
}
use time_tracker.Common.Word.{I32}
use time_tracker.Json.{Json}
use time_tracker.Entities.{CheckpointModel}
use time_tracker.Store.{
  Table, apps, timeline, checkpoints, process_aliases, Row, Db, rows, put_rows, update_rows,
  delete_rows,
}
use time_tracker.Store.Engine.{Engine, Lawful}
use time_tracker.Store.Monad.{M, ◌>>=◌, ◌>>◌, pure, execute, executed, and_then, for_each}
use time_tracker.Store.Calls.{on_ok, for_each_inv}
use time_tracker.OneActive.{
  IsConsistent, IsTame, IsConsistent-map, IsConsistent-filter, IsConsistent-append,
}

abbrev pub Keeps : {A : Type 0} → M A → Type 0
Keeps m = (db : Db) → IsConsistent db.checkpoints → IsConsistent (m db).0.checkpoints

pub Keeps-bind :
    {A B : Type 0} (m : M A) (f : A → M B) → Keeps m → ((a : A) → Keeps (f a)) → Keeps (m >>= f)
Keeps-bind m f km kf db v = elim (Result-cases (m db).1) [
  | inl (a, q) ↦ rw (q, and_then) (kf a (m db).0 (km db v))
  | inr (x, q) ↦ rw (q, and_then) (km db v)
]

pub Keeps-for_each :
    {A : Type 0} (f : A → M (Unit {0}))
    → ((x : A) → Keeps (f x))
    → (xs : List A) → Keeps (for_each xs f)
Keeps-for_each f k xs db v = for_each_inv (λ db. IsConsistent db.checkpoints) f k xs db v

Keeps-execute :
    (u : Db → Result Db)
    → ((db db' : Db) → u db ≡ ok db' → IsConsistent db.checkpoints → IsConsistent db'.checkpoints)
    → Keeps (execute u)
Keeps-execute u k db v = elim (Result-cases (u db)) [
  | inl (db', q) ↦ rw (q, executed) (k db db' q v)
  | inr (x, q) ↦ rw (q, executed) v
]

-- A statement, and the answer of a function that ends with it.
pub Keeps-call :
    (u : Db → Result Db) (answer : Json) → Keeps (execute u) → Keeps (execute u >> pure answer)
Keeps-call u answer k = Keeps-bind (execute u) (λ _. pure answer) k (λ _ db v. v)

-- What a change of a table's rows must be like.
abbrev pub IsTameAt : (t : Table) → (Row t → Row t) → Type 0
IsTameAt checkpoints f = IsTame f
IsTameAt _ f = Unit

IsTame-at_key :
    (k : I32) (f : CheckpointModel → CheckpointModel)
    → IsTame f
    → IsTame (λ r. if r.id == k then f r else r)
IsTame-at_key k f t = record {
  same_id = λ r. ground (arith, t.same_id r);
  same_app = λ r. ground (arith, t.same_app r);
  calm = λ r. ground (arith, t.calm r);
}

delete_rows-IsConsistent :
    (t : Table) (p : Row t → Bool) (db : Db)
    → IsConsistent db.checkpoints
    → IsConsistent (delete_rows t p db).checkpoints
unfolding delete_rows
delete_rows-IsConsistent checkpoints p db v = IsConsistent-filter _ db.checkpoints v
delete_rows-IsConsistent apps p db v = IsConsistent-filter _ db.checkpoints v
delete_rows-IsConsistent timeline p db v = v
delete_rows-IsConsistent process_aliases p db v = v

module _ (e : Engine) (law : Lawful e) where
  pub Keeps-update :
      (t : Table) (k : I32) (f : Row t → Row t) → IsTameAt t f → Keeps (execute (e.update t k f))
  Keeps-update t k f tame =
      Keeps-execute (e.update t k f)
        (λ db db' q v. step t f tame db db' (on_ok _ _ (law.update_law t k f db) q) v)
    where
      step :
          (t : Table) (f : Row t → Row t)
          → IsTameAt t f
          → (db db' : Db) → db' ≡ put_rows t (update_rows t k f (rows t db)) db
          → IsConsistent db.checkpoints
          → IsConsistent db'.checkpoints
      step checkpoints f tame db db' p v =
          rw p (IsConsistent-map _ db.checkpoints (IsTame-at_key k f tame) v)
      step apps f tame db db' p v = rw p v
      step timeline f tame db db' p v = rw p v
      step process_aliases f tame db db' p v = rw p v

  pub Keeps-insert : (t : Table) (r : Row t) → t ≢ checkpoints → Keeps (execute (e.insert t r))
  Keeps-insert t r other =
      Keeps-execute (e.insert t r)
        (λ db db' q v. step t r other db db' (on_ok _ _ (law.insert_law t r db) q).1 v)
    where
      step :
          (t : Table) (r : Row t)
          → t ≢ checkpoints
          → (db db' : Db) → db' ≡ put_rows t (rows t db ++ r ∷ []) db
          → IsConsistent db.checkpoints
          → IsConsistent db'.checkpoints
      step checkpoints r other db db' p v = absurd (other refl)
      step apps r other db db' p v = rw p v
      step timeline r other db db' p v = rw p v
      step process_aliases r other db db' p v = rw p v

  -- A new checkpoint is inactive.
  pub Keeps-insert_checkpoint :
      (f : I32 → CheckpointModel)
      → ((k : I32) → is_true (f k).is_active ≡ false)
      → Keeps (execute (e.insert_new checkpoints f))
  Keeps-insert_checkpoint f idle = Keeps-execute (e.insert_new checkpoints f) λ db db' q v.
      let (k, _, ins) = on_ok _ _ (law.insert_new_law checkpoints f db) q in
      rw ins.1 (IsConsistent-append db.checkpoints (f k) v ins.0 (idle k))

  pub Keeps-insert_alias :
      (f : I32 → Row process_aliases) → Keeps (execute (e.insert_new process_aliases f))
  Keeps-insert_alias f = Keeps-execute (e.insert_new process_aliases f) λ db db' q v.
      let (k, _, ins) = on_ok _ _ (law.insert_new_law process_aliases f db) q in rw ins.1 v

  pub Keeps-delete : (t : Table) (p : Row t → Bool) → Keeps (execute (e.delete t p))
  Keeps-delete t p =
      Keeps-execute (e.delete t p)
        (λ db db' q v. rw (on_ok _ _ (law.delete_law t p db) q) (delete_rows-IsConsistent t p db v))
