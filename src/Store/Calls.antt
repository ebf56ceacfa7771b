-- ===== src/Store/Calls.antt =====
-- What a call of a lawful engine can come to, and what a loop of calls keeps.
use time_tracker.Common.{
  ◌≡◌, ap, subst, ◌∙◌, ◌⊎◌, inl, inr, Bool, String, Option, List, [], ◌∷◌, Result, ok, err,
  Result-cases, OnOk, arith,
}
use time_tracker.Common.Word.{I32}
use time_tracker.Store.{Table, Row, Db, rows, put_rows, update_rows, delete_rows}
use time_tracker.Store.Engine.{Engine, Lawful, Order, Selects, Picks}
use time_tracker.Store.Monad.{execute, executed, M, ◌>>=◌, for_each, and_then}

pub on_ok {ℓ κ} : {A : Type ℓ} (r : Result A) (P : A → Type κ) {a : A} → OnOk r P → r ≡ ok a → P a
on_ok (ok b) P h e = subst P (cc) h
on_ok (err x) P h e = cc

-- A call that returns is followed by the rest.
pub then_ok :
    {A B : Type 0} (m : M A) (f : A → M B) (db : Db) {mid : Db} {a : A}
    → m db ≡ (mid, ok a)
    → (m >>= f) db ≡ f a mid
then_ok {A} m f db h = ap (λ (z : Db × Result A). and_then f z.0 z.1) h

pub execute_ok :
    (u : Db → Result Db) (db : Db) {db' : Db} → u db ≡ ok db' → execute u db ≡ (db', ok tt)
execute_ok u db h = ap (executed db) h

-- A successful `m; f` is a successful `m`, and then a successful `f`.
pub bind_ok :
    {A B : Type 0} (m : M A) (f : A → M B) (db : Db) {db' : Db} {b : B}
    → (m >>= f) db ≡ (db', ok b)
    → (a : A) × (mid : Db) × (m db ≡ (mid, ok a)) × (f a mid ≡ (db', ok b))
bind_ok m f db h = elim (Result-cases (m db).1) [
  | inl (a, q) ↦ (a, (m db).0, (λ i. ((m db).0, q i)), rw (q, and_then) at h)
  | inr (x, q) ↦ absurd (ground arith)
]

module _ (e : Engine) (law : Lawful e) where
  pub update_cases :
      (t : Table) (k : I32) (f : Row t → Row t) (db : Db)
      → (e.update t k f db ≡ ok (put_rows t (update_rows t k f (rows t db)) db))
        ⊎ ((x : String) × (e.update t k f db ≡ err x))
  update_cases t k f db = elim (Result-cases (e.update t k f db)) [
    | inl (db', h) ↦ inl (h ∙ ap ok (on_ok _ _ (law.update_law t k f db) h))
    | inr (x, h) ↦ inr (x, h)
  ]

  pub delete_cases :
      (t : Table) (p : Row t → Bool) (db : Db)
      → (e.delete t p db ≡ ok (delete_rows t p db)) ⊎ ((x : String) × (e.delete t p db ≡ err x))
  delete_cases t p db = elim (Result-cases (e.delete t p db)) [
    | inl (db', h) ↦ inl (h ∙ ap ok (on_ok _ _ (law.delete_law t p db) h))
    | inr (x, h) ↦ inr (x, h)
  ]

  pub select_cases :
      (t : Table) (p : Row t → Bool) (o : Order (Row t)) (db : Db)
      → ((xs : List (Row t)) × (e.select t p o db ≡ ok xs) × Selects t p o db xs)
        ⊎ ((x : String) × (e.select t p o db ≡ err x))
  select_cases t p o db = elim (Result-cases (e.select t p o db)) [
    | inl (xs, h) ↦ inl (xs, h, on_ok _ _ (law.select_law t p o db) h)
    | inr (x, h) ↦ inr (x, h)
  ]

  pub one_cases :
      (t : Table) (p : Row t → Bool) (db : Db)
      → ((r : Option (Row t)) × (e.one t p db ≡ ok r) × Picks p (rows t db) r)
        ⊎ ((x : String) × (e.one t p db ≡ err x))
  one_cases t p db = elim (Result-cases (e.one t p db)) [
    | inl (r, h) ↦ inl (r, h, on_ok _ _ (law.one_law t p db) h)
    | inr (x, h) ↦ inr (x, h)
  ]

-- What every call of the loop keeps, failed or not, the loop keeps.
pub for_each_inv {ℓ} :
    {A : Type 0} (P : Db → Type ℓ) (f : A → M (Unit {0}))
    → ((x : A) (db : Db) → P db → P (f x db).0)
    → (xs : List A) (db : Db) → P db
    → P (for_each xs f db).0
unfolding for_each
for_each_inv P f keep [] db h = h
for_each_inv P f keep (x ∷ xs) db h = elim (Result-cases (f x db).1) [
  | inl (a, q) ↦ rw (q, and_then) (for_each_inv P f keep xs (f x db).0 (keep x db h))
  | inr (y, q) ↦ rw (q, and_then) (keep x db h)
]
