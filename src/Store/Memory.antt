-- ===== src/Store/Memory.antt =====
-- An engine in memory: a lawful one, which shows that the laws can hold, and on which tests run.
use time_tracker.Common.{
  ◌+◌, ◌≤◌, ◌≡◌, refl, ap, ◌∙◌, OnOk, ◌⊎◌, inl, inr, Bool, true, false, ◌&&◌, ◌==◌, ==_iff, leb,
  Option, none, some, List, [], ◌∷◌, ◌++◌, if◌then◌else◌, filter, head?, length, Has, Has-filter,
  filter-Has, Bool-cases, Result, ok, err, arith, map, map-Has, sym, subst, ◌||◌, Has-append_cases,
  Has-append_left, Has-append_right, Has-map, length-append, length-map, Option-cases, ==_self,
}
use time_tracker.Common.Word.{I32, rank}
use time_tracker.Entities.{AppModel, TimelineModel, CheckpointModel}
use time_tracker.Store.{
  Table, timeline, Row, Db, rows, put_rows, key, update_rows, has_key, clashes, delete_rows,
}
use time_tracker.Store.Engine.{
  Engine, Lawful, Reliable, Order, beside, count_pairs, Selects, Joins, Picks, IsMaxId, Inserts,
  Relates, IsPartner,
}
use time_tracker.Store.Sorting.{sort, sort-InOrder, length-sort, Has-sort, sort-Has}

-- One row for each pair.
abbrev joined :
    (TimelineModel → AppModel → Bool) → List AppModel → List TimelineModel → List TimelineModel
joined p found [] = []
joined p found (r ∷ rs) = map (λ _. r) (beside p found r) ++ joined p found rs

-- The key of highest rank.
abbrev best : (t : Table) → Option I32 → List (Row t) → Option I32
best t m [] = m
best t none (x ∷ xs) = best t (some (key t x)) xs
best t (some m) (x ∷ xs) = best t (some (if leb (rank (key t x)) (rank m) then m else key t x)) xs

abbrev checked_insert : (t : Table) → Row t → Db → Result Db
checked_insert t r db =
    if has_key t (key t r) (rows t db) || clashes t r (rows t db)
    then err "UNIQUE constraint failed"
    else ok (put_rows t (rows t db ++ r ∷ []) db)

-- One above every key in use.
abbrev above : (t : Table) → List (Row t) → I32
above t [] = 1
above t (x ∷ xs) = if leb (above t xs) (key t x) then key t x + 1 else above t xs

-- The checkpoint that a row of the timeline refers to.
abbrev refers : TimelineModel → CheckpointModel → Bool
refers r c = elim r.checkpoint_id [ none ↦ false | some k ↦ c.id == k ]

abbrev partner_of : Db → TimelineModel → TimelineModel × Option CheckpointModel
partner_of db r = (r, head? (filter (refers r) db.checkpoints))

unfoldable pub memory : Engine
memory = record {
  select = λ t p o db. ok (sort o (filter p (rows t db)));
  join_apps = λ p o db. ok (sort o (joined p db.apps db.timeline));
  find_also_related = λ o db. ok (map (partner_of db) (sort o db.timeline));
  one = λ t p db. ok (head? (filter p (rows t db)));
  count = λ t p db. ok (length (filter p (rows t db)));
  max_id = λ t db. ok (best t none (rows t db));
  insert = checked_insert;
  insert_new = λ t f db.
      let k = above t (rows t db) in
      if key t (f k) == k then checked_insert t (f k) db else err "the id was set";
  update = λ t k f db.
      if has_key t k (rows t db)
      then ok (put_rows t (update_rows t k f (rows t db)) db)
      else err "None of the records are updated";
  delete = λ t p db. ok (delete_rows t p db);
}

memory-Selects :
    (t : Table) (p : Row t → Bool) (o : Order (Row t)) (db : Db)
    → Selects t p o db (sort o (filter p (rows t db)))
memory-Selects t p o db = record {
  sound = λ r m. filter-Has p r (rows t db) (sort-Has o r _ m);
  complete = λ r m h. Has-sort o r _ (Has-filter p r (rows t db) m h);
  as_many = length-sort o (filter p (rows t db));
  in_order = sort-InOrder o (filter p (rows t db));
}

joined-app :
    (p : TimelineModel → AppModel → Bool) (found : List AppModel) (rs : List TimelineModel)
    (r : TimelineModel)
    → Has r (joined p found rs)
    → Has r rs × ((a : AppModel) × Has a found × (a.id ≡ r.app_id) × (p r a ≡ true))
joined-app p found [] r m = elim m [ ]
joined-app p found (s ∷ rs) r m =
    elim (Has-append_cases r (map (λ _. s) (beside p found s)) (joined p found rs) m) [
      | inr later ↦ let (n, rest) = joined-app p found rs r later in (inr n, rest)
      | inl here ↦
          let (a, n, q) = map-Has (λ (a : AppModel). s) r (beside p found s) here in
          let (there, passes) = filter-Has (λ a. a.id == s.app_id && p s a) a found n in
          rw q (inl refl, (a, there, ground (arith, passes), ground (arith, passes)))
    ]

app-joined :
    (p : TimelineModel → AppModel → Bool) (found : List AppModel) (rs : List TimelineModel)
    (r : TimelineModel) (a : AppModel)
    → Has r rs
    → Has a found
    → a.id ≡ r.app_id
    → p r a ≡ true
    → Has r (joined p found rs)
app-joined p found (s ∷ rs) r a (inr m) n e h =
    Has-append_right r (map (λ _. s) (beside p found s)) (joined p found rs)
      (app-joined p found rs r a m n e h)
app-joined p found (s ∷ rs) r a (inl q) n e h =
    Has-append_left r (map (λ _. s) (beside p found s)) (joined p found rs) (
      subst (λ (z : TimelineModel). Has z (map (λ _. s) (beside p found s))) (sym q)
        (Has-map (λ (a : AppModel). s) a (beside p found s)
          (Has-filter (λ a. a.id == s.app_id && p s a) a found n
            (subst (λ (z : TimelineModel). (a.id == z.app_id && p z a) ≡ true) q (ground arith)))))
app-joined p found [] r a m n e h = elim m [ ]

length-joined :
    (p : TimelineModel → AppModel → Bool) (found : List AppModel) (rs : List TimelineModel)
    → length (joined p found rs) ≡ count_pairs p found rs
length-joined p found [] = refl
length-joined p found (r ∷ rs) =
    length-append (map (λ _. r) (beside p found r)) (joined p found rs)
    ∙ rw (length-map (λ (a : AppModel). r) (beside p found r), length-joined p found rs) refl

memory-Joins :
    (p : TimelineModel → AppModel → Bool) (o : Order TimelineModel) (db : Db)
    → Joins p o db (sort o (joined p db.apps db.timeline))
memory-Joins p o db = record {
  sound = λ r m. joined-app p db.apps db.timeline r (sort-Has o r _ m);
  complete = λ r a m n e h. Has-sort o r _ (app-joined p db.apps db.timeline r a m n e h);
  as_many = length-sort o (joined p db.apps db.timeline) ∙ length-joined p db.apps db.timeline;
  in_order = sort-InOrder o (joined p db.apps db.timeline);
}

head?-Picks : {A : Type 0} (p : A → Bool) (xs : List A) → Picks p xs (head? (filter p xs))
head?-Picks p [] = λ r m. absurd m
head?-Picks p (x ∷ xs) = elim (Bool-cases (p x)) [
  | inl e ↦ rw e (inl refl, e)
  | inr e ↦ rw e (later p x xs (head? (filter p xs)) e (head?-Picks p xs))
]
  where
    later :
        {A : Type 0} (p : A → Bool) (x : A) (xs : List A) (o : Option A)
        → p x ≡ false
        → Picks p xs o
        → Picks p (x ∷ xs) o
    later p x xs none e h = λ r m. elim m [ inl q ↦ ap p q ∙ e | inr n ↦ h r n ]
    later p x xs (some r) e h = (inr h.0, h.1)

-- Every row passes, and keeps its place beside its partner.
filter_all : {A : Type 0} (xs : List A) → filter (λ (x : A). true) xs ≡ xs
filter_all [] = refl
filter_all (x ∷ xs) = cc (filter_all xs)

partners-rows : (db : Db) (xs : List TimelineModel) → map (λ x. x.0) (map (partner_of db) xs) ≡ xs
partners-rows db [] = refl
partners-rows db (x ∷ xs) = cc (partners-rows db xs)

refers_to :
    (r : TimelineModel) (c : CheckpointModel) → refers r c ≡ true → r.checkpoint_id ≡ some c.id
refers_to r c h = elim (Option-cases r.checkpoint_id) [
  | inl q ↦ absurd (ground (arith, q, h))
  | inr (k, q) ↦ q ∙ ap some (sym ((==_iff c.id k).0 (rw q at h)))
]

Picks-IsPartner :
    (db : Db) (r : TimelineModel) (o : Option CheckpointModel)
    → Picks (refers r) db.checkpoints o
    → IsPartner db r o
Picks-IsPartner db r (some c) h = (h.0, refers_to r c h.1)
Picks-IsPartner db r none h = λ c m q. ground (arith, rw q at (h c m), ==_self c.id)

memory-Relates :
    (o : Order TimelineModel) (db : Db) → Relates o db (map (partner_of db) (sort o db.timeline))
memory-Relates o db = record {
  all_rows =
      subst (Selects timeline (λ r. true) o db)
        (ap (sort o) (filter_all db.timeline) ∙ sym (partners-rows db (sort o db.timeline)))
        (memory-Selects timeline (λ r. true) o db);
  partners = λ x m.
      let (r, _, q) = map-Has (partner_of db) x (sort o db.timeline) m in
      subst (λ (y : TimelineModel × Option CheckpointModel). IsPartner db y.0 y.1) (sym q)
        (Picks-IsPartner db r _ (head?-Picks (refers r) db.checkpoints));
}

-- The best of a list is one of its keys or the one to beat, and no key outranks it.
best-some :
    (t : Table) (m : I32) (xs : List (Row t))
    → (k : I32) × (best t (some m) xs ≡ some k)
      × ((k ≡ m) ⊎ (has_key t k xs ≡ true))
      × (rank m ≤ rank k)
      × ((r : Row t) → Has r xs → rank (key t r) ≤ rank k)
best-some t m [] = (m, refl, inl refl, omega arith, λ r h. absurd h)
best-some t m (x ∷ xs) =
    let m' = if leb (rank (key t x)) (rank m) then m else key t x in
    let (k, e, from, up, top) = best-some t m' xs in
    let above_x : rank (key t x) ≤ rank m' = ground arith in
    let above_m : rank m ≤ rank m' = ground arith in
    (
      k,
      e,
      ground arith,
      omega arith,
      λ r h. elim h [ inl q ↦ rw q (omega arith) | inr n ↦ top r n ],
    )

best-IsMaxId : (t : Table) (xs : List (Row t)) → IsMaxId t xs (best t none xs)
best-IsMaxId t [] = refl
best-IsMaxId t (x ∷ xs) =
    let (k, e, from, up, top) = best-some t (key t x) xs in
    rw e (ground arith, λ r h. elim h [ inl q ↦ rw q up | inr n ↦ top r n ])

checked_insert-Inserts :
    (t : Table) (r : Row t) (db : Db) → OnOk (checked_insert t r db) (Inserts t r db)
checked_insert-Inserts t r db =
    elim (Bool-cases (has_key t (key t r) (rows t db) || clashes t r (rows t db))) [
      | inl e ↦ rw e tt
      | inr e ↦ rw e (ground arith, refl, ground arith)
    ]

OnOk-map :
    {A : Type 0} {P Q : A → Type 0} (r : Result A) → ((a : A) → P a → Q a) → OnOk r P → OnOk r Q
OnOk-map (ok a) f h = f a h
OnOk-map (err x) f h = tt

insert_new-Inserts :
    (t : Table) (f : I32 → Row t) (db : Db)
    → OnOk
        (memory.insert_new t f db)
        (λ db'. (k : I32) × (key t (f k) ≡ k) × Inserts t (f k) db db')
unfolding memory
insert_new-Inserts t f db =
    let k = above t (rows t db) in
    elim (Bool-cases (key t (f k) == k)) [
      | inr e ↦ rw e tt
      | inl e ↦ rw e (
          OnOk-map (checked_insert t (f k) db) (λ db' put. (k, (==_iff _ k).0 e, put))
            (checked_insert-Inserts t (f k) db))
    ]

memory-update :
    (t : Table) (k : I32) (f : Row t → Row t) (db : Db)
    → OnOk (memory.update t k f db) (λ db'. db' ≡ put_rows t (update_rows t k f (rows t db)) db)
unfolding memory
memory-update t k f db = elim (Bool-cases (has_key t k (rows t db))) [
  | inl e ↦ rw e
  | inr e ↦ rw e tt
]

pub memory-Lawful : Lawful memory
unfolding memory
memory-Lawful = record {
  select_law = memory-Selects;
  join_law = memory-Joins;
  related_law = memory-Relates;
  one_law = λ t p db. head?-Picks p (rows t db);
  count_law = λ t p db. refl;
  max_id_law = λ t db. best-IsMaxId t (rows t db);
  insert_law = checked_insert-Inserts;
  insert_new_law = insert_new-Inserts;
  update_law = memory-update;
  delete_law = λ t p db. refl;
}

pub memory-Reliable : Reliable memory
unfolding memory
memory-Reliable = record {
  select_answers = λ t p o db. (sort o (filter p (rows t db)), refl);
  one_answers = λ t p db. (head? (filter p (rows t db)), refl);
  update_answers =
      λ t k f db there kept. (put_rows t (update_rows t k f (rows t db)) db, rw there refl);
  join_answers = λ p o db. (sort o (joined p db.apps db.timeline), refl);
  count_answers = λ t p db. (length (filter p (rows t db)), refl);
  max_id_answers = λ t db. (best t none (rows t db), refl);
  insert_answers =
      λ t r db free passes there. (put_rows t (rows t db ++ r ∷ []) db, rw (free, passes) refl);
  related_answers = λ o db. (map (partner_of db) (sort o db.timeline), refl);
}
