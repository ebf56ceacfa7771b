-- ===== src/Store/Engine.antt =====
-- The calls that the program makes of SeaORM. `Engine` stands for the ORM and the database server:
-- any call may fail, and `Lawful` is what the documentation promises of a call that succeeds.
use time_tracker.Common.{
  ℕ, ◌+◌, ◌≤◌, ◌==◌, ◌&&◌, ◌≡◌, ◌≢◌, map, Bool, true, false, Option, none, some, List, [], ◌∷◌,
  ◌++◌, filter, length, Has, All, Result, ok, OnOk,
}
use time_tracker.Common.Word.{I32, rank}
use time_tracker.Entities.{AliasModel, AppModel, TimelineModel, CheckpointModel}
use time_tracker.Store.{
  Table, apps, timeline, checkpoints, process_aliases, Row, Db, rows, put_rows, key, update_rows,
  has_key, clashes, delete_rows,
}

-- `order_by(col, Asc)`, `order_by_desc(col)`, or no order; the column as a number.
pub data Order (A : Type 0) : Type 0 where
  asc desc : (A → ℕ) → Order A
  unordered : Order A

pub record Engine : Type 0 where
  -- Entity::find().filter(p).order_by(o).all()
  pub select : (t : Table) → (Row t → Bool) → Order (Row t) → Db → Result (List (Row t))
  -- timeline::Entity::find().join(InnerJoin, Apps).filter(p).order_by_desc(o).all()
  pub join_apps :
      (TimelineModel → AppModel → Bool) → Order TimelineModel → Db → Result (List TimelineModel)
  -- timeline::Entity::find().order_by_desc(o).find_also_related(checkpoints::Entity).all()
  pub find_also_related :
      Order TimelineModel → Db → Result (List (TimelineModel × Option CheckpointModel))
  -- Entity::find().filter(p).one(), and find_by_id(k).one()
  pub one : (t : Table) → (Row t → Bool) → Db → Result (Option (Row t))
  -- Entity::find().filter(p).count()
  pub count : (t : Table) → (Row t → Bool) → Db → Result ℕ
  -- SELECT max(id)
  pub max_id : (t : Table) → Db → Result (Option I32)
  -- Entity::insert(row).exec(), with the id set
  pub insert : (t : Table) → Row t → Db → Result Db
  -- Entity::insert(row).exec(), with the id left to the database
  pub insert_new : (t : Table) → (I32 → Row t) → Db → Result Db
  -- ActiveModel::update(): the columns that are set, at a primary key
  pub update : (t : Table) → I32 → (Row t → Row t) → Db → Result Db
  -- Entity::delete_many().filter(p).exec(), and delete_by_id(k)
  pub delete : (t : Table) → (Row t → Bool) → Db → Result Db

abbrev pub Before : {A : Type 0} → Order A → A → A → Type 0
Before (asc f) x y = f x ≤ f y
Before (desc f) x y = f y ≤ f x
Before unordered x y = Unit

abbrev pub InOrder : {A : Type 0} → Order A → List A → Type 0
InOrder o [] = Unit
InOrder o (x ∷ xs) = All (Before o x) xs × InOrder o xs

-- Exactly the rows of the table that pass the filter, each as often, in the order asked for.
pub record Selects (t : Table) (p : Row t → Bool) (o : Order (Row t)) (db : Db) (xs : List (Row t))
    : Type 0 where
  pub sound : (r : Row t) → Has r xs → Has r (rows t db) × (p r ≡ true)
  pub complete : (r : Row t) → Has r (rows t db) → p r ≡ true → Has r xs
  pub as_many : length xs ≡ length (filter p (rows t db))
  pub in_order : InOrder o xs

-- Some row of the list that passes the filter, or none if no row does.
abbrev pub Picks : {A : Type 0} → (A → Bool) → List A → Option A → Type 0
Picks {A} p xs none = (r : A) → Has r xs → p r ≡ false
Picks p xs (some r) = Has r xs × (p r ≡ true)

-- The pairs of a row and an app that it refers to, that pass the filter.
abbrev pub beside :
    (TimelineModel → AppModel → Bool) → List AppModel → TimelineModel → List AppModel
beside p found r = filter (λ a. a.id == r.app_id && p r a) found

abbrev pub count_pairs : (TimelineModel → AppModel → Bool) → List AppModel → List TimelineModel → ℕ
count_pairs p found [] = 0
count_pairs p found (r ∷ rs) = length (beside p found r) + count_pairs p found rs

-- Exactly the timeline rows that pass the filter beside the app that they refer to, one for each such pair.
pub record Joins (p : TimelineModel → AppModel → Bool) (o : Order TimelineModel) (db : Db)
    (xs : List TimelineModel) : Type 0 where
  pub sound :
      (r : TimelineModel)
      → Has r xs
      → Has r db.timeline × ((a : AppModel) × Has a db.apps × (a.id ≡ r.app_id) × (p r a ≡ true))
  pub complete :
      (r : TimelineModel) (a : AppModel)
      → Has r db.timeline
      → Has a db.apps
      → a.id ≡ r.app_id
      → p r a ≡ true
      → Has r xs
  pub as_many : length xs ≡ count_pairs p db.apps db.timeline
  pub in_order : InOrder o xs

-- Every row of the timeline, each as often, in the order asked for, beside the checkpoint that it
-- refers to, if there is one.
abbrev pub IsPartner : Db → TimelineModel → Option CheckpointModel → Type 0
IsPartner db r (some c) = Has c db.checkpoints × (r.checkpoint_id ≡ some c.id)
IsPartner db r none = (c : CheckpointModel) → Has c db.checkpoints → r.checkpoint_id ≢ some c.id

pub record Relates (o : Order TimelineModel) (db : Db)
    (xs : List (TimelineModel × Option CheckpointModel)) : Type 0 where
  pub all_rows : Selects timeline (λ r. true) o db (map (λ x. x.0) xs)
  pub partners : (x : TimelineModel × Option CheckpointModel) → Has x xs → IsPartner db x.0 x.1

-- The largest key of the table, in signed order.
abbrev pub IsMaxId : (t : Table) → List (Row t) → Option I32 → Type 0
IsMaxId t xs none = xs ≡ []
IsMaxId t xs (some m) = (has_key t m xs ≡ true) × ((r : Row t) → Has r xs → rank (key t r) ≤ rank m)

-- One more row, under a key that no other row has, which passes the unique index.
abbrev pub Inserts : (t : Table) → Row t → Db → Db → Type 0
Inserts t r db db' =
    (has_key t (key t r) (rows t db) ≡ false)
    × (db' ≡ put_rows t (rows t db ++ r ∷ []) db)
    × (clashes t r (rows t db) ≡ false)

pub record Lawful (e : Engine) : Type 0 where
  pub select_law :
      (t : Table) (p : Row t → Bool) (o : Order (Row t)) (db : Db)
      → OnOk (e.select t p o db) (Selects t p o db)
  pub join_law :
      (p : TimelineModel → AppModel → Bool) (o : Order TimelineModel) (db : Db)
      → OnOk (e.join_apps p o db) (Joins p o db)
  pub related_law :
      (o : Order TimelineModel) (db : Db) → OnOk (e.find_also_related o db) (Relates o db)
  pub one_law : (t : Table) (p : Row t → Bool) (db : Db) → OnOk (e.one t p db) (Picks p (rows t db))
  pub count_law :
      (t : Table) (p : Row t → Bool) (db : Db)
      → OnOk (e.count t p db) (λ n. n ≡ length (filter p (rows t db)))
  pub max_id_law : (t : Table) (db : Db) → OnOk (e.max_id t db) (IsMaxId t (rows t db))
  pub insert_law : (t : Table) (r : Row t) (db : Db) → OnOk (e.insert t r db) (Inserts t r db)
  pub insert_new_law :
      (t : Table) (f : I32 → Row t) (db : Db)
      → OnOk (e.insert_new t f db) (λ db'. (k : I32) × (key t (f k) ≡ k) × Inserts t (f k) db db')
  pub update_law :
      (t : Table) (k : I32) (f : Row t → Row t) (db : Db)
      → OnOk (e.update t k f db) (λ db'. db' ≡ put_rows t (update_rows t k f (rows t db)) db)
  pub delete_law :
      (t : Table) (p : Row t → Bool) (db : Db)
      → OnOk (e.delete t p db) (λ db'. db' ≡ delete_rows t p db)

-- The rows that a new row refers to are there.
abbrev pub Refers : (t : Table) → Row t → Db → Type 0
Refers apps r db = Unit
Refers timeline r db =
    ((a : AppModel) × Has a db.apps × (a.id ≡ r.app_id))
    × ((k : I32)
        → r.checkpoint_id ≡ some k
        → (c : CheckpointModel) × Has c db.checkpoints × (c.id ≡ k))
Refers checkpoints r db = (a : AppModel) × Has a db.apps × (a.id ≡ r.app_id)
Refers process_aliases r db = (a : AppModel) × Has a db.apps × (a.id ≡ r.app_id)

-- An update that leaves alone the columns that keys, references and the unique index are about.
abbrev pub Leaves : (t : Table) → (Row t → Row t) → Type 0
Leaves apps f = (r : AppModel) → (f r).id ≡ r.id
Leaves timeline f =
    (r : TimelineModel)
    → ((f r).id ≡ r.id) × ((f r).app_id ≡ r.app_id) × ((f r).checkpoint_id ≡ r.checkpoint_id)
Leaves checkpoints f =
    (r : CheckpointModel) → ((f r).id ≡ r.id) × ((f r).app_id ≡ r.app_id) × ((f r).name ≡ r.name)
Leaves process_aliases f = (r : AliasModel) → ((f r).id ≡ r.id) × ((f r).app_id ≡ r.app_id)

-- A database that is in reach: reads answer; an update of a row that is there succeeds, if it leaves keys
-- and references alone; and so does an insert under a key that no other row has, of a row that passes the
-- unique index and refers to rows that are there.
pub record Reliable (e : Engine) : Type 0 where
  pub select_answers :
      (t : Table) (p : Row t → Bool) (o : Order (Row t)) (db : Db)
      → (xs : List (Row t)) × (e.select t p o db ≡ ok xs)
  pub one_answers :
      (t : Table) (p : Row t → Bool) (db : Db) → (r : Option (Row t)) × (e.one t p db ≡ ok r)
  pub update_answers :
      (t : Table) (k : I32) (f : Row t → Row t) (db : Db)
      → has_key t k (rows t db) ≡ true
      → Leaves t f
      → (db' : Db) × (e.update t k f db ≡ ok db')
  pub join_answers :
      (p : TimelineModel → AppModel → Bool) (o : Order TimelineModel) (db : Db)
      → (xs : List TimelineModel) × (e.join_apps p o db ≡ ok xs)
  pub count_answers : (t : Table) (p : Row t → Bool) (db : Db) → (n : ℕ) × (e.count t p db ≡ ok n)
  pub max_id_answers : (t : Table) (db : Db) → (m : Option I32) × (e.max_id t db ≡ ok m)
  pub insert_answers :
      (t : Table) (r : Row t) (db : Db)
      → has_key t (key t r) (rows t db) ≡ false
      → clashes t r (rows t db) ≡ false
      → Refers t r db
      → (db' : Db) × (e.insert t r db ≡ ok db')
  pub related_answers :
      (o : Order TimelineModel) (db : Db)
      → (xs : List (TimelineModel × Option CheckpointModel)) × (e.find_also_related o db ≡ ok xs)
