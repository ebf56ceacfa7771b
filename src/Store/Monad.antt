-- ===== src/Store/Monad.antt =====
-- A function of the program that talks to the database: it changes the database and returns a
-- value or an error. What a failed function has already written stays written.
use time_tracker.Common.{Result, ok, err, String, List, [], ◌∷◌}
use time_tracker.Store.{Db}

abbrev pub M : Type 0 → Type 0
M A = Db → Db × Result A

abbrev pub and_then : {A B : Type 0} → (A → M B) → Db → Result A → Db × Result B
and_then f db (ok a) = f a db
and_then f db (err x) = (db, err x)

infixl 5 ◌>>=◌ ◌>>◌
abbrev pub ◌>>=◌ : {A B : Type 0} → M A → (A → M B) → M B
◌>>=◌ m f db = and_then f (m db).0 (m db).1

abbrev pub ◌>>◌ : {A B : Type 0} → M A → M B → M B
m >> k = m >>= λ _. k

abbrev pub pure : {A : Type 0} → A → M A
pure a db = (db, ok a)

abbrev pub fail : {A : Type 0} → String → M A
fail x db = (db, err x)

-- A value that is at hand, or the `?` of an error that is.
abbrev pub lift : {A : Type 0} → Result A → M A
lift r db = (db, r)

-- A query reads; a statement that fails changes nothing.
abbrev pub query : {A : Type 0} → (Db → Result A) → M A
query q db = (db, q db)

abbrev pub executed : Db → Result Db → Db × Result (Unit {0})
executed db (ok db') = (db', ok tt)
executed db (err x) = (db, err x)

abbrev pub execute : (Db → Result Db) → M (Unit {0})
execute u db = executed db (u db)

-- A call whose error is only logged.
abbrev pub logged : {A : Type 0} → M A → M (Unit {0})
logged m db = ((m db).0, ok tt)

-- `for x in xs { … }`
unfoldable pub for_each : {A : Type 0} → List A → (A → M (Unit {0})) → M (Unit {0})
for_each [] f = pure tt
for_each (x ∷ xs) f = f x >> for_each xs f
