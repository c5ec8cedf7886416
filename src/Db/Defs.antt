-- ===== src/Db/Defs.antt =====
-- The database as the stores use it: the tables that they write, one transaction over them, and
-- the errors that end it. A transaction that returns an error is rolled back (`defer tx.Rollback()`).
use agent_trail.Base.{ℕ, zero, suc, String, Bool, true, false, Option, none, some, List, [], ◌∷◌}
use agent_trail.Task.{Task, Attempt, Event, Error, failed_statement}

pub record Db : Type 0 where
  pub tasks : List Task
  pub attempts : List Attempt
  pub events : List Event

-- What a transaction finds when it begins: the tables, the clock (`now()` is fixed in a
-- transaction), the values that `gen_random_uuid()` will give, and how many statements go well
-- before one is refused, by a lost connection, a CHECK constraint or another cause that the code
-- does not tell apart.
pub record Session : Type 0 where
  pub db : Db
  pub now : ℕ
  pub ids : List String
  pub healthy : ℕ

pub data Result {ℓ} (A : Type ℓ) : Type ℓ where
  ok : A → Result A
  err : Error → Result A

abbrev pub Tx : Type 0 → Type 0
Tx A = Session → Result (A × Session)

infixl 5 ◌>>=◌ ◌>>◌
unfoldable pub ◌>>=◌ : {A B : Type 0} → Tx A → (A → Tx B) → Tx B
◌>>=◌ m f s = elim (m s) [ err e ↦ err e | ok (a, s') ↦ f a s' ]

abbrev pub ◌>>◌ : {B : Type 0} → Tx (Unit {0}) → Tx B → Tx B
m >> k = m >>= λ _. k

abbrev pub pure : {A : Type 0} → A → Tx A
pure a s = ok (a, s)

abbrev pub throw : {A : Type 0} → Error → Tx A
throw e s = err e

abbrev pub require : Bool → Error → Tx (Unit {0})
require true e s = ok (tt, s)
require false e s = err e

-- A statement that only reads. Its name is the prefix of the error that it is wrapped in.
unfoldable pub query : {A : Type 0} → String → (Db → A) → Tx A
query what f s = elim s.healthy [
  | zero ↦ err (failed_statement what)
  | suc h ↦ ok (f s.db, record s { healthy = h })
]

-- A statement that writes; `now` is its clock.
unfoldable pub exec : String → (ℕ → Db → Db) → Tx (Unit {0})
exec what f s = elim s.healthy [
  | zero ↦ err (failed_statement what)
  | suc h ↦ ok (tt, record s { db = f s.now s.db; healthy = h })
]

-- The next value of `gen_random_uuid()`.
unfoldable pub fresh_id : String → Tx String
fresh_id what s = elim s.ids [
  | [] ↦ err (failed_statement what)
  | id ∷ rest ↦ ok (id, record s { ids = rest })
]

-- A row that has to be there.
abbrev pub or_throw : {A : Type 0} → Option A → Error → Tx A
or_throw none e = throw e
or_throw (some a) e = pure a

-- `tx.Commit()`
unfoldable pub commit : Tx (Unit {0})
unfolding exec
commit = exec "commit" (λ now db. db)

abbrev settle : {A : Type 0} → Db → Result (A × Session) → Result A × Db
settle before (ok (a, s)) = (ok a, s.db)
settle before (err e) = (err e, before)

-- `BeginTx` and a body that commits; the deferred `Rollback` undoes the body on every error. A
-- body that returns a value without `commit` has written nothing.
unfoldable pub transaction : {A : Type 0} → Tx A → Session → Result A × Db
unfolding exec ◌>>=◌
transaction body s = settle s.db ((exec "begin" (λ now db. db) >> body) s)

-- A statement outside a transaction.
unfoldable pub statement : {A : Type 0} → Tx A → Session → Result A × Db
statement body s = settle s.db (body s)
