-- ===== src/Db/Inversion.antt =====
-- What a statement that succeeds has done to the session.
use agent_trail.Base.{
  ◌⊎◌, inl, inr, ℕ, String, Bool, true, false, Option, none, some, ◌≡◌, refl, ap, arith, ◌∙◌,
}
use agent_trail.Task.{Error}
use agent_trail.Db.Defs.{
  ◌>>◌, transaction, statement, Db, Session, Result, ok, err, Tx, ◌>>=◌, query, exec, fresh_id,
  require, or_throw, commit,
}

-- A bind that succeeds: what is proved from the two parts' success.
step_through :
    {A B C : Type 0} (r : Result (A × Session)) (f : A → Tx B) {b : B} {t : Session}
    → (elim r [ err e ↦ err e | ok (a, s') ↦ f a s' ]) ≡ ok (b, t)
    → ((a : A) (s' : Session) → r ≡ ok (a, s') → f a s' ≡ ok (b, t) → C)
    → C
step_through (ok (a, s)) f h k = k a s refl h
step_through (err e) f h k = absurd cc

pub on_ok :
    {A B C : Type 0} (m : Tx A) (f : A → Tx B) {s : Session} {b : B} {t : Session}
    → (m >>= f) s ≡ ok (b, t)
    → ((a : A) (s' : Session) → m s ≡ ok (a, s') → f a s' ≡ ok (b, t) → C)
    → C
unfolding ◌>>=◌
on_ok m f {s = s} h k = step_through (m s) f h k

abbrev run_on : {A B : Type 0} → (A → Tx B) → Result (A × Session) → Result (B × Session)
run_on f r = elim r [ err e ↦ err e | ok (a, s') ↦ f a s' ]

-- A bind whose first part succeeds.
pub then_ok :
    {A B : Type 0} (m : Tx A) (f : A → Tx B) {s : Session} {a : A} {t : Session}
    → m s ≡ ok (a, t)
    → (m >>= f) s ≡ f a t
unfolding ◌>>=◌
then_ok {A} {B} m f e = ap (run_on f) e

pub then_err :
    {A B : Type 0} (m : Tx A) (f : A → Tx B) {s : Session} {e : Error}
    → m s ≡ err e
    → (m >>= f) s ≡ err e
unfolding ◌>>=◌
then_err m f e = ap (run_on f) e

pub Result-cases :
    {A : Type 0} (r : Result (A × Session))
    → ((a : A) × (t : Session) × (r ≡ ok (a, t))) ⊎ ((e : Error) × (r ≡ err e))
Result-cases (ok (a, t)) = inl (a, t, refl)
Result-cases (err e) = inr (e, refl)

-- The tables and the clock are those of before.
abbrev pub Same : Session → Session → Type 0
Same s t = (t.db ≡ s.db) × (t.now ≡ s.now)

pub require-eq-ok :
    (b : Bool) (e : Error) (s : Session) {u : Unit {0}} {t : Session}
    → require b e s ≡ ok (u, t)
    → (b ≡ true) × (t ≡ s)
require-eq-ok true e s h = ground arith
require-eq-ok false e s h = cc

pub or_throw-eq-ok :
    {A : Type 0} (o : Option A) (e : Error) (s : Session) {a : A} {t : Session}
    → or_throw o e s ≡ ok (a, t)
    → (o ≡ some a) × (t ≡ s)
or_throw-eq-ok none e s h = cc
or_throw-eq-ok (some a) e s h = ground arith

pub query-eq-ok :
    {A : Type 0} (what : String) (f : Db → A) (s : Session) {a : A} {t : Session}
    → query what f s ≡ ok (a, t)
    → (f s.db ≡ a) × Same s t
unfolding query
query-eq-ok what f s h = ground arith

pub exec-eq-ok :
    (what : String) (f : ℕ → Db → Db) (s : Session) {u : Unit {0}} {t : Session}
    → exec what f s ≡ ok (u, t)
    → (t.db ≡ f s.now s.db) × (t.now ≡ s.now)
unfolding exec
exec-eq-ok what f s h = ground arith

pub fresh_id-eq-ok :
    (what : String) (s : Session) {id : String} {t : Session}
    → fresh_id what s ≡ ok (id, t)
    → Same s t
unfolding fresh_id
fresh_id-eq-ok what s h = ground arith

pub commit-eq-ok : (s : Session) {u : Unit {0}} {t : Session} → commit s ≡ ok (u, t) → Same s t
unfolding commit
commit-eq-ok s h = ground arith

ok_inj : {A : Type 0} {a b : A} → ok a ≡ ok b → a ≡ b
ok_inj h = cc

-- What holds of the tables before an operation and of those that a successful body leaves holds of
-- the tables after it.
pub transaction_keeps_at :
    {A : Type 0} (P : Db → Type 0) (body : Tx A) (s : Session)
    → P s.db
    → ((s' : Session) (a : A) (t : Session) → Same s s' → body s' ≡ ok (a, t) → P t.db)
    → P (transaction body s).1
unfolding transaction
transaction_keeps_at P body s h k = elim (Result-cases ((exec "begin" (λ now db. db) >> body) s)) [
  | inl (a, t, e) ↦ rw e (
      on_ok (exec "begin" (λ now db. db)) (λ _. body) {s = s} e
        λ u s' e1 e2. k s' a t (exec-eq-ok "begin" (λ now db. db) s e1) e2)
  | inr (x, e) ↦ rw e h
]

pub transaction_keeps :
    {A : Type 0} (P : Db → Type 0) (body : Tx A) (s : Session)
    → P s.db
    → ((s' : Session) (a : A) (t : Session) → s'.db ≡ s.db → body s' ≡ ok (a, t) → P t.db)
    → P (transaction body s).1
transaction_keeps P body s h k =
    transaction_keeps_at P body s h (λ s' a t same e. k s' a t same.0 e)

pub statement_keeps :
    {A : Type 0} (P : Db → Type 0) (body : Tx A) (s : Session)
    → P s.db
    → ((a : A) (t : Session) → body s ≡ ok (a, t) → P t.db)
    → P (statement body s).1
unfolding statement
statement_keeps P body s h k = elim (Result-cases (body s)) [
  | inl (a, t, e) ↦ rw e (k a t e)
  | inr (x, e) ↦ rw e h
]

-- A transaction that returns a value: its body has, and the tables are those that the body left.
pub transaction-eq-ok :
    {A C : Type 0} (body : Tx A) (s : Session) {a : A}
    → (transaction body s).0 ≡ ok a
    → ((s' t : Session) → Same s s' → (transaction body s).1 ≡ t.db → body s' ≡ ok (a, t) → C)
    → C
unfolding transaction
transaction-eq-ok body s h k = elim (Result-cases ((exec "begin" (λ now db. db) >> body) s)) [
  | inl (b, t, e) ↦
      on_ok (exec "begin" (λ now db. db)) (λ _. body) {s = s} e
        λ u s' e1 e2.
          let same = exec-eq-ok "begin" (λ now db. db) s e1 in
          let value : b ≡ _ = ok_inj (rw e at h) in k s' t same (rw e refl) (e2 ∙ (rw value))
  | inr (x, e) ↦ absurd (let q = rw e at h in cc)
]
