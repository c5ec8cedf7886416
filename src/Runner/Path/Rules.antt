-- ===== src/Runner/Path/Rules.antt =====
-- internal/runner: the rules by which a program is shown to make only allowed calls.
use agent_trail.Base.{◌≡◌, refl, ◌∙◌, Bool, true, false, if◌then◌else◌}
use agent_trail.Status.Graph.{IsWorking}
use agent_trail.Db.{Result, ok, err}
use agent_trail.Runner.Defs.{
  Fault, is_attempt_failed, Answer, given, refused, Call, Ask, Signal, store, Prog, ret, fail, act,
  Outcome, returned, failed, caught, call, ask, from_result, from_answer, perform, signal, ◌>>=◌,
}
use agent_trail.Runner.Fence.{Job}
use agent_trail.Runner.Path.Defs.{View, seen, Follows}

pub follows_weaken :
    {A : Type 0} (j : Job) (g : View) (m : Prog A) (Q R : View → Outcome A → Type 0)
    → Follows j g m Q
    → ((h : View) (o : Outcome A) → Q h o → R h o)
    → Follows j g m R
follows_weaken j g (ret a) Q R p q = q g (returned a) p
follows_weaken j g (fail f) Q R p q = q g (failed f) p
follows_weaken j g (act c k) Q R p q = (p.0, λ r. follows_weaken j (seen g c r) (k r) Q R (p.1 r) q)

abbrev pub AfterBind :
    {A B : Type 0} → Job → (A → Prog B) → (View → Outcome B → Type 0) → View → Outcome A → Type 0
AfterBind j f Q h (returned a) = Follows j h (f a) Q
AfterBind j f Q h (failed e) = Q h (failed e)

pub follows_bind :
    {A B : Type 0} (j : Job) (g : View) (m : Prog A) (f : A → Prog B)
    (Q : View → Outcome B → Type 0)
    → Follows j g m (AfterBind j f Q)
    → Follows j g (m >>= f) Q
unfolding ◌>>=◌
follows_bind j g (ret a) f Q p = p
follows_bind j g (fail e) f Q p = p
follows_bind j g (act c k) f Q p = (p.0, λ r. follows_bind j (seen g c r) (k r) f Q (p.1 r))

pub follows_caught :
    {A B : Type 0} (j : Job) (g : View) (m : Prog A) (f : Outcome A → Prog B)
    (Q : View → Outcome B → Type 0)
    → Follows j g m (λ h o. Follows j h (f o) Q)
    → Follows j g (caught m f) Q
unfolding caught
follows_caught j g (ret a) f Q p = p
follows_caught j g (fail e) f Q p = p
follows_caught j g (act c k) f Q p = (p.0, λ r. follows_caught j (seen g c r) (k r) f Q (p.1 r))

abbrev pub Same : View → View → Type 0
Same g h = (h.status ≡ g.status) × (h.has_target ≡ g.has_target)

-- A program that leaves the status and the target alone, however it ends.
abbrev pub Quiet : {A : Type 0} → Job → Prog A → Type 0
Quiet {A} j m = (g : View) → Follows j g m (λ (h : View) (o : Outcome A). Same g h)

-- A program that may also fail the task that is worked on, and then says so.
abbrev pub CalmEnd : {A : Type 0} → View → View → Outcome A → Type 0
CalmEnd g h (returned a) = Same g h
CalmEnd g h (failed f) = is_attempt_failed f ≡ false → Same g h

abbrev pub Calm : {A : Type 0} → Job → Prog A → Type 0
Calm j m = (g : View) → IsWorking g.status → Follows j g m (CalmEnd g)

module _ (j : Job) where
  pub trans-Same : (g h k : View) → Same g h → Same h k → Same g k
  trans-Same g h k p q = (q.0 ∙ p.0, q.1 ∙ p.1)

  IsWorking-Same : (g h : View) → Same g h → IsWorking g.status → IsWorking h.status
  IsWorking-Same g h p w = rw p.0 w

  pub ret-Quiet : {A : Type 0} (a : A) → Quiet j (ret a)
  ret-Quiet a g = (refl, refl)

  pub fail-Quiet : (A : Type 0) (f : Fault) → Quiet {A = A} j (fail f)
  fail-Quiet A f g = (refl, refl)

  pub bind-Quiet :
      {A B : Type 0} (m : Prog A) (f : A → Prog B)
      → Quiet j m
      → ((a : A) → Quiet j (f a))
      → Quiet j (m >>= f)
  bind-Quiet {A} {B} m f p q g =
      follows_bind j g m f (λ h o. Same g h)
        (follows_weaken j g m (λ h o. Same g h) (AfterBind j f (λ h o. Same g h)) (p g) rest)
    where
      rest :
          (h : View) (o : Outcome A)
          → Same g h
          → AfterBind j f (λ (k : View) (o : Outcome B). Same g k) h o
      rest h (returned a) s =
          follows_weaken j h (f a) (λ k o. Same h k) (λ k o. Same g k) (q a h)
            (λ k o t. trans-Same g h k s t)
      rest h (failed e) s = s

  pub caught-Quiet :
      {A B : Type 0} (m : Prog A) (f : Outcome A → Prog B)
      → Quiet j m
      → ((o : Outcome A) → Quiet j (f o))
      → Quiet j (caught m f)
  caught-Quiet {A} {B} m f p q g =
      follows_caught j g m f (λ h o. Same g h)
        (follows_weaken j g m (λ h o. Same g h) (λ h o. Follows j h (f o) (λ k o. Same g k)) (p g)
          (λ h o s.
            follows_weaken j h (f o) (λ k o. Same h k) (λ k o. Same g k) (q o h)
              (λ k o t. trans-Same g h k s t)))

  pub store-Quiet : (c : Call) → Quiet j (call (store c))
  store-Quiet c g = (tt, λ r. (refl, refl))

  pub ask-Quiet : (a : Ask) → Quiet j (ask a)
  ask-Quiet a g = (tt, λ r. (refl, refl))

  pub signal-Quiet : (s : Signal) → Quiet j (signal s)
  signal-Quiet s g = (tt, λ r. (refl, refl))

  pub answer-Quiet : {A : Type 0} (a : Answer A) → Quiet j (from_answer a)
  answer-Quiet (given a) g = (refl, refl)
  answer-Quiet (refused r) g = (refl, refl)

  pub result-Quiet : {A : Type 0} (a : Result A) → Quiet j (from_result a)
  result-Quiet (ok a) g = (refl, refl)
  result-Quiet (err e) g = (refl, refl)

  pub perform-Quiet : (c : Call) → Quiet j (perform c)
  perform-Quiet c = bind-Quiet (call (store c)) from_result (store-Quiet c) result-Quiet

  pub if-Quiet :
      {A : Type 0} (b : Bool) (m n : Prog A) → Quiet j m → Quiet j n → Quiet j (if b then m else n)
  if-Quiet true m n p q = p
  if-Quiet false m n p q = q

  pub Quiet-Calm : {A : Type 0} (m : Prog A) → Quiet j m → Calm j m
  Quiet-Calm {A} m p g w = follows_weaken j g m (λ h o. Same g h) (CalmEnd g) (p g) end
    where
      end : (h : View) (o : Outcome A) → Same g h → CalmEnd g h o
      end h (returned a) s = s
      end h (failed f) s = λ e. s

  pub bind-Calm :
      {A B : Type 0} (m : Prog A) (f : A → Prog B)
      → Calm j m
      → ((a : A) → Calm j (f a))
      → Calm j (m >>= f)
  bind-Calm {A} {B} m f p q g w =
      follows_bind j g m f (CalmEnd g)
        (follows_weaken j g m (CalmEnd g) (AfterBind j f (CalmEnd g)) (p g w) rest)
    where
      last : (h : View) → Same g h → (k : View) (o : Outcome B) → CalmEnd h k o → CalmEnd g k o
      last h s k (returned b) t = trans-Same g h k s t
      last h s k (failed e) t = λ c. trans-Same g h k s (t c)

      rest : (h : View) (o : Outcome A) → CalmEnd g h o → AfterBind j f (CalmEnd g) h o
      rest h (returned a) s =
          follows_weaken j h (f a) (CalmEnd h) (CalmEnd g) (q a h (IsWorking-Same g h s w))
            (last h s)
      rest h (failed e) s = s

  -- What a quiet program answers may be followed by a calm one, whichever way it ends.
  pub caught-Calm :
      {A B : Type 0} (m : Prog A) (f : Outcome A → Prog B)
      → Quiet j m
      → ((o : Outcome A) → Calm j (f o))
      → Calm j (caught m f)
  caught-Calm {A} {B} m f p q g w = follows_caught j g m f (CalmEnd g) (
      follows_weaken j g m (λ h o. Same g h) (λ h o. Follows j h (f o) (CalmEnd g)) (p g)
        (λ h o s.
          follows_weaken j h (f o) (CalmEnd h) (CalmEnd g) (q o h (IsWorking-Same g h s w))
            (last h s)))
    where
      last : (h : View) → Same g h → (k : View) (o : Outcome B) → CalmEnd h k o → CalmEnd g k o
      last h s k (returned b) t = trans-Same g h k s t
      last h s k (failed e) t = λ c. trans-Same g h k s (t c)

  pub if-Calm :
      {A : Type 0} (b : Bool) (m n : Prog A) → Calm j m → Calm j n → Calm j (if b then m else n)
  if-Calm true m n p q = p
  if-Calm false m n p q = q

  pub then-Calm :
      {A B : Type 0} (m : Prog A) (f : A → Prog B)
      → Quiet j m
      → ((a : A) → Calm j (f a))
      → Calm j (m >>= f)
  then-Calm m f p q = bind-Calm m f (Quiet-Calm m p) q

-- An end that says nothing of errors.
abbrev pub Ends : {A : Type 0} → (View → A → Type 0) → View → Outcome A → Type 0
Ends P h (returned a) = P h a
Ends P h (failed f) = Unit {0}

module _ (j : Job) where
  pub follows_go :
      {A B : Type 0} (g : View) (m : Prog A) (f : A → Prog B) (R : View → A → Type 0)
      (P : View → B → Type 0)
      → Follows j g m (Ends R)
      → ((h : View) (a : A) → R h a → Follows j h (f a) (Ends P))
      → Follows j g (m >>= f) (Ends P)
  follows_go {A} g m f R P p q =
      follows_bind j g m f (Ends P) (follows_weaken j g m (Ends R) (AfterBind j f (Ends P)) p end)
    where
      end : (h : View) (o : Outcome A) → Ends R h o → AfterBind j f (Ends P) h o
      end h (returned a) r = q h a r
      end h (failed e) r = tt

  pub Quiet-Ends :
      {A : Type 0} (g : View) (m : Prog A) → Quiet j m → Follows j g m (Ends (λ h a. Same g h))
  Quiet-Ends {A} g m p = follows_weaken j g m (λ h o. Same g h) (Ends (λ h a. Same g h)) (p g) end
    where
      end : (h : View) (o : Outcome A) → Same g h → Ends (λ (k : View) (a : A). Same g k) h o
      end h (returned a) s = s
      end h (failed f) s = tt

  pub Calm-Ends :
      {A : Type 0} (g : View) (m : Prog A)
      → IsWorking g.status
      → Calm j m
      → Follows j g m (Ends (λ h a. Same g h))
  Calm-Ends {A} g m w p = follows_weaken j g m (CalmEnd g) (Ends (λ h a. Same g h)) (p g w) end
    where
      end : (h : View) (o : Outcome A) → CalmEnd g h o → Ends (λ (k : View) (a : A). Same g k) h o
      end h (returned a) s = s
      end h (failed f) s = tt

  pub go-Quiet :
      {A B : Type 0} (g : View) (m : Prog A) (f : A → Prog B) (P : View → B → Type 0)
      → Quiet j m
      → ((h : View) (a : A) → Same g h → Follows j h (f a) (Ends P))
      → Follows j g (m >>= f) (Ends P)
  go-Quiet g m f P p q = follows_go g m f (λ h a. Same g h) P (Quiet-Ends g m p) q

  -- A program that is followed whichever way it ends.
  pub caught_go :
      {A B : Type 0} (g : View) (m : Prog A) (f : Outcome A → Prog B) (R : View → A → Type 0)
      (P : View → B → Type 0)
      → Follows j g m (Ends R)
      → ((h : View) (a : A) → R h a → Follows j h (f (returned a)) (Ends P))
      → ((h : View) (e : Fault) → Follows j h (f (failed e)) (Ends P))
      → Follows j g (caught m f) (Ends P)
  caught_go {A} g m f R P p q r =
      follows_caught j g m f (Ends P)
        (follows_weaken j g m (Ends R) (λ h o. Follows j h (f o) (Ends P)) p end)
    where
      end : (h : View) (o : Outcome A) → Ends R h o → Follows j h (f o) (Ends P)
      end h (returned a) s = q h a s
      end h (failed e) s = r h e

  pub Same-Ends :
      {A : Type 0} (g h : View) (m : Prog A)
      → Same g h
      → Follows j h m (Ends (λ k a. Same h k))
      → Follows j h m (Ends (λ k a. Same g k))
  Same-Ends {A} g h m s p =
      follows_weaken j h m (Ends (λ k a. Same h k)) (Ends (λ k a. Same g k)) p end
    where
      end :
          (k : View) (o : Outcome A)
          → Ends (λ (l : View) (a : A). Same h l) k o
          → Ends (λ (l : View) (a : A). Same g l) k o
      end k (returned a) t = trans-Same j g h k s t
      end k (failed f) t = tt
