-- ===== src/Chars/Same.antt =====
-- Equality of texts as the code tests it.
use agent_trail.Base.{◌≡◌, refl, ap, true, [], ◌∷◌, arith}
use agent_trail.Chars.Defs.{Chars, same_chars}

pub same_refl : (s : Chars) → same_chars s s ≡ true
unfolding same_chars
same_refl [] = refl
same_refl (c ∷ s) = let rest = same_refl s in ground arith

pub same-eq : (s t : Chars) → same_chars s t ≡ true → s ≡ t
unfolding same_chars
same-eq [] [] h = refl
same-eq [] (d ∷ t) h = absurd cc
same-eq (c ∷ s) [] h = absurd cc
same-eq (c ∷ s) (d ∷ t) h =
    let rest = same-eq s t (ground arith) in let head : c ≡ d = ground arith in rw (head, rest) refl

pub same_comm : (s t : Chars) → same_chars s t ≡ same_chars t s
unfolding same_chars
same_comm [] [] = refl
same_comm [] (d ∷ t) = refl
same_comm (c ∷ s) [] = refl
same_comm (c ∷ s) (d ∷ t) = let rest = same_comm s t in ground arith

pub same_trans : (p q r : Chars) → same_chars p q ≡ true → same_chars p r ≡ same_chars q r
same_trans p q r h = ap (λ s. same_chars s r) (same-eq p q h)
