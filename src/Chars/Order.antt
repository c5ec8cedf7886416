-- ===== src/Chars/Order.antt =====
-- The order of Go's strings, by their bytes, which is that of their code points.
use Prim.Native.String.{compare}
use Prim.Native.String.compare as Compare
use Prim.Native.Nat.{Ordering}
use agent_trail.Base.{String, Bool, true, false, ◌≡◌, refl, arith}
use text.Mathlib.TextEquality.{path_by_compare}

abbrev pub text_leb : String → String → Bool
text_leb a b = elim (compare a b) [ Ordering.gt ↦ false | _ ↦ true ]

pub text_total : (a b : String) → text_leb a b ≡ false → text_leb b a ≡ true
text_total String.[] String.[] h = refl
text_total String.[] (String.◌∷◌ d t) h = ground (arith, Compare.nil-cons d t)
text_total (String.◌∷◌ c s) String.[] h = ground (arith, Compare.nil-cons c s)
text_total (String.◌∷◌ c s) (String.◌∷◌ d t) h =
    ground (arith, text_total s t, Compare.cons-cons c d s t, Compare.cons-cons d c t s)

pub text_trans : (a b c : String) → text_leb a b ≡ true → text_leb b c ≡ true → text_leb a c ≡ true
text_trans String.[] String.[] u h k = k
text_trans String.[] (String.◌∷◌ d t) String.[] h k = refl
text_trans String.[] (String.◌∷◌ d t) (String.◌∷◌ e u) h k = ground (arith, Compare.nil-cons e u)
text_trans (String.◌∷◌ c s) String.[] u h k = ground (arith, Compare.cons-nil c s)
text_trans (String.◌∷◌ c s) (String.◌∷◌ d t) String.[] h k = ground (arith, Compare.cons-nil d t)
text_trans (String.◌∷◌ c s) (String.◌∷◌ d t) (String.◌∷◌ e u) h k = ground (
  arith,
  text_trans s t u,
  Compare.cons-cons c d s t,
  Compare.cons-cons d e t u,
  Compare.cons-cons c e s u,
)

both_ways : (a b : String) → text_leb a b ≡ true → text_leb b a ≡ true → compare a b ≡ Ordering.eq
both_ways String.[] String.[] h k = refl
both_ways String.[] (String.◌∷◌ d t) h k = ground (arith, Compare.cons-nil d t)
both_ways (String.◌∷◌ c s) String.[] h k = ground (arith, Compare.cons-nil c s)
both_ways (String.◌∷◌ c s) (String.◌∷◌ d t) h k =
    ground (arith, both_ways s t, Compare.cons-cons c d s t, Compare.cons-cons d c t s)

pub text_antisym : (a b : String) → text_leb a b ≡ true → text_leb b a ≡ true → a ≡ b
text_antisym a b h k = path_by_compare a b (both_ways a b h k)
