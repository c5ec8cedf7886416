-- ===== src/Chars/Defs.antt =====
-- strings.Split, SplitN, Fields, TrimSpace, Trim, HasPrefix, TrimPrefix and strconv.Atoi, as the code uses
-- them.
use agent_trail.Base.{
  ℕ, zero, suc, ◌+◌, ◌-◌, ◌*◌, Bool, true, false, not, ◌&&◌, ◌||◌, Option, none, some, List, [],
  ◌∷◌, leb, ◌==◌, if◌then◌else◌, ℤ, pos, negsuc, ◌≡◌, refl,
}
use agent_trail.Text.{codes}

abbrev pub Chars : Type 0
Chars = List ℕ

unfoldable pub same_chars : Chars → Chars → Bool
same_chars [] [] = true
same_chars (c ∷ s) (d ∷ t) = c == d && same_chars s t
same_chars _ _ = false

-- unicode.IsSpace
unfoldable pub is_space : ℕ → Bool
is_space c =
    (leb 9 c && leb c 13)
    || c == 32
    || c == 133
    || c == 160
    || c == 5760
    || (leb 8192 c && leb c 8202)
    || c == 8232
    || c == 8233
    || c == 8239
    || c == 8287
    || c == 12288

unfoldable pub trim_left : (ℕ → Bool) → Chars → Chars
trim_left p [] = []
trim_left p (c ∷ s) = let rest = trim_left p s in if p c then rest else c ∷ s

abbrev pub keep : (ℕ → Bool) → ℕ → Chars → Chars
keep p c [] = if p c then [] else c ∷ []
keep p c (d ∷ s) = c ∷ d ∷ s

unfoldable pub trim_right : (ℕ → Bool) → Chars → Chars
trim_right p [] = []
trim_right p (c ∷ s) = keep p c (trim_right p s)

unfoldable pub trim : (ℕ → Bool) → Chars → Chars
trim p s = trim_right p (trim_left p s)

abbrev pub blank : Chars → Bool
blank [] = true
blank (c ∷ s) = is_space c && blank s

-- Puts a character in front of the first part.
abbrev pub onto_first : ℕ → List Chars → List Chars
onto_first c [] = (c ∷ []) ∷ []
onto_first c (w ∷ ws) = (c ∷ w) ∷ ws

-- strings.Split at one character
unfoldable pub split : ℕ → Chars → List Chars
split sep [] = [] ∷ []
split sep (c ∷ s) = let rest = split sep s in if c == sep then [] ∷ rest else onto_first c rest

-- The part before the first separator, and the rest after it where there is one.
unfoldable pub cut : ℕ → Chars → Chars × Option Chars
cut sep [] = ([], none)
cut sep (c ∷ s) =
    let (before, after) = cut sep s in if c == sep then ([], some s) else (c ∷ before, after)

-- The parts between runs of spaces; `word` says that the text before ended in the middle of one.
abbrev push_char : Bool → ℕ → List Chars → List Chars
push_char true c ws = onto_first c ws
push_char false c ws = (c ∷ []) ∷ ws

-- Whether the text begins with a character that is no space.
abbrev starts_word : Chars → Bool
starts_word [] = false
starts_word (c ∷ s) = not (is_space c)

-- strings.Fields
unfoldable pub fields : Chars → List Chars
fields [] = []
fields (c ∷ s) =
    let rest = fields s in if is_space c then rest else push_char (starts_word s) c rest

-- The text after the prefix.
unfoldable pub after_prefix : Chars → Chars → Option Chars
after_prefix [] s = some s
after_prefix (c ∷ p) [] = none
after_prefix (c ∷ p) (d ∷ s) = let rest = after_prefix p s in if c == d then rest else none

abbrev pub or_same : Chars → Option Chars → Chars
or_same s none = s
or_same s (some t) = t

-- strings.TrimPrefix
abbrev pub trim_prefix : Chars → Chars → Chars
trim_prefix p s = or_same s (after_prefix p s)

abbrev pub has_prefix : Chars → Chars → Bool
has_prefix p s = elim (after_prefix p s) [ none ↦ false | some t ↦ true ]

unfoldable pub char_count : Chars → ℕ
char_count [] = 0
char_count (c ∷ s) = suc (char_count s)

unfoldable pub first_chars : ℕ → Chars → Chars
first_chars n [] = []
first_chars zero (c ∷ s) = []
first_chars (suc n) (c ∷ s) = c ∷ first_chars n s

abbrev pub is_decimal : ℕ → Bool
is_decimal c = leb b'0' c && leb c b'9'

-- The number that the digits stand for, after those read already.
unfoldable pub decimal : ℕ → Chars → Option ℕ
decimal n [] = some n
decimal n (c ∷ s) =
    let rest = decimal (n * 10 + (c - b'0')) s in if is_decimal c then rest else none

unfoldable pub digits : Chars → Option ℕ
digits [] = none
digits (c ∷ s) = decimal 0 (c ∷ s)

-- the greatest `int`
abbrev pub max_int : ℕ
max_int = 9223372036854775807

abbrev up_to : ℕ → Option ℕ → Option ℕ
up_to m none = none
up_to m (some n) = if leb n m then some n else none

abbrev pub negated : ℕ → ℤ
negated zero = pos zero
negated (suc n) = negsuc n

abbrev positive : Option ℕ → Option ℤ
positive none = none
positive (some n) = some (pos n)

abbrev negative : Option ℕ → Option ℤ
negative none = none
negative (some n) = some (negated n)

-- strconv.Atoi, and the same of a text that is known to hold digits alone
unfoldable pub parse_nat : Chars → Option ℕ
parse_nat s = up_to max_int (digits s)

unfoldable pub atoi : Chars → Option ℤ
atoi [] = none
atoi (c ∷ s) =
    if c == b'-'
    then negative (up_to (max_int + 1) (digits s))
    else if c == b'+'
    then positive (parse_nat s)
    else positive (parse_nat (c ∷ s))

two_words : fields (codes "  /agent-trail  run ") ≡ codes "/agent-trail" ∷ codes "run" ∷ []
unfolding fields is_space
two_words = refl

atoi_run : atoi (codes "-120") ≡ some (negsuc 119)
unfolding atoi digits decimal
atoi_run = refl
