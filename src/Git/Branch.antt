-- ===== src/Git/Branch.antt =====
-- internal/gitworkspace/branch.go: the names of working branches.
use agent_trail.Base.{
  ℕ, ◌+◌, String, ◌≡◌, refl, Bool, true, false, not, ◌&&◌, ◌||◌, Option, none, some, [], ◌∷◌, ◌++◌,
  leb, ltb, ◌==◌, if◌then◌else◌,
}
use agent_trail.Text.{codes}
use agent_trail.Chars.Defs.{
  Chars, trim, trim_left, trim_right, after_prefix, char_count, first_chars,
}

-- [a-z0-9]
abbrev pub is_slug : ℕ → Bool
is_slug c = (leb b'a' c && leb c b'z') || (leb b'0' c && leb c b'9')

-- unicode.ToLower as far as it matters: beside the ASCII letters two runes, U+0130 and U+212A, have an
-- ASCII lower case; every other rune and its lower case are outside of [a-z0-9].
unfoldable pub to_lower : ℕ → ℕ
to_lower c =
    if leb b'A' c && leb c b'Z'
    then c + 32
    else if c == 304
    then b'i'
    else if c == 8490
    then b'k'
    else c

unfoldable pub lowered : Chars → Chars
lowered [] = []
lowered (c ∷ s) = to_lower c ∷ lowered s

-- nonSlug.ReplaceAllString(…, "-"): every run of other characters becomes one dash; `inside` says that the
-- run has begun.
unfoldable pub dashed : Bool → Chars → Chars
dashed inside [] = []
dashed inside (c ∷ s) =
    let rest = dashed (not (is_slug c)) s in
    if is_slug c then c ∷ rest else if inside then rest else b'-' ∷ rest

abbrev pub is_dash : ℕ → Bool
is_dash c = c == b'-'

abbrev pub max_slug : ℕ
max_slug = 100

abbrev pub branch_prefix : Chars
branch_prefix = codes "agent-trail/"

-- The slug before the test for emptiness.
unfoldable pub slug_of : Chars → Chars
slug_of raw =
    let slug = trim is_dash (dashed false (lowered raw)) in
    if ltb max_slug (char_count slug) then trim is_dash (first_chars max_slug slug) else slug

abbrev pub branch_of : Chars → Option Chars
branch_of [] = none
branch_of (c ∷ s) = some (branch_prefix ++ c ∷ s)

-- `SanitizeBranch`; `none` is ErrEmptyBranch.
unfoldable pub sanitize_branch : Chars → Option Chars
sanitize_branch raw = branch_of (slug_of raw)

abbrev pub all_of : (ℕ → Bool) → Chars → Bool
all_of p [] = true
all_of p (c ∷ s) = p c && all_of p s

abbrev pub is_branch_char : ℕ → Bool
is_branch_char c = is_slug c || is_dash c

-- [a-z0-9][a-z0-9-]{0,99}$
abbrev pub slug_fits : Chars → Bool
slug_fits [] = false
slug_fits (c ∷ s) = is_slug c && all_of is_branch_char s && leb (char_count s) 99

abbrev pub fits_after : Option Chars → Bool
fits_after none = false
fits_after (some s) = slug_fits s

unfoldable pub valid_branch_chars : Chars → Bool
valid_branch_chars s = fits_after (after_prefix branch_prefix s)

-- `ValidBranch`
unfoldable pub valid_branch : String → Bool
unfolding valid_branch_chars
valid_branch s = valid_branch_chars (codes s)

long_name :
    sanitize_branch (codes "Fix: the BUG (#12)!") ≡ some (codes "agent-trail/fix-the-bug-12")
unfolding sanitize_branch slug_of trim trim_left trim_right dashed lowered to_lower char_count
long_name = refl
