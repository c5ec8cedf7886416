-- ===== src/Text.antt =====
-- Texts that the code matches with regular expressions: internal/task/store.go's UUIDs and SHAs.
use Prim.Native.Char.{Char, code}
use agent_trail.Base.{
  ◌≡◌, refl, ℕ, zero, suc, String, Bool, true, false, ◌&&◌, ◌||◌, Option, none, some, List, [], ◌∷◌,
  leb, ◌==◌, if◌then◌else◌,
}

-- The code points of a text.
abbrev pub codes : String → List ℕ
codes String.[] = []
codes (String.◌∷◌ c s) = code c ∷ codes s

-- `[0-9]`, `[a-f]` and `[A-F]`
is_digit : ℕ → Bool
is_digit c = leb b'0' c && leb c b'9'

is_lower_hex : ℕ → Bool
is_lower_hex c = is_digit c || (leb b'a' c && leb c b'f')

is_hex : ℕ → Bool
is_hex c = is_lower_hex c || (leb b'A' c && leb c b'F')

-- The text after n characters that all pass the test: `[…]{n}`.
run_of : (ℕ → Bool) → ℕ → List ℕ → Option (List ℕ)
run_of p zero s = some s
run_of p (suc n) [] = none
run_of p (suc n) (c ∷ s) = let rest = run_of p n s in if p c then rest else none

dash : Option (List ℕ) → Option (List ℕ)
dash none = none
dash (some []) = none
dash (some (c ∷ s)) = if c == b'-' then some s else none

hex_group : ℕ → Option (List ℕ) → Option (List ℕ)
hex_group n none = none
hex_group n (some s) = run_of is_hex n s

-- `$`: nothing is left.
at_end : Option (List ℕ) → Bool
at_end (some []) = true
at_end _ = false

-- `uuidRe`
unfoldable pub is_uuid : String → Bool
unfolding run_of is_digit is_lower_hex is_hex dash hex_group at_end
is_uuid s = at_end (
    hex_group 12 (
      dash (
        hex_group 4
          (dash (hex_group 4 (dash (hex_group 4 (dash (hex_group 8 (some (codes s)))))))))))

abbrev lower_hex : Char → Char
lower_hex c =
    if code c == b'A'
    then "a"
    else if code c == b'B'
    then "b"
    else if code c == b'C'
    then "c"
    else if code c == b'D'
    then "d"
    else if code c == b'E'
    then "e"
    else if code c == b'F'
    then "f"
    else c

-- The text in which Postgres keeps a uuid that is spelled as `uuidRe` says: its letters are lower-case, so that the
-- comparison of two uuids ignores case. Stored ids are in it, and a uuid that is bound to a statement is put into it.
unfoldable pub canonical : String → String
canonical String.[] = ""
canonical (String.◌∷◌ c s) = String.◌∷◌ (lower_hex c) (canonical s)

abbrev pub canonical_key : Option String → Option String
canonical_key none = none
canonical_key (some s) = some (canonical s)

-- `shaRe`
unfoldable pub is_sha : String → Bool
unfolding run_of is_digit is_lower_hex at_end
is_sha s = at_end (run_of is_lower_hex 40 (codes s))

uuid_accepted : is_uuid "0f8fad5b-d9cb-469f-A165-70867728950e" ≡ true
unfolding is_uuid
uuid_accepted = refl

uuid_lowered :
    canonical "0F8FAD5B-d9cb-469F-A165-70867728950E" ≡ "0f8fad5b-d9cb-469f-a165-70867728950e"
unfolding canonical
uuid_lowered = refl
