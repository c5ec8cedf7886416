-- ===== src/GitHub/Texts.antt =====
-- internal/github/process.go: the texts that are composed, and their byte bounds.
use Prim.Native.Char.{code}
use Prim.Native.String.{◌++◌ as concat}
use Prim.Native.Nat.{◌/◌, ◌%◌}
use agent_trail.Base.{
  ℕ, zero, suc, ◌+◌, ◌-◌, String, ◌==◌, leb, ltb, if◌then◌else◌, ℤ, pos, negsuc, ◌≡◌, refl,
}

abbrev digit_text : ℕ → String
digit_text n =
    if n == 0
    then "0"
    else if n == 1
    then "1"
    else if n == 2
    then "2"
    else if n == 3
    then "3"
    else if n == 4
    then "4"
    else if n == 5
    then "5"
    else if n == 6
    then "6"
    else if n == 7
    then "7"
    else if n == 8
    then "8"
    else "9"

-- The last digits of a number, as many as the first argument says and no more than it has.
unfoldable pub last_digits : ℕ → ℕ → String
last_digits zero n = ""
last_digits (suc k) n =
    let front = last_digits k (n / 10) in
    if ltb n 10 then digit_text n else concat front (digit_text (n % 10))

-- strconv.FormatInt(n, 10); an int64 has at most 19 digits.
unfoldable pub format_int : ℤ → String
format_int (pos n) = last_digits 19 n
format_int (negsuc n) = concat "-" (last_digits 19 (n + 1))

-- The bytes of a code point in UTF-8.
abbrev pub utf8_size : ℕ → ℕ
utf8_size c = if ltb c 128 then 1 else if ltb c 2048 then 2 else if ltb c 65536 then 3 else 4

unfoldable pub byte_length : String → ℕ
byte_length String.[] = 0
byte_length (String.◌∷◌ c s) = utf8_size (code c) + byte_length s

-- The code points that fit.
unfoldable pub fitting : ℕ → String → String
fitting room String.[] = ""
fitting room (String.◌∷◌ c s) =
    let rest = fitting (room - utf8_size (code c)) s in
    if leb (utf8_size (code c)) room then String.◌∷◌ c rest else ""

-- `truncateUTF8`
unfoldable pub truncate_utf8 : String → ℕ → String
truncate_utf8 s max = if leb (byte_length s) max then s else fitting max s

format_run : format_int (pos 1207) ≡ "1207"
unfolding format_int last_digits
format_run = refl
