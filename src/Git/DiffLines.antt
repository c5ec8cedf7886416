-- ===== src/Git/DiffLines.antt =====
-- internal/gitworkspace/conflictops.go: the lines of one file, read.
use agent_trail.Base.{
  ℕ, ◌+◌, ◌-◌, ◌*◌, ◌≡◌, refl, ap, ◌∙◌, true, false, Option, none, some, List, [], ◌∷◌, ◌++◌, map,
  Bool-cases, inl, inr,
}
use mathlib.Core.List.{append_assoc}
use agent_trail.Text.{codes}
use agent_trail.Chars.Defs.{Chars, after_prefix, same_chars, is_decimal, parse_nat, digits, decimal}
use agent_trail.Lease.Choice.{Every}
use agent_trail.Git.Commit.{on_some, nothing_in}
use agent_trail.Git.Hunks.{
  LineRange, HunkMap, add_range, ParseState, leading_digits, after_start, hunk_header, count_of,
  hunk_range, dev_null, read_line, read_diff,
}
use agent_trail.Git.Diffs.{
  BodyLine, removed, added, no_newline, body_text, Hunk, count_suffix, header_text, Change, edited,
  created, deleted, path_of, name_lines, hunk_lines, IsIgnored, Plain, IsHunk, range_of,
}

read-ignored :
    (st : ParseState) (line : Chars) (rest : List Chars)
    → IsIgnored line
    → read_diff st (line ∷ rest) ≡ read_diff st rest
unfolding read_diff read_line
read-ignored st line rest h = rw (h.no_old, h.no_new, h.no_hunk) refl

pub read-preamble :
    (st : ParseState) (ls rest : List Chars)
    → Every IsIgnored ls
    → read_diff st (ls ++ rest) ≡ read_diff st rest
read-preamble st [] rest h = refl
read-preamble st (l ∷ ls) rest h = read-ignored st l (ls ++ rest) h.0 ∙ read-preamble st ls rest h.1

body-IsIgnored : (l : BodyLine) → Plain l → IsIgnored (body_text l)
unfolding after_prefix
body-IsIgnored (removed s) h = record { no_old = h; no_new = refl; no_hunk = refl }
body-IsIgnored (added s) h = record { no_old = refl; no_new = h; no_hunk = refl }
body-IsIgnored no_newline h = record { no_old = refl; no_new = refl; no_hunk = refl }

bodies-IsIgnored : (ls : List BodyLine) → Every Plain ls → Every IsIgnored (map body_text ls)
bodies-IsIgnored [] h = tt
bodies-IsIgnored (l ∷ ls) h = (body-IsIgnored l h.0, bodies-IsIgnored ls h.1)

abbrev Digits : Chars → Type 0
Digits s = Every (λ c. is_decimal c ≡ true) s

decimal-Digits : (n : ℕ) (s : Chars) (m : ℕ) → decimal n s ≡ some m → Digits s
unfolding decimal
decimal-Digits n [] m e = tt
decimal-Digits n (c ∷ s) m e = elim (Bool-cases (is_decimal c)) [
  | inl good ↦ (good, decimal-Digits (n * 10 + (c - b'0')) s m (rw good at e))
  | inr bad ↦ absurd (let q = rw bad at e in cc)
]

parse_nat-Digits : (s : Chars) (n : ℕ) → parse_nat s ≡ some n → Digits s × (nothing_in s ≡ false)
unfolding parse_nat digits
parse_nat-Digits [] n e = absurd cc
parse_nat-Digits (c ∷ s) n e = (of_value (decimal 0 (c ∷ s)) refl, refl)
  where
    of_value : (r : Option ℕ) → decimal 0 (c ∷ s) ≡ r → Digits (c ∷ s)
    of_value none q = absurd (let f = rw q at e in cc)
    of_value (some m) q = decimal-Digits 0 (c ∷ s) m q

leading-Digits :
    (ds : Chars) (c : ℕ) (s : Chars)
    → Digits ds
    → is_decimal c ≡ false
    → leading_digits (ds ++ c ∷ s) ≡ (ds, c ∷ s)
unfolding leading_digits
leading-Digits [] c s h k = rw k refl
leading-Digits (d ∷ ds) c s h k = rw (leading-Digits ds c s h.1 k, h.0) refl

count_of-Digits : (c : ℕ) (s : Chars) (n : ℕ) → count_of (c ∷ s) ≡ some n → Digits (c ∷ s)
count_of-Digits c s n e = (parse_nat-Digits (c ∷ s) n e).0

header-starts : (s : Chars) → hunk_header (codes "@@ -" ++ s) ≡ after_start (leading_digits s)
unfolding hunk_header after_prefix
header-starts s = refl

header-after :
    (start count tail : Chars) (n : ℕ)
    → Digits start
    → nothing_in start ≡ false
    → count_of count ≡ some n
    → hunk_header (codes "@@ -" ++ (start ++ (count_suffix count ++ (codes " +" ++ tail))))
      ≡ some (start, count)
unfolding after_prefix
header-after start [] tail n d k e =
    header-starts (start ++ (codes " +" ++ tail))
    ∙ ap after_start (leading-Digits start b' ' (b'+' ∷ tail) d refl)
    ∙ (rw k refl)
header-after start (c ∷ s) tail n d k e =
    header-starts (start ++ (b',' ∷ c ∷ (s ++ (codes " +" ++ tail))))
    ∙ ap after_start (leading-Digits start b',' (c ∷ (s ++ (codes " +" ++ tail))) d refl)
    ∙ (rw (k, leading-Digits (c ∷ s) b' ' (b'+' ∷ tail) (count_of-Digits c s n e) refl) refl)

hunk_range-read : (h : Hunk) → IsHunk h → hunk_range (header_text h) ≡ some (range_of h)
unfolding hunk_range
hunk_range-read h k =
    let (d, full) = parse_nat-Digits h.start_text h.old_start k.start_reads in
    rw
      (
        header-after h.start_text h.count_text h.tail h.old_count d full k.count_reads,
        k.start_reads,
        k.count_reads,
      )
      refl

-- The changes of the state in a file's lines.
unfoldable pub at_path : ParseState → Change → ParseState
at_path st (edited old path) = record { old_path = old; current = path; hunks = st.hunks }
at_path st (created path) = record { old_path = dev_null; current = path; hunks = st.hunks }
at_path st (deleted path) = record { old_path = path; current = path; hunks = st.hunks }

pub read-names :
    (st : ParseState) (c : Change) (rest : List Chars)
    → same_chars (path_of c) dev_null ≡ false
    → read_diff st (name_lines c ++ rest) ≡ read_diff (at_path st c) rest
unfolding read_diff read_line after_prefix at_path same_chars
read-names st (edited old path) rest h = rw h refl
read-names st (created path) rest h = rw h refl
read-names st (deleted path) rest h = refl

abbrev pub add_all : Chars → List LineRange → HunkMap → HunkMap
add_all path [] m = m
add_all path (r ∷ rs) m = add_all path rs (add_range path r m)

-- The state at the end of the file's hunks.
abbrev pub with_ranges : ParseState → List LineRange → ParseState
with_ranges st rs = record st { hunks = add_all st.current rs st.hunks }

line-header :
    (st : ParseState) (h : Hunk)
    → IsHunk h
    → nothing_in st.current ≡ false
    → same_chars st.current dev_null ≡ false
    → read_line st (header_text h) ≡ some (with_ranges st (range_of h ∷ []))
unfolding read_line after_prefix
line-header st h k f g = rw (f, g, hunk_range-read h k) refl

read-header :
    (st : ParseState) (h : Hunk) (rest : List Chars)
    → IsHunk h
    → nothing_in st.current ≡ false
    → same_chars st.current dev_null ≡ false
    → read_diff st (header_text h ∷ rest) ≡ read_diff (with_ranges st (range_of h ∷ [])) rest
unfolding read_diff
read-header st h rest k f g =
    ap (λ r. on_some r (λ after. read_diff after rest)) (line-header st h k f g)

pub read-hunks :
    (st : ParseState) (hs : List Hunk) (rest : List Chars)
    → Every IsHunk hs
    → nothing_in st.current ≡ false
    → same_chars st.current dev_null ≡ false
    → read_diff st (hunk_lines hs ++ rest) ≡ read_diff (with_ranges st (map range_of hs)) rest
read-hunks st [] rest k f g = refl
read-hunks st (h ∷ hs) rest k f g =
    read-header st h ((map body_text h.body ++ hunk_lines hs) ++ rest) k.0 f g
    ∙ ap (read_diff mid) (append_assoc (map body_text h.body) (hunk_lines hs) rest)
    ∙ read-preamble mid (map body_text h.body) (hunk_lines hs ++ rest)
        (bodies-IsIgnored h.body k.0.body_plain)
    ∙ read-hunks mid hs rest k.1 f g
  where
    mid : ParseState
    mid = with_ranges st (range_of h ∷ [])
