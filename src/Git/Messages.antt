-- ===== src/Git/Messages.antt =====
-- internal/gitworkspace/commit.go: the trailer block, read back line by line.
use agent_trail.Base.{
  ℕ, ◌≡◌, refl, ap, ◌∙◌, Bool, false, List, [], ◌∷◌, ◌++◌, arith, if◌then◌else◌, Bool-cases, inl,
  inr,
}
use mathlib.Core.Path.{subst}
use agent_trail.Text.{codes}
use agent_trail.Chars.Defs.{Chars, split, trim_right, keep}
use agent_trail.Lease.Choice.{Every}
use agent_trail.Git.Commit.{
  CommitParams, newline, is_newline, breaks, nothing_in, Trailers, written, refused, trailer_line,
  put_line, write_fields, trailer_fields, finish_trailers, build_trailers,
}

-- One line for each field that is not empty.
abbrev pub lines_of : List (Chars × Chars) → List Chars
lines_of [] = []
lines_of ((key, val) ∷ fields) =
    if nothing_in val then lines_of fields else trailer_line key val ∷ lines_of fields

abbrev pub Lacks : Chars → Type 0
Lacks s = Every (λ c. is_newline c ≡ false) s

record IsLine (s : Chars) : Type 0 where
  one_line : Lacks s
  not_empty : nothing_in s ≡ false

-- The lines, each with its newline, and the lines with newlines between them.
abbrev ended : List Chars → Chars
ended [] = []
ended (l ∷ ls) = l ++ newline ∷ ended ls

abbrev pub between : Chars → List Chars → Chars
between l [] = l
between l (m ∷ ls) = l ++ newline ∷ between m ls

breaks-Lacks : (s : Chars) → breaks s ≡ false → Lacks s
breaks-Lacks [] h = tt
breaks-Lacks (c ∷ s) h = (ground arith, breaks-Lacks s (ground arith))

Lacks-append : (s t : Chars) → Lacks s → Lacks t → Lacks (s ++ t)
Lacks-append [] t h k = k
Lacks-append (c ∷ s) t h k = (h.0, Lacks-append s t h.1 k)

pub split-line : (l s : Chars) → Lacks l → split newline (l ++ newline ∷ s) ≡ l ∷ split newline s
unfolding split
split-line [] s h = refl
split-line (c ∷ l) s h = rw (h.0, split-line l s h.1) refl

pub split-last : (l : Chars) → Lacks l → split newline l ≡ l ∷ []
unfolding split
split-last [] h = refl
split-last (c ∷ l) h = rw (h.0, split-last l h.1) refl

pub split-between :
    (l : Chars) (ls : List Chars) → Lacks l → Every Lacks ls → split newline (between l ls) ≡ l ∷ ls
split-between l [] h k = split-last l h
split-between l (m ∷ ls) h k =
    split-line l (between m ls) h ∙ ap (λ r. l ∷ r) (split-between m ls k.0 k.1)

-- What is in front of something that stays is not trimmed.
trim_right-onto :
    (p : ℕ → Bool) (l u : Chars) (c : ℕ) (v : Chars)
    → trim_right p u ≡ c ∷ v
    → trim_right p (l ++ u) ≡ l ++ c ∷ v
unfolding trim_right
trim_right-onto p [] u c v e = e
trim_right-onto p (d ∷ l) u c v e = rw (trim_right-onto p l u c v e) (keep-some p d l c v)
  where
    keep-some :
        (p : ℕ → Bool) (d : ℕ) (l : Chars) (c : ℕ) (v : Chars)
        → keep p d (l ++ c ∷ v) ≡ d ∷ l ++ c ∷ v
    keep-some p d [] c v = refl
    keep-some p d (x ∷ l) c v = refl

keep-IsLine : (c : ℕ) (s : Chars) → is_newline c ≡ false → keep is_newline c s ≡ c ∷ s
keep-IsLine c [] h = rw h refl
keep-IsLine c (d ∷ s) h = refl

trim_right-last : (l : Chars) → Lacks l → trim_right is_newline (l ++ newline ∷ []) ≡ l
unfolding trim_right
trim_right-last [] h = refl
trim_right-last (c ∷ l) h = rw (trim_right-last l h.1) (keep-IsLine c l h.0)

between-starts :
    (l : Chars) (ls : List Chars) → IsLine l → (c : ℕ) × (v : Chars) × (between l ls ≡ c ∷ v)
between-starts [] ls h = absurd (let q = h.not_empty in cc)
between-starts (c ∷ l) [] h = (c, l, refl)
between-starts (c ∷ l) (m ∷ ls) h = (c, l ++ newline ∷ between m ls, refl)

after_newline :
    (c : ℕ) (v u : Chars)
    → trim_right is_newline u ≡ c ∷ v
    → trim_right is_newline (newline ∷ u) ≡ newline ∷ c ∷ v
unfolding trim_right
after_newline c v u e = rw e refl

trim_right-ended :
    (l : Chars) (ls : List Chars)
    → IsLine l
    → Every IsLine ls
    → trim_right is_newline (ended (l ∷ ls)) ≡ between l ls
trim_right-ended l [] h k = trim_right-last l h.one_line
trim_right-ended l (m ∷ ls) h k =
    let (c, v, starts) = between-starts m ls k.0 in
    trim_right-onto is_newline l (newline ∷ ended (m ∷ ls)) newline (c ∷ v)
      (after_newline c v (ended (m ∷ ls)) (trim_right-ended m ls k.0 k.1 ∙ starts))
    ∙ (rw starts refl)

-- The keys of the fields are lines themselves.
abbrev Keys : List (Chars × Chars) → Type 0
Keys fields = Every (λ f. IsLine f.0) fields

trailer-IsLine : (key val : Chars) → IsLine key → breaks val ≡ false → IsLine (trailer_line key val)
trailer-IsLine [] val k h = absurd (let q = k.not_empty in cc)
trailer-IsLine (c ∷ key) val k h = record {
  one_line =
      Lacks-append (c ∷ key) (b':' ∷ b' ' ∷ val) k.one_line (refl, (refl, breaks-Lacks val h));
  not_empty = refl;
}

put_line-written :
    (line : Chars) (rest : Trailers) (s : Chars)
    → put_line line rest ≡ written s
    → (u : Chars) × (rest ≡ written u) × (s ≡ line ++ newline ∷ u)
put_line-written line (written u) s e = (u, refl, ground arith)
put_line-written line (refused x) s e = cc

write_fields-written :
    (fields : List (Chars × Chars)) (s : Chars)
    → Keys fields
    → write_fields fields ≡ written s
    → (s ≡ ended (lines_of fields)) × Every IsLine (lines_of fields)
unfolding write_fields
write_fields-written [] s k e = (ground arith, tt)
write_fields-written ((key, val) ∷ fields) s k e = elim (Bool-cases (nothing_in val)) [
  | inl empty ↦ rw empty (write_fields-written fields s k.1 (rw empty at e))
  | inr full ↦ elim (Bool-cases (breaks val)) [
    | inl broken ↦ absurd (let q = rw (full, broken) at e in cc)
    | inr fine ↦
        let (u, rest, whole) =
          put_line-written (trailer_line key val) (write_fields fields) s (rw (full, fine) at e) in
        let (same, lines) = write_fields-written fields u k.1 rest in
        rw full (whole ∙ (rw same refl), (trailer-IsLine key val k.0 fine, lines))
  ]
]

finish-written :
    (ls : List Chars) (text : Chars)
    → Every IsLine ls
    → finish_trailers (written (ended ls)) ≡ written text
    → split newline text ≡ ls
finish-written [] text h e = absurd cc
finish-written ([] ∷ ls) text h e = absurd (let q = h.0.not_empty in cc)
finish-written ((c ∷ l) ∷ ls) text h e =
    let same : text ≡ trim_right is_newline (ended ((c ∷ l) ∷ ls)) = ground arith in
    ap (split newline) (same ∙ trim_right-ended (c ∷ l) ls h.0 h.1)
    ∙ split-between (c ∷ l) ls h.0.one_line (each ls h.1)
  where
    each : (ls : List Chars) → Every IsLine ls → Every Lacks ls
    each [] h = tt
    each (l ∷ ls) h = (h.0.one_line, each ls h.1)

trailer-Keys : (p : CommitParams) → Keys (trailer_fields p)
trailer-Keys p = (
  record { one_line = breaks-Lacks (codes "Agent-Trail-Task-ID") refl; not_empty = refl },
  (
    record { one_line = breaks-Lacks (codes "Agent-Trail-Agent-Provider") refl; not_empty = refl },
    (
      record { one_line = breaks-Lacks (codes "Agent-Trail-Agent-Model") refl; not_empty = refl },
      (
        record {
          one_line = breaks-Lacks (codes "Agent-Trail-Requested-By") refl;
          not_empty = refl;
        },
        tt,
      ),
    ),
  ),
)

finished :
    (fields : List (Chars × Chars)) (r : Trailers) (text : Chars)
    → Keys fields
    → write_fields fields ≡ r
    → finish_trailers r ≡ written text
    → split newline text ≡ lines_of fields
finished fields (refused x) text k e f = absurd cc
finished fields (written s) text k e f =
    let (same, lines) = write_fields-written fields s k e in
    finish-written (lines_of fields) text lines
      (subst (λ u. finish_trailers (written u) ≡ written text) same f)

-- The block that `buildTrailers` writes, read back line by line, holds exactly one line for each field that
-- is given, in the order of the fields: no value can forge a trailer or a line of the message.
pub build_trailers-lines :
    (p : CommitParams) (text : Chars)
    → build_trailers p ≡ written text
    → split newline text ≡ lines_of (trailer_fields p)
unfolding build_trailers
build_trailers-lines p text e =
    finished (trailer_fields p) (write_fields (trailer_fields p)) text (trailer-Keys p) refl e
