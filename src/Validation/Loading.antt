-- ===== src/Validation/Loading.antt =====
-- internal/validation/file.go: what `Load` gives.
use agent_trail.Base.{
  ℕ, zero, suc, ◌+◌, ◌≤◌, ◌≡◌, refl, ap, ◌∙◌, true, false, Option, none, some, [], ◌∷◌, ltb, arith,
  Bool-cases, Option-cases, inl, inr,
}
use mathlib.Core.Path.{subst}
use agent_trail.Chars.Defs.{Chars, char_count, first_chars}
use agent_trail.Validation.Defs.{
  max_file_bytes, File, validate, parse, Parsed, parsed, unparsed, Workspace, Stat, entry, absent,
  stat_failed, loaded, load, finish_load, read_content, load_entry,
}
use agent_trail.Validation.Checks.{Accepted}
use agent_trail.Validation.Accepted.{validate-iff-Accepted}

first-few : (n : ℕ) (s : Chars) → char_count (first_chars (suc n) s) ≤ n → first_chars (suc n) s ≡ s
unfolding char_count first_chars
first-few n [] h = refl
first-few zero (c ∷ s) h = absurd (omega arith)
first-few (suc n) (c ∷ s) h = ap (λ t. c ∷ t) (first-few n s (omega arith))

-- What `Parse` accepts.
parse-parsed :
    (decode : Chars → Option File) (text : Chars) (f : File)
    → parse decode text ≡ parsed f
    → (char_count text ≤ max_file_bytes) × (decode text ≡ some f) × Accepted f
unfolding parse
parse-parsed decode text f e = elim (Bool-cases (ltb max_file_bytes (char_count text))) [
  | inl large ↦ absurd (let q = rw large at e in cc)
  | inr small ↦ elim (Option-cases (decode text)) [
    | inl bad ↦ absurd (let q = rw (small, bad) at e in cc)
    | inr (g, read) ↦ elim (Option-cases (validate g)) [
      | inl fine ↦
          let same : g ≡ f = let q = rw (small, read, fine) at e in cc in
          (
            ground arith,
            read ∙ ap some same,
            subst Accepted same ((validate-iff-Accepted g).0 fine),
          )
      | inr (x, wrong) ↦ absurd (let q = rw (small, read, wrong) at e in cc)
    ]
  ]
]

finish-parsed : (p : Parsed) (f : File) → finish_load p ≡ loaded f → p ≡ parsed f
finish-parsed (parsed g) f e = let same : g ≡ f = cc in ap parsed same
finish-parsed (unparsed x) f e = absurd cc

-- What the code relies on in a file that it loads.
FromContent : (Chars → Option File) → Option Chars → File → Type 0
FromContent decode content f =
    (text : Chars) × (content ≡ some text)
    × (char_count text ≤ max_file_bytes)
    × (decode text ≡ some f)
    × Accepted f

content-loaded :
    (decode : Chars → Option File) (content : Option Chars) (f : File)
    → read_content decode content ≡ loaded f
    → FromContent decode content f
unfolding FromContent
content-loaded decode none f e = absurd cc
content-loaded decode (some text) f e =
    let (few, read, good) =
      parse-parsed decode (first_chars (max_file_bytes + 1) text) f
        (finish-parsed (parse decode (first_chars (max_file_bytes + 1) text)) f e) in
    let whole = first-few max_file_bytes text few in
    (
      text,
      refl,
      subst (λ s. char_count s ≤ max_file_bytes) whole few,
      subst (λ s. decode s ≡ some f) whole read,
      good,
    )

entry-loaded :
    (decode : Chars → Option File) (w : Workspace) (stat : Stat) (f : File)
    → load_entry decode w stat ≡ loaded f
    → ((size : ℕ) × (stat ≡ entry true size)) × FromContent decode w.content f
entry-loaded decode w absent f e = absurd cc
entry-loaded decode w stat_failed f e = absurd cc
entry-loaded decode w (entry false size) f e = absurd cc
entry-loaded decode w (entry true size) f e = elim (Bool-cases (ltb max_file_bytes size)) [
  | inl large ↦ absurd (let q = rw large at e in cc)
  | inr small ↦ ((size, refl), content-loaded decode w.content f (rw small at e))
]

-- Where `Load` gives a file, `Lstat` has seen a regular file, and the content that was read is the whole of what was opened, at most
-- 1 MiB, also where that is not what `Lstat` has seen; the file is decoded from it, and `validate` accepts it.
pub load-loaded :
    (decode : Chars → Option File) (w : Workspace) (f : File)
    → load decode w ≡ loaded f
    → (text : Chars) × (size : ℕ) × (w.stat ≡ entry true size)
      × (w.content ≡ some text)
      × (char_count text ≤ max_file_bytes)
      × (decode text ≡ some f)
      × Accepted f
unfolding load FromContent
load-loaded decode w f e = elim (Bool-cases w.opens) [
  | inl good ↦
      let ((size, stat), (text, content, few, read, fine)) =
        entry-loaded decode w w.stat f (rw good at e) in
      (text, size, stat, content, few, read, fine)
  | inr bad ↦ absurd (let q = rw bad at e in cc)
]
