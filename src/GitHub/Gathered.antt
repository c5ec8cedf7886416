-- ===== src/GitHub/Gathered.antt =====
-- internal/github/revise.go: the feedback is complete, in order and new.
use mathlib.Core.List.{Memᴰ}
use mathlib.Core.Path.{subst}
use Prim.Native.Nat.{◌%◌}
use agent_trail.Base.{
  ◌-◌, ◌≢◌, none, some_inj, sym, true≢false, ℕ, ◌+◌, ◌≤◌, Bool, true, false, not, ◌||◌, Option,
  some, List, [], ◌∷◌, ◌++◌, leb, ◌≡◌, refl, ◌∙◌, bit, arith, ℤ, int_eq, Bool-cases, inl, inr,
}
use agent_trail.Lease.Choice.{Every, Every-map}
use agent_trail.Lease.Where.{int_eq-eq}
use agent_trail.Chars.Defs.{blank}
use agent_trail.Git.Branch.{lowered}
use agent_trail.Task.{review, review_comment, comment}
use agent_trail.Table.{count}
use agent_trail.GitHub.Command.{Command, nothing, parse_command}
use agent_trail.GitHub.Feedback.{
  second, comment_location, is_addressed, Review, ReviewComment, IssueComment, Entry, is_after,
  review_entries, comment_entries, issue_entries, insert_entry, oldest_first, OwnComment, own_entry,
  given, gather_feedback,
}

-- No entry is older than one in front of it.
abbrev pub Chronological : List Entry → Type 0
Chronological [] = Unit
Chronological (e ∷ l) = Every (λ f. e.posted_at ≤ f.posted_at) l × Chronological l

-- Not older than the second of the cutoff, where there is one.
abbrev pub IsNew : Option ℕ → ℕ → Type 0
IsNew cutoff at = (c : ℕ) → cutoff ≡ some c → c - c % second ≤ at

abbrev pub review_entry : Review → Entry
review_entry r = record {
  kind = review;
  author = r.login;
  posted_at = r.submitted_at;
  location = lowered r.state;
  body = r.body;
  hunk = [];
}

abbrev pub review_comment_entry : ReviewComment → Entry
review_comment_entry c = record {
  kind = review_comment;
  author = c.login;
  posted_at = c.created_at;
  location = comment_location c;
  body = c.body;
  hunk = c.diff_hunk;
}

abbrev pub comment_entry : IssueComment → Entry
comment_entry c = record {
  kind = comment;
  author = c.login;
  posted_at = c.created_at;
  location = [];
  body = c.body;
  hunk = [];
}

-- The entry is what a person wrote, with a text and not too old, in one of the lists; and of the issue's comments, neither the
-- command's own nor another command.
pub data IsFeedback (cutoff : Option ℕ) (own : ℤ) (rs : List Review) (cs : List ReviewComment)
    (is : List IssueComment) : Entry → Type 0 where
  reviewed :
      {r : Review}
      → Memᴰ r rs
      → r.bot ≡ false
      → blank r.body ≡ false
      → IsNew cutoff r.submitted_at
      → IsFeedback cutoff own rs cs is (review_entry r)
  commented_on_line :
      {c : ReviewComment}
      → Memᴰ c cs
      → c.bot ≡ false
      → blank c.body ≡ false
      → IsNew cutoff c.created_at
      → IsFeedback cutoff own rs cs is (review_comment_entry c)
  commented :
      {c : IssueComment}
      → Memᴰ c is
      → c.bot ≡ false
      → c.id ≢ own
      → blank c.body ≡ false
      → IsNew cutoff c.created_at
      → parse_command c.body ≡ nothing
      → IsFeedback cutoff own rs cs is (comment_entry c)

is_after-IsNew : (cutoff : Option ℕ) (at : ℕ) → is_after cutoff at ≡ true → IsNew cutoff at
unfolding is_after
is_after-IsNew none at h c e = absurd cc
is_after-IsNew (some x) at h c e = subst (λ y. y - y % second ≤ at) (some_inj e) (ground arith)

IsNew-is_after : (cutoff : Option ℕ) (at : ℕ) → IsNew cutoff at → is_after cutoff at ≡ true
unfolding is_after
IsNew-is_after none at h = refl
IsNew-is_after (some x) at h = let k = h x refl in ground arith

insert-Every :
    (P : Entry → Type 0) (e : Entry) (l : List Entry) → P e → Every P l → Every P (insert_entry e l)
unfolding insert_entry
insert-Every P e [] p k = (p, tt)
insert-Every P e (f ∷ l) p k = elim (Bool-cases (leb e.posted_at f.posted_at)) [
  | inl first ↦ rw first (p, k)
  | inr later ↦ rw later (k.0, insert-Every P e l p k.1)
]

sort-Every : (P : Entry → Type 0) (l : List Entry) → Every P l → Every P (oldest_first l)
unfolding oldest_first
sort-Every P [] k = tt
sort-Every P (e ∷ l) k = insert-Every P e (oldest_first l) k.0 (sort-Every P l k.1)

insert-Chronological :
    (e : Entry) (l : List Entry) → Chronological l → Chronological (insert_entry e l)
unfolding insert_entry
insert-Chronological e [] k = (tt, tt)
insert-Chronological e (f ∷ l) k = elim (Bool-cases (leb e.posted_at f.posted_at)) [
  | inl first ↦
      let le : e.posted_at ≤ f.posted_at = ground arith in
      rw first ((le, Every-map l (λ g h. omega arith) k.0), k)
  | inr later ↦
      let le : f.posted_at ≤ e.posted_at = ground arith in
      rw later
        (insert-Every (λ g. f.posted_at ≤ g.posted_at) e l le k.0, insert-Chronological e l k.1)
]

sort-Chronological : (l : List Entry) → Chronological (oldest_first l)
unfolding oldest_first
sort-Chronological [] = tt
sort-Chronological (e ∷ l) = insert-Chronological e (oldest_first l) (sort-Chronological l)

count-insert :
    (p : Entry → Bool) (e : Entry) (l : List Entry)
    → count p (insert_entry e l) ≡ bit (p e) + count p l
unfolding count insert_entry
count-insert p e [] = refl
count-insert p e (f ∷ l) = let rest = count-insert p e l in ground arith

count-sort : (p : Entry → Bool) (l : List Entry) → count p (oldest_first l) ≡ count p l
unfolding count oldest_first
count-sort p [] = refl
count-sort p (e ∷ l) = count-insert p e (oldest_first l) ∙ (rw (count-sort p l) refl)

Every-append : (P : Entry → Type 0) (l m : List Entry) → Every P l → Every P m → Every P (l ++ m)
Every-append P [] m h k = k
Every-append P (e ∷ l) m h k = (h.0, Every-append P l m h.1 k)

insert-new : (e : Entry) (l : List Entry) → Memᴰ e (insert_entry e l)
unfolding insert_entry
insert-new e [] = Memᴰ.head refl
insert-new e (f ∷ l) = elim (Bool-cases (leb e.posted_at f.posted_at)) [
  | inl first ↦ rw first (Memᴰ.head refl)
  | inr later ↦ rw later (Memᴰ.tail (insert-new e l))
]

insert-old : (e x : Entry) (l : List Entry) → Memᴰ x l → Memᴰ x (insert_entry e l)
unfolding insert_entry
insert-old e x [] m = elim m [ ]
insert-old e x (f ∷ l) (Memᴰ.head same) = elim (Bool-cases (leb e.posted_at f.posted_at)) [
  | inl first ↦ rw first (Memᴰ.tail (Memᴰ.head same))
  | inr later ↦ rw later (Memᴰ.head same)
]
insert-old e x (f ∷ l) (Memᴰ.tail m) =
    let below = insert-old e x l m in
    elim (Bool-cases (leb e.posted_at f.posted_at)) [
      | inl first ↦ rw first (Memᴰ.tail (Memᴰ.tail m))
      | inr later ↦ rw later (Memᴰ.tail below)
    ]

sort-mem : (l : List Entry) (x : Entry) → Memᴰ x l → Memᴰ x (oldest_first l)
unfolding oldest_first
sort-mem [] x m = elim m [ ]
sort-mem (e ∷ l) x (Memᴰ.head same) = rw same (insert-new e (oldest_first l))
sort-mem (e ∷ l) x (Memᴰ.tail m) = insert-old e x (oldest_first l) (sort-mem l x m)

append-left : {A : Type 0} (x : A) (l m : List A) → Memᴰ x l → Memᴰ x (l ++ m)
append-left x [] m h = elim h [ ]
append-left x (y ∷ l) m (Memᴰ.head same) = Memᴰ.head same
append-left x (y ∷ l) m (Memᴰ.tail h) = Memᴰ.tail (append-left x l m h)

append-right : {A : Type 0} (x : A) (l m : List A) → Memᴰ x m → Memᴰ x (l ++ m)
append-right x [] m h = h
append-right x (y ∷ l) m h = Memᴰ.tail (append-right x l m h)

count-append : (p : Entry → Bool) (l m : List Entry) → count p (l ++ m) ≡ count p l + count p m
unfolding count
count-append p [] m = omega arith
count-append p (e ∷ l) m = let rest = count-append p l m in ground arith

int_eq_refl : (a : ℤ) → int_eq a a ≡ true
int_eq_refl (ℤ.pos m) = ground arith
int_eq_refl (ℤ.negsuc m) = ground arith

addressed-nothing : (c : Command) → is_addressed c ≡ false → c ≡ nothing
addressed-nothing nothing h = refl
addressed-nothing Command.unknown h = absurd cc
addressed-nothing (Command.known v) h = absurd cc

module _ (cutoff : Option ℕ) where
  reviews_mem :
      (l : List Review) (r : Review)
      → Memᴰ r l
      → r.bot ≡ false
      → blank r.body ≡ false
      → IsNew cutoff r.submitted_at
      → Memᴰ (review_entry r) (review_entries cutoff l)
  unfolding review_entries
  reviews_mem [] r m b t n = elim m [ ]
  reviews_mem (x ∷ l) r (Memᴰ.head same) b t n =
      subst (λ y. Memᴰ (review_entry r) (review_entries cutoff (y ∷ l))) same
        (rw (b, t, IsNew-is_after cutoff r.submitted_at n) (Memᴰ.head refl))
  reviews_mem (x ∷ l) r (Memᴰ.tail m) b t n =
      let below = reviews_mem l r m b t n in
      elim (Bool-cases (x.bot || blank x.body || not (is_after cutoff x.submitted_at))) [
        | inl out ↦ rw out below
        | inr taken ↦ rw taken (Memᴰ.tail below)
      ]

  comments_mem :
      (l : List ReviewComment) (c : ReviewComment)
      → Memᴰ c l
      → c.bot ≡ false
      → blank c.body ≡ false
      → IsNew cutoff c.created_at
      → Memᴰ (review_comment_entry c) (comment_entries cutoff l)
  unfolding comment_entries
  comments_mem [] c m b t n = elim m [ ]
  comments_mem (x ∷ l) c (Memᴰ.head same) b t n =
      subst (λ y. Memᴰ (review_comment_entry c) (comment_entries cutoff (y ∷ l))) same
        (rw (b, t, IsNew-is_after cutoff c.created_at n) (Memᴰ.head refl))
  comments_mem (x ∷ l) c (Memᴰ.tail m) b t n =
      let below = comments_mem l c m b t n in
      elim (Bool-cases (x.bot || blank x.body || not (is_after cutoff x.created_at))) [
        | inl out ↦ rw out below
        | inr taken ↦ rw taken (Memᴰ.tail below)
      ]

  issue_mem :
      (own : ℤ) (l : List IssueComment) (c : IssueComment)
      → Memᴰ c l
      → c.bot ≡ false
      → int_eq c.id own ≡ false
      → blank c.body ≡ false
      → IsNew cutoff c.created_at
      → parse_command c.body ≡ nothing
      → Memᴰ (comment_entry c) (issue_entries cutoff own l)
  unfolding issue_entries
  issue_mem own [] c m b o t n k = elim m [ ]
  issue_mem own (x ∷ l) c (Memᴰ.head same) b o t n k =
      subst (λ y. Memᴰ (comment_entry c) (issue_entries cutoff own (y ∷ l))) same
        (rw (b, o, t, IsNew-is_after cutoff c.created_at n, k) (Memᴰ.head refl))
  issue_mem own (x ∷ l) c (Memᴰ.tail m) b o t n k =
      let below = issue_mem own l c m b o t n k in
      elim (Bool-cases (
        x.bot
        || int_eq x.id own
        || blank x.body
        || not (is_after cutoff x.created_at)
        || is_addressed (parse_command x.body))) [
          | inl out ↦ rw out below
          | inr taken ↦ rw taken (Memᴰ.tail below)
        ]

  module _ (own : ℤ) (rs : List Review) (cs : List ReviewComment) (is : List IssueComment) where
    abbrev Feedback : Entry → Type 0
    Feedback = IsFeedback cutoff own rs cs is

    reviews-Feedback :
        (l : List Review)
        → ((r : Review) → Memᴰ r l → Memᴰ r rs)
        → Every Feedback (review_entries cutoff l)
    unfolding review_entries
    reviews-Feedback [] within = tt
    reviews-Feedback (r ∷ l) within =
        let rest = reviews-Feedback l (λ x m. within x (Memᴰ.tail m)) in
        elim (Bool-cases (r.bot || blank r.body || not (is_after cutoff r.submitted_at))) [
          | inl out ↦ rw out rest
          | inr taken ↦
              let new = is_after-IsNew cutoff r.submitted_at (ground arith) in
              rw taken
                (reviewed (within r (Memᴰ.head refl)) (ground arith) (ground arith) new, rest)
        ]

    comments-Feedback :
        (l : List ReviewComment)
        → ((c : ReviewComment) → Memᴰ c l → Memᴰ c cs)
        → Every Feedback (comment_entries cutoff l)
    unfolding comment_entries
    comments-Feedback [] within = tt
    comments-Feedback (c ∷ l) within =
        let rest = comments-Feedback l (λ x m. within x (Memᴰ.tail m)) in
        elim (Bool-cases (c.bot || blank c.body || not (is_after cutoff c.created_at))) [
          | inl out ↦ rw out rest
          | inr taken ↦
              let new = is_after-IsNew cutoff c.created_at (ground arith) in
              rw taken (
                commented_on_line (within c (Memᴰ.head refl)) (ground arith) (ground arith) new,
                rest,
              )
        ]

    issue-Feedback :
        (l : List IssueComment)
        → ((c : IssueComment) → Memᴰ c l → Memᴰ c is)
        → Every Feedback (issue_entries cutoff own l)
    unfolding issue_entries
    issue-Feedback [] within = tt
    issue-Feedback (c ∷ l) within =
        let rest = issue-Feedback l (λ x m. within x (Memᴰ.tail m)) in
        elim (Bool-cases (
          c.bot
          || int_eq c.id own
          || blank c.body
          || not (is_after cutoff c.created_at)
          || is_addressed (parse_command c.body))) [
            | inl out ↦ rw out rest
            | inr taken ↦
                let new = is_after-IsNew cutoff c.created_at (ground arith) in
                let other : int_eq c.id own ≡ false = ground arith in
                let foreign : c.id ≢ own =
                  λ e. true≢false (sym (int_eq_refl own) ∙ (rw e at other)) in
                let plain = addressed-nothing (parse_command c.body) (ground arith) in
                rw taken (
                  commented (within c (Memᴰ.head refl)) (ground arith) foreign (ground arith) new
                      plain,
                  rest,
                )
          ]

    given-Feedback : (o : OwnComment) → o.id ≡ own → Every Feedback (given cutoff o rs cs is)
    given-Feedback o same = rw same (
        Every-append Feedback (review_entries cutoff rs)
          (comment_entries cutoff cs ++ issue_entries cutoff own is)
          (reviews-Feedback rs (λ x m. m))
          (Every-append Feedback (comment_entries cutoff cs) (issue_entries cutoff own is)
            (comments-Feedback cs (λ x m. m)) (issue-Feedback is (λ x m. m))))

    other-id : (a : ℤ) → a ≢ own → int_eq a own ≡ false
    other-id a foreign = elim (Bool-cases (int_eq a own)) [
      | inl same ↦ absurd (foreign (int_eq-eq a own same))
      | inr other ↦ other
    ]

    Feedback-mem :
        (e : Entry)
        → Feedback e
        → Memᴰ e
            (review_entries cutoff rs ++ (comment_entries cutoff cs ++ issue_entries cutoff own is))
    Feedback-mem _ (reviewed {r} m b t n) = append-left _ _ _ (reviews_mem rs r m b t n)
    Feedback-mem _ (commented_on_line {c} m b t n) =
        append-right _ (review_entries cutoff rs) _ (append-left _ _ _ (comments_mem cs c m b t n))
    Feedback-mem _ (commented {c} m b o t n k) = append-right _ (review_entries cutoff rs) _ (
        append-right _ (comment_entries cutoff cs) _
          (issue_mem own is c m b (other-id c.id o) t n k))

  count-reviews :
      (p : Entry → Bool) (l : List Review)
      → count p (review_entries cutoff l) ≤ count (λ r. p (review_entry r)) l
  unfolding count review_entries
  count-reviews p [] = omega arith
  count-reviews p (r ∷ l) = let rest = count-reviews p l in ground arith

  count-comments :
      (p : Entry → Bool) (l : List ReviewComment)
      → count p (comment_entries cutoff l) ≤ count (λ c. p (review_comment_entry c)) l
  unfolding count comment_entries
  count-comments p [] = omega arith
  count-comments p (c ∷ l) = let rest = count-comments p l in ground arith

  count-issue :
      (p : Entry → Bool) (own : ℤ) (l : List IssueComment)
      → count p (issue_entries cutoff own l) ≤ count (λ c. p (comment_entry c)) l
  unfolding count issue_entries
  count-issue p own [] = omega arith
  count-issue p own (c ∷ l) = let rest = count-issue p own l in ground arith

-- What a revision is given of the three lists.
pub record Gathered (cutoff : Option ℕ) (own : ℤ) (rs : List Review) (cs : List ReviewComment)
    (is : List IssueComment) (l : List Entry) : Type 0 where
  pub sound : Every (IsFeedback cutoff own rs cs is) l
  pub complete : (e : Entry) → IsFeedback cutoff own rs cs is e → Memᴰ e l
  pub chronological : Chronological l
  pub not_doubled :
      (p : Entry → Bool)
      → count p l
        ≤ count (λ r. p (review_entry r)) rs
          + (count (λ c. p (review_comment_entry c)) cs + count (λ c. p (comment_entry c)) is)

given-count :
    (p : Entry → Bool) (cutoff : Option ℕ) (own : OwnComment) (rs : List Review)
    (cs : List ReviewComment) (is : List IssueComment)
    → count p (given cutoff own rs cs is)
      ≤ count (λ r. p (review_entry r)) rs
        + (count (λ c. p (review_comment_entry c)) cs + count (λ c. p (comment_entry c)) is)
given-count p cutoff own rs cs is = omega (
  arith,
  count-append p (review_entries cutoff rs)
      (comment_entries cutoff cs ++ issue_entries cutoff own.id is),
  count-append p (comment_entries cutoff cs) (issue_entries cutoff own.id is),
  count-reviews cutoff p rs,
  count-comments cutoff p cs,
  count-issue cutoff p own.id is,
)

-- Where GitHub answers with the three lists, the feedback of a revision is gathered, and it is some entries, oldest first, with
-- the command's own comment after them. These are what persons wrote, with a text and not older than the second of
-- the cutoff: the reviews, the comments on lines, and those of the issue's comments that are neither the command's own nor
-- another command. Each of these is there, nothing else is, and of any kind of entry no more than the lists have.
pub gather_feedback-Gathered :
    (now : ℕ) (cutoff : Option ℕ) (own : OwnComment) (rs : List Review) (cs : List ReviewComment)
    (is : List IssueComment)
    → (l : List Entry) × (gather_feedback now cutoff own (some rs) (some cs) (some is)
        ≡ some (l ++ own_entry now own ∷ []))
      × Gathered cutoff own.id rs cs is l
unfolding gather_feedback
gather_feedback-Gathered now cutoff own rs cs is =
    let all = given cutoff own rs cs is in
    (
      oldest_first all,
      refl,
      record {
        sound = sort-Every _ all (given-Feedback cutoff own.id rs cs is own refl);
        complete = λ e k. sort-mem all e (Feedback-mem cutoff own.id rs cs is e k);
        chronological = sort-Chronological all;
        not_doubled = λ p. rw (count-sort p all) (given-count p cutoff own rs cs is);
      },
    )
