-- ===== src/GitHub/Feedback.antt =====
-- internal/github/revise.go: the feedback that a revision is given.
use agent_trail.Base.{
  ℕ, ◌-◌, String, Bool, true, false, not, ◌||◌, Option, none, some, List, [], ◌∷◌, ◌++◌, ◌==◌, leb,
  if◌then◌else◌, ℤ, int_eq,
}
use Prim.Native.Nat.{◌%◌}
use agent_trail.Text.{codes}
use agent_trail.Chars.Defs.{Chars, blank}
use agent_trail.Git.Branch.{lowered}
use agent_trail.Git.Commit.{on_some}
use agent_trail.Task.{FeedbackKind, review, review_comment, comment, revise_command}
use agent_trail.GitHub.Command.{Command, nothing, parse_command}
use agent_trail.GitHub.Texts.{format_int}

pub record Review : Type 0 where
  pub bot : Bool
  pub login : String
  pub body : Chars
  pub state : Chars
  pub submitted_at : ℕ

pub record ReviewComment : Type 0 where
  pub bot : Bool
  pub login : String
  pub body : Chars
  pub path : Chars
  pub line : Option ℤ
  pub original_line : Option ℤ
  pub diff_hunk : Chars
  pub created_at : ℕ

pub record IssueComment : Type 0 where
  pub id : ℤ
  pub bot : Bool
  pub login : String
  pub body : Chars
  pub created_at : ℕ

-- `feedbackEntry`, with the fields of its item
pub record Entry : Type 0 where
  pub kind : FeedbackKind
  pub author : String
  pub posted_at : ℕ
  pub location : Chars
  pub body : Chars
  pub hunk : Chars

-- A tick is a microsecond here.
abbrev pub second : ℕ
second = 1000000

-- The cutoff, down to its second; GitHub's times are whole seconds.
abbrev pub since : ℕ → ℕ
since at = at - at % second

unfoldable pub is_after : Option ℕ → ℕ → Bool
is_after none at = true
is_after (some cutoff) at = leb (since cutoff) at

unfoldable pub review_entries : Option ℕ → List Review → List Entry
review_entries cutoff [] = []
review_entries cutoff (r ∷ l) =
    let rest = review_entries cutoff l in
    if r.bot || blank r.body || not (is_after cutoff r.submitted_at)
    then rest
    else record {
      kind = review;
      author = r.login;
      posted_at = r.submitted_at;
      location = lowered r.state;
      body = r.body;
      hunk = [];
    }
      ∷ rest

abbrev or_original : Option ℤ → Option ℤ → Option ℤ
or_original none original = original
or_original (some n) original = some n

abbrev at_line : Chars → Option ℤ → Chars
at_line path none = path
at_line path (some n) = path ++ b':' ∷ codes (format_int n)

-- `reviewCommentLocation`
unfoldable pub comment_location : ReviewComment → Chars
comment_location c = at_line c.path (or_original c.line c.original_line)

unfoldable pub comment_entries : Option ℕ → List ReviewComment → List Entry
comment_entries cutoff [] = []
comment_entries cutoff (c ∷ l) =
    let rest = comment_entries cutoff l in
    if c.bot || blank c.body || not (is_after cutoff c.created_at)
    then rest
    else record {
      kind = review_comment;
      author = c.login;
      posted_at = c.created_at;
      location = comment_location c;
      body = c.body;
      hunk = c.diff_hunk;
    }
      ∷ rest

abbrev pub is_addressed : Command → Bool
is_addressed nothing = false
is_addressed c = true

unfoldable pub issue_entries : Option ℕ → ℤ → List IssueComment → List Entry
issue_entries cutoff own [] = []
issue_entries cutoff own (c ∷ l) =
    let rest = issue_entries cutoff own l in
    if c.bot
      || int_eq c.id own
      || blank c.body
      || not (is_after cutoff c.created_at)
      || is_addressed (parse_command c.body)
    then rest
    else record {
      kind = comment;
      author = c.login;
      posted_at = c.created_at;
      location = [];
      body = c.body;
      hunk = [];
    }
      ∷ rest

unfoldable pub insert_entry : Entry → List Entry → List Entry
insert_entry e [] = e ∷ []
insert_entry e (f ∷ l) =
    let rest = insert_entry e l in if leb e.posted_at f.posted_at then e ∷ f ∷ l else f ∷ rest

-- sort.SliceStable by the time
unfoldable pub oldest_first : List Entry → List Entry
oldest_first [] = []
oldest_first (e ∷ l) = insert_entry e (oldest_first l)

-- The comment with the command; GitHub leaves its time out as 0.
pub record OwnComment : Type 0 where
  pub id : ℤ
  pub login : String
  pub body : Chars
  pub created_at : ℕ

abbrev pub own_entry : ℕ → OwnComment → Entry
own_entry now c = record {
  kind = revise_command;
  author = c.login;
  posted_at = if c.created_at == 0 then now else c.created_at;
  location = [];
  body = c.body;
  hunk = [];
}

-- What the reviewers wrote, in the order of GitHub's lists.
abbrev pub given :
    Option ℕ → OwnComment → List Review → List ReviewComment → List IssueComment → List Entry
given cutoff own reviews comments issue_comments =
    review_entries cutoff reviews
    ++ (comment_entries cutoff comments ++ issue_entries cutoff own.id issue_comments)

-- `gatherFeedback`; GitHub's lists are arguments, none is an error.
unfoldable pub gather_feedback :
    ℕ
    → Option ℕ
    → OwnComment
    → Option (List Review)
    → Option (List ReviewComment)
    → Option (List IssueComment)
    → Option (List Entry)
gather_feedback now cutoff own reviews comments issue_comments = on_some reviews (λ rs.
    on_some comments (λ cs.
      on_some issue_comments
        (λ is. some (oldest_first (given cutoff own rs cs is) ++ own_entry now own ∷ []))))
