-- ===== src/Tests/GitHub.antt =====
-- internal/github/process.go: a comment on an issue and a pull request that is closed.
use agent_trail.Base.{String, ◌≡◌, refl, true, false, Option, some, none, List, [], ◌∷◌, ◌++◌, pos}
use agent_trail.GitHub.Defs.{Repository, World}
use agent_trail.GitHub.Handlers.{CommentEvent, Api, handle_comment}
use agent_trail.GitHub.Authority.{Untouched, handle_comment-Untouched}
use agent_trail.Text.{codes}
use agent_trail.GitHub.Feedback.{
  Review, IssueComment, Entry, OwnComment, own_entry, gather_feedback,
}
use agent_trail.GitHub.Gathered.{Gathered, gather_feedback-Gathered}
use agent_trail.Tests.Data.{two_tasks, two, setting}

abbrev repository : Repository
repository = record {
  id = "00000000-0000-4000-8000-00000000000b";
  organization_id = "00000000-0000-4000-8000-00000000000c";
  github_repository_id = pos 7;
  default_branch = "main";
  is_enabled = true;
  max_attempts = pos 5;
}

abbrev api : Option String → Api
api permission = record {
  accepts = λ c. true;
  permission = permission;
  branch_head = none;
  check_run = some (pos 3);
  pull_request = none;
  feedback = λ since. some ([], "address the review");
}

abbrev run_comment : CommentEvent
run_comment = record {
  action = "created";
  comment_id = pos 11;
  body = "/agent-trail run";
  user_login = "ada";
  user_type = "User";
  issue_number = pos 4;
  issue_title = "Fix the parser";
  issue_body = "It fails.";
  on_pull_request = false;
}

-- Between the lookup and the insertion, both tasks of the data are created by other requests.
abbrev world : World
world = record {
  db = two;
  turns =
      record { others = []; setting = setting 5 [] }
      ∷ record { others = two_tasks; setting = setting 6 ("n1" ∷ "n2" ∷ "n3" ∷ "n4" ∷ []) }
      ∷ [];
  posted = [];
}

handle_comment-Untouched_example :
    Untouched world (handle_comment (api (some "read")) (some repository) run_comment world).1
handle_comment-Untouched_example =
    handle_comment-Untouched (api (some "read")) (some repository) run_comment world refl

abbrev early_review : Review
early_review = record {
  bot = false;
  login = "bob";
  body = codes "rename it";
  state = codes "COMMENTED";
  submitted_at = 5;
}

abbrev late_comment : IssueComment
late_comment = record {
  id = pos 8;
  bot = false;
  login = "eve";
  body = codes "also the tests";
  created_at = 3;
}

abbrev own_comment : OwnComment
own_comment = record {
  id = pos 9;
  login = "ada";
  body = codes "/agent-trail revise";
  created_at = 0;
}

gather_feedback-Gathered_example :
    (l : List Entry) × (gather_feedback 7 none own_comment
        (some (early_review ∷ []))
        (some [])
        (some (late_comment ∷ []))
      ≡ some (l ++ own_entry 7 own_comment ∷ []))
    × Gathered none (pos 9) (early_review ∷ []) [] (late_comment ∷ []) l
gather_feedback-Gathered_example =
    gather_feedback-Gathered 7 none own_comment (early_review ∷ []) [] (late_comment ∷ [])
