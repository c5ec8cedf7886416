-- ===== src/Lib.antt =====
-- Agent Trail: the stores, the status machine, the git texts, the validation file, the conflict
-- detector and the webhook handlers of the API (apps/api/internal). A task is a row of `tasks`; each
-- try at it is a row of `task_attempts`; what happens to it is written to `activity_events`. Users, webhooks and runners
-- call the task store, which alone changes a status; runners take attempts by leases of the lease
-- store, run the checks of the repository's validation file, commit the work with git, and compare
-- it with that of the other active tasks.
--
-- Base: library names, Boolean tests and integers that the other modules share.
-- Status: apps/api/internal/task/status.go. `can_transition` is CanTransition; a text that is no
--   known status is `unknown`. Status/Graph has the diagram, Status/History whole histories.
-- Text: the regular expressions of IsUUID and of commit SHAs. The columns of ids are uuids, which Postgres compares
--   without regard to case: the ids that an operation is given are put into the text in which they are stored (`canonical`).
-- Table: a table as the list of its rows, with the statements on it.
-- Task: apps/api/internal/task/task.go.
-- Db: the tables, a transaction over them as explicit state, and its rollback. `Session` is what a
--   transaction finds: the tables, the clock (now() is fixed in a transaction), the values that
--   gen_random_uuid() will give, and `healthy`, how many statements succeed before one fails, for
--   whatever reason the code does not tell apart (a lost connection, a CHECK constraint). It bounds
--   nothing: every theorem on a run of requests is about every value of it.
-- Store: apps/api/internal/task/store.go. Statements has lockTask, insertEvent, truncateRunes and
--   the WHERE clauses; Apply has applyTransition and insertRevisionAttempt; Operations has Create,
--   Transition, RequestRevision and Cancel; Records has EnsureGitContext, AppendAttemptEvent,
--   AppendEvent, RecordTriggerCheckRun and MarkTriggerCheckRunCompleted; Reads has Get, List, Events,
--   EventsAfter, ActiveTaskForIssue, TaskForBranch, Attempt and Attempts. Store/Effect has what a
--   transition has done when it succeeds, Store/Invariant the well-formedness of the tables,
--   Store/Keeps what the single writes keep, Store/Total the answers when no statement fails,
--   Store/Pages and Store/Cursor a page of events.
-- Lease: apps/api/internal/runner/store.go: Claim, ClaimAttempt, ExtendLease, ReleaseLease,
--   RecordAttemptBase, RecordFinalCommit, RecordPullRequest, LeasedAttemptIDs and
--   DispatchableAttempts. Where says which rows a claim may take, without the query. Rows that SKIP LOCKED passes over are an
--   argument; rows that ORDER BY does not tell apart are taken in the table's order.
-- Run: the operations of both stores as requests, and sequences of them. The row locks (FOR UPDATE)
--   make the transactions on a task serial, so a history is a list of requests.
-- Fleet: apps/api/internal/runner/store.go: Register, Heartbeat, MarkOffline and MarkLost on the
--   table of the runners, each one statement that may be refused.
-- Chars: Go's string operations and strconv.Atoi on texts as lists of code points.
-- Git: apps/api/internal/gitworkspace. Branch is branch.go; Commit has buildTrailers and
--   parseNumstat; Hunks has parseHunks and what MergeTree reads; Diffs describes the diffs that git
--   prints, DiffLines and DiffRanges read them. What the git processes print is an argument.
-- Validation: apps/api/internal/validation/file.go: validate, Parse and Load. The YAML decoder and
--   the file system are arguments.
-- Conflict: apps/api/internal/conflict. Paths has Go's `path` and `sort`; Defs has Overlap, Detector
--   has Detect and validateVerdict, Records has Reconcile on the table task_conflicts with the
--   constraints of migrations 00006 and 00008. Git and the assessor are arguments of the detector.
--   A map is a list of its keys or entries; those that the code sorts are sorted. Sets, Sorting,
--   Overlap and Kinds are about Overlap; Semantic about Detect; Pairs, Desired, Loops, Reconcile and
--   Refusal about the table.
-- GitHub: apps/api/internal/github. Command is command.go; Handlers has handleIssueComment
--   and handlePullRequest (process.go) and handleRevise (revise.go); Defs says what a handler finds: each
--   of its calls of the task store comes after any requests of other transactions (a `Turn`), and
--   where no turn is left its time is up. GitHub's answers, the lookup of the repository and the
--   composed feedback are arguments. Feedback has gatherFeedback, where a tick is a microsecond.
--   Authority is about the handler of comments, Gathered about the feedback.
-- Evidence: apps/api/internal/evidence/report.go, and checkConclusion, validationOutcome (publish.go) and
--   what generateEvidence and planSteps (executor.go) read in the agent's events. Conclusion is about them.
-- Runner: apps/api/internal/runner/executor.go and publish.go. A function is a program (`Prog`): a tree of
--   calls, each with what follows for every answer. Fence has fenceLeaseOwnership, transition, append
--   and failTask; Checks the trusted checks and the evidence; Provision the workspaces; Publish and
--   Pulls publish.go; Drive runAgentStages and drive; Execute the rest of Execute. Errors are the
--   lists of the causes that errors.Is finds. The fence's loop ends because each
--   round spends a delay of its timeout, and carries the proof. Path says what a program may ask of the store;
--   Path/Recorded is about publishing, Rounds about the fence.
-- Tests: runs on concrete tables, and the theorems applied to them.
--
-- Times are ticks of the database's clock, amounts of money are cents, and a payload is a list of
-- texts under texts. The index tasks_one_active_per_issue_idx and the primary keys of tasks and
-- attempts are part of the statements; the numbering that the other unique indexes ask for is
-- proved instead. json.Marshal of a map of texts cannot fail; that of an
-- AppendAttemptEvent payload can, and its result is an argument.
--
-- Not modelled: row scanning, HTTP, the git processes and the workspaces, the agents' processes and
-- stopSession, the checks' processes, the texts of reports and pull requests, ActiveSiblings and ListForTask, the assessors
-- themselves, GitHub's API, installations and signatures, telemetry and the web application.
mod Base
pub mod Status
pub mod Text
pub mod Chars
pub mod Table
pub mod Task
pub mod Db
pub mod Store
pub mod Lease
pub mod Run
pub mod Fleet
pub mod Git
pub mod Validation
pub mod Conflict
pub mod GitHub
pub mod Evidence
pub mod Runner
mod Tests
