-- ===== src/Lib.antt =====
-- SOJ is an online judge: contestants send sources to the problems of contests, an agent compiles
-- and runs them on testcases, and scoreboards rank the contestants, frozen near the end of a contest.
--
-- The parts, their files here and their code:
-- - Prelude: tests on numbers, lists, a stable insertion sort, and integers that wrap to int32.
-- - AppError (internal/apperror/error.go): errors and fallible results; AppError/Step: fallible calls
--   that pass a state along; AppError/Bind: what a chain of calls that ends well says of its parts.
-- - Auth (internal/auth/actor.go, internal/authz): actors, roles and permissions; Auth/Merge: the
--   loops of actorWithContestRoles in internal/contest/reader.go.
-- - Contest/Types, Contest/Access, Contest/Policy (internal/contest/service.go, reader.go, policy.go):
--   the records of a contest, who may read and manage it, registration, admission of submissions and
--   visibility of results. ContestStore stands for the reads of the database and the clock.
-- - Contest/Scoreboard (internal/contest/scoreboard.go, scoreboard_pagination.go): Rows has rankRows,
--   Cursor the cursors and applyPageRanks, Live the live page, Board the boards that snapshots are
--   made of, Service the choice of a view and the pages of snapshots.
-- - Submission/Status, Submission/Projection (internal/submission/service.go,
--   contest_projection_repository.go): statuses, and the stored result of a contestant on a problem,
--   which the live page shows.
-- - Submission/Worker (internal/submission/worker.go): processMessage, retryOrDead and ConsumeOnce.
-- - Submission/Dispatcher (the same file): DispatchPending, with the builders of events as arguments.
-- - Submission/Tables (internal/postgres/db/submissions.sql.go, internal/postgres/tx.go): the tables of
--   judge tasks, submissions, runs, attempts and results as lists of rows, and the statements on them,
--   in Tasks, Submissions and Attempts; Rows has keys and membership.
-- - Submission/Repository (internal/submission/judge_task_repository.go, submission_repository.go):
--   the transactions that fail and recover a task; Complete (judge_repository.go, run_result.go) stores
--   the result of an attempt, Attempts creates one or takes up the last one, Rejudge
--   (rejudge_repository.go) puts judged submissions into the queue.
-- - Submission/Lifecycle: what these keep true. Rules has a rule for each kind of statement, Requests
--   the requests that dispatchers, workers, reconcilers and the consumer of results make, Histories
--   their sequences together with rejudges and with tasks that are marked done alone, Machine the state
--   machine of a task and Steps its steps; the other files are named for a transaction or a property.
-- - Judge/Verdict, Judge/Result, Judge/Events (internal/judge/judge.go, internal/judge/events): the
--   verdicts and results that the agent returns to the worker, and the events of the queue.
-- - Judge/Core (internal/judgecore/core.go): Judge and Run.
-- - Problem/Policy, Problem/Readiness, Problem/Review (internal/problem/rbac_policy.go,
--   problem_readiness.go, review.go): the permissions of authors and reviewers, what publishing asks
--   for, and the review as a state machine on the tables of problems and review events.
-- - Examples: the theorems at concrete inputs.
--
-- Conventions. Instants are nanoseconds since Go's zero time, identifiers are natural numbers, and an
-- int32 is an integer that is wrapped at each write. A string constant is a constructor of a data
-- type, any other text its constructor other. A Go (T, error) is a Result. Interfaces (database,
-- sandbox, checker, queue, engine) are records of functions; where their calls change something, the
-- functions pass a state along. A function that reads the clock is given the reading, and where two
-- functions read it one after the other, two. What a theorem relies on of them is a record of laws: CountsWorkspaces
-- CountsAcks and CountsPublished. A review action reads the tables twice, once before and once under the row lock, so
-- the two states it is given may differ by what others did in between. sort.Slice is an insertion
-- sort, which orders equal rows as they came; Go leaves their order open. All loops are structural
-- recursion over lists, so nothing needs fuel.
--
-- An UPDATE of SQL maps the rows that its WHERE clause selects, RETURNING lists them, EXISTS is any, and
-- SKIP LOCKED leaves out the rows that a parameter names. A transaction passes the tables along and
-- drops them on an error; concurrent requests are any sequence of whole transactions, as the row locks
-- make them. Ledgers and Batches stand for the tables beside these that the transactions also write.
--
-- Not modelled: HTTP, the SQL of other tables, Redis, files, processes, metrics and traces, which are
-- input and output; CompleteSubmissionWithResult, by which the in-process worker stores a result, and
-- the creation of submissions and runs, which are not in the histories of requests either;
-- the JSON forms of events and cursors, of which a cursor's text keeps only whether it decodes;
-- failures of the database inside a review's transaction; the time limit of a workspace's clean-up.
pub mod Prelude
pub mod AppError
pub mod Judge
pub mod Submission
pub mod Auth
pub mod Contest
pub mod Problem
pub mod Examples
