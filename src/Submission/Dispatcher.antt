-- ===== src/Submission/Dispatcher.antt =====
-- TaskDispatcher of internal/submission/worker.go: claiming tasks and publishing their requests. The
-- store and the queues are interfaces there and parameters here; their calls pass a state along. `E` is
-- the encoded request event of a task; the argument that builds one encodes it too. The backoff is the
-- default one.
pub mod Counts
use soj.Prelude.{ℕ, suc, ◌+◌, Bool, Option, none, some, List, [], ◌∷◌, if◌then◌else◌}
use soj.Prelude.Int.{ℤ, pos, leb_ℤ}
use soj.AppError.{Result, ok, err, Error}
use soj.AppError.Step.{Step}
use soj.Contest.Types.{Time}
use soj.Submission.Worker.{JudgeTask, error_of, stop_at, default_judge_task_backoff}

-- `taskPublisher`: the id of the stream entry is returned.
abbrev pub Publisher : Type 0 → Type 0 → Type 0
Publisher S E = ℕ → E → Step S ℕ

abbrev pub Builder : Type 0 → Type 0 → Type 0
Builder S E = JudgeTask → Step S E

-- The calls of the store that dispatching makes, and the two queues, of which that of the runs may be
-- absent.
pub record Dispatching (S : Type 0) (E : Type 0) : Type 0 where
  pub claim_pending_judge_tasks : ℤ → Step S (List JudgeTask)
  pub claim_pending_run_tasks : ℤ → Step S (List JudgeTask)
  pub retry_judge_task : ℕ → Time → Error → Step S (Unit {0})
  pub mark_judge_task_dispatched : ℕ → ℕ → Step S (Unit {0})
  pub queue : Publisher S E
  pub run_queue : Option (Publisher S E)
  pub submission_request_event : Builder S E
  pub run_request_event : Builder S E
  pub now : Time

-- How many tasks were dispatched, and the error that ended the loop.
abbrev pub Dispatched : Type 0 → Type 0
Dispatched S = (ℕ × Option Error) × S

module _ {S E : Type 0} (d : Dispatching S E) where
  -- After publishing: the error of the retry is dropped.
  unfoldable pub after_publish : JudgeTask → Result ℕ → S → Option Error × S
  after_publish task (ok stream) s = (
    error_of (d.mark_judge_task_dispatched task.id stream s).0,
    (d.mark_judge_task_dispatched task.id stream s).1,
  )
  after_publish task (err cause) s = (
    some cause,
    (d.retry_judge_task task.id (d.now + default_judge_task_backoff task.attempts) cause s).1,
  )

  unfoldable pub after_build : JudgeTask → Publisher S E → Result E → S → Option Error × S
  after_build task target (err cause) s = (some cause, s)
  after_build task target (ok event) s =
      after_publish task (target task.id event s).0 (target task.id event s).1

  -- The body of the loop of `publish`: nothing is returned where the task was dispatched.
  unfoldable pub publish_task : Publisher S E → Builder S E → JudgeTask → S → Option Error × S
  publish_task target build task s = after_build task target (build task s).0 (build task s).1

  unfoldable pub publish : Publisher S E → Builder S E → ℕ → List JudgeTask → S → Dispatched S
  publish target build dispatched [] s = ((dispatched, none), s)
  publish target build dispatched (task ∷ tasks) s =
      let rest = publish target build (suc dispatched) tasks (publish_task target build task s).1 in
      stop_at (publish_task target build task s).0 dispatched (publish_task target build task s).1
        rest

  unfoldable pub publish_claimed :
      Publisher S E → Builder S E → Result (List JudgeTask) → S → Dispatched S
  publish_claimed target build (err cause) s = ((0, some cause), s)
  publish_claimed target build (ok tasks) s = publish target build 0 tasks s

  unfoldable pub dispatch_submissions : ℤ → S → Dispatched S
  dispatch_submissions limit s =
      publish_claimed d.queue d.submission_request_event (d.claim_pending_judge_tasks limit s).0
        (d.claim_pending_judge_tasks limit s).1

  unfoldable pub dispatch_to : Option (Publisher S E) → ℤ → S → Dispatched S
  dispatch_to none limit s = ((0, none), s)
  dispatch_to (some target) limit s =
      publish_claimed target d.run_request_event (d.claim_pending_run_tasks limit s).0
        (d.claim_pending_run_tasks limit s).1

  unfoldable pub dispatch_runs : ℤ → S → Dispatched S
  dispatch_runs limit s = dispatch_to d.run_queue limit s

  -- `submissions + runs`
  unfoldable pub then_runs : ℤ → Dispatched S → Dispatched S
  then_runs limit ((submissions, some cause), s) = ((submissions, some cause), s)
  then_runs limit ((submissions, none), s) = (
    (submissions + (dispatch_runs limit s).0.0, (dispatch_runs limit s).0.1),
    (dispatch_runs limit s).1,
  )

  -- `DispatchPending`
  unfoldable pub dispatch_pending : ℤ → S → Dispatched S
  dispatch_pending limit s =
      if leb_ℤ limit (pos 0)
      then then_runs (pos 16) (dispatch_submissions (pos 16) s)
      else then_runs limit (dispatch_submissions limit s)
