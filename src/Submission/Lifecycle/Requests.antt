-- ===== src/Submission/Lifecycle/Requests.antt =====
-- Any sequence of the requests that dispatchers, workers, reconcilers and the consumer of results make
-- of the tables of internal/submission, each a transaction or a single statement. A request that fails
-- leaves the tables as they were. Not among them are rejudges and a task that is marked done alone, which
-- Histories adds, nor CompleteSubmissionWithResult of the in-process worker, EnsureJudgeAttempt, the
-- canceling of rejudge batches and the creation of submissions and runs.
use soj.Prelude.{ℕ, Bool, Option, String}
use soj.Contest.Types.{Time}
use soj.Submission.Tables.{Tables, settle}
use soj.Submission.Tables.Tasks.{
  claim_pending_judge_tasks, claim_pending_run_tasks, update_judge_task_dispatching,
  mark_judge_task_dispatched, mark_judge_task_running, retry_judge_task, due_submission, due_run,
}
use soj.Submission.Tables.Submissions.{
  mark_submission_queued, mark_submission_running, reset_stale_judge_tasks,
}
use soj.Submission.Tables.Attempts.{mark_stale_runs_system_error}
use soj.Submission.Repository.{Ledgers, mark_judge_task_dead, recover_dead_judge_task}
use soj.Submission.Repository.Complete.{
  CompleteJudgeAttemptResultInput, complete_judge_attempt_result,
}
use soj.Submission.Lifecycle.{IsConsistent, runs_kept}
use soj.Submission.Lifecycle.Rules.{settle-After}
use soj.Submission.Lifecycle.Transactions.{
  dispatching-Kept, dispatched-Kept, running-Kept, retry-Kept, claim_kept, submission_queued-Kept,
  submission_running-Kept, reset_kept,
}
use soj.Submission.Lifecycle.Failures.{dead_task-Kept}
use soj.Submission.Lifecycle.Recovery.{recover_kept}
use soj.Submission.Lifecycle.Delivery.{complete_kept}

pub data Request : Type 0 where
  claim_judge_tasks claim_run_tasks : (ℕ → Bool) → ℕ → Request
  mark_dispatching mark_running start_submission : ℕ → Request
  mark_dispatched requeue_submission : ℕ → Option String → Request
  retry : ℕ → Time → Option String → Request
  mark_dead : ℕ → String → Request
  recover_dead : ℕ → Time → String → Request
  reset_stale_tasks fail_stale_runs : Time → Option String → Request
  complete : ℕ → CompleteJudgeAttemptResultInput → Request
  wait : Time → Request

module _ {P L : Type 0} (ledgers : Ledgers P L) where
  -- The tables that a request leaves.
  unfoldable pub perform : Request → Tables P → Tables P
  perform (claim_judge_tasks locked limit) t = (claim_pending_judge_tasks locked limit t).1
  perform (claim_run_tasks locked limit) t = (claim_pending_run_tasks locked limit t).1
  perform (mark_dispatching id) t = (settle (update_judge_task_dispatching id t) t).1
  perform (mark_dispatched id stream) t = (settle (mark_judge_task_dispatched id stream t) t).1
  perform (mark_running id) t = (settle (mark_judge_task_running id t) t).1
  perform (retry id at reason) t = (settle (retry_judge_task id at reason t) t).1
  perform (mark_dead id reason) t = (mark_judge_task_dead ledgers id reason t).1
  perform (recover_dead id at reason) t = (recover_dead_judge_task ledgers id at reason t).1
  perform (reset_stale_tasks before reason) t = (reset_stale_judge_tasks before reason t).1
  perform (fail_stale_runs before reason) t = (mark_stale_runs_system_error before reason t).1
  perform (start_submission id) t = (settle (mark_submission_running id t) t).1
  perform (requeue_submission id reason) t = (settle (mark_submission_queued id reason t) t).1
  perform (complete id input) t = (complete_judge_attempt_result ledgers input id t).1
  perform (wait now) t = record t { now = now }

  wait_kept : (t : Tables P) (now : Time) → IsConsistent t → IsConsistent (record t { now = now })
  wait_kept t now h = record {
    task_key = h.task_key;
    subject_key = h.subject_key;
    submission_key = h.submission_key;
    attempt_key = h.attempt_key;
    settled = h.settled;
    judged = h.judged;
    one_subject = h.one_subject;
    of_task = h.of_task;
  }

  pub perform_kept : (r : Request) (t : Tables P) → IsConsistent t → IsConsistent (perform r t)
  unfolding perform mark_judge_task_dead claim_pending_judge_tasks claim_pending_run_tasks
      mark_stale_runs_system_error
  perform_kept (claim_judge_tasks locked limit) t h =
      claim_kept t h locked (due_submission t.now) limit
  perform_kept (claim_run_tasks locked limit) t h = claim_kept t h locked (due_run t.now) limit
  perform_kept (mark_dispatching id) t h = settle-After IsConsistent _ t h (dispatching-Kept t h id)
  perform_kept (mark_dispatched id stream) t h =
      settle-After IsConsistent _ t h (dispatched-Kept t h id stream)
  perform_kept (mark_running id) t h = settle-After IsConsistent _ t h (running-Kept t h id)
  perform_kept (retry id at reason) t h =
      settle-After IsConsistent _ t h (retry-Kept t h id at reason)
  perform_kept (mark_dead id reason) t h =
      settle-After IsConsistent _ t h (dead_task-Kept ledgers t h id reason)
  perform_kept (recover_dead id at reason) t h = recover_kept ledgers t id at reason h
  perform_kept (reset_stale_tasks before reason) t h = reset_kept t h before reason
  perform_kept (fail_stale_runs before reason) t h = runs_kept t _ h
  perform_kept (start_submission id) t h =
      settle-After IsConsistent _ t h (submission_running-Kept t h id)
  perform_kept (requeue_submission id reason) t h =
      settle-After IsConsistent _ t h (submission_queued-Kept t h id reason)
  perform_kept (complete id input) t h = complete_kept ledgers input t id h
  perform_kept (wait now) t h = wait_kept t now h
