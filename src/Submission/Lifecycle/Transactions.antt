-- ===== src/Submission/Lifecycle/Transactions.antt =====
-- The statements of internal/postgres/db/submissions.sql.go that move one task or one submission.
use soj.Prelude.{ℕ, ◌≡◌, refl, Bool, true, Option, String, List, arith}
use soj.AppError.{Result}
use soj.Contest.Types.{Time}
use soj.Submission.Status.{Status, is_queued, terminal_status}
use soj.Submission.Tables.{TaskState, TaskRow, SubmissionRow, Tables, returned}
use soj.Submission.Tables.Tasks.{
  is_settled, once_dispatched, task_in, is_pending, in_flight, dispatchable, dispatching_row,
  dispatched_row, moved_row, retried_row, update_judge_task_dispatching, mark_judge_task_dispatched,
  mark_judge_task_running, retry_judge_task, update_task, claim_tasks, is_claimed, claimed,
}
use soj.Submission.Tables.Submissions.{
  submission_in, is_open, queued_row, running_row, mark_submission_queued, mark_submission_running,
  update_submission, is_stale, reset_task, running_of_any, reset_stale_judge_tasks,
}
use soj.Submission.Lifecycle.{IsConsistent, tasks_kept, submissions_kept}
use soj.Submission.Lifecycle.Rules.{After, last_After}

once_dispatched-settled :
    (s : TaskState) → is_settled (once_dispatched s) ≡ true → is_settled s ≡ true
once_dispatched-settled s h = ground arith

running_of_any-open :
    (tasks : List TaskRow) (s : SubmissionRow)
    → running_of_any tasks s ≡ true
    → terminal_status s.status ≡ true
    → terminal_status Status.queued ≡ true
running_of_any-open tasks s q d = ground arith

-- What a transaction leaves is consistent.
abbrev pub Kept : {P A : Type 0} → Result (A × Tables P) → Type 0
Kept m = After (λ _ u. IsConsistent u) m

module _ {P : Type 0} (t : Tables P) (h : IsConsistent t) where
  -- A statement on one task that settles none.
  task_statement-Kept :
      (p : TaskRow → Bool) (f : TaskRow → TaskRow)
      → ((j : TaskRow) → (f j).id ≡ j.id)
      → ((j : TaskRow) → (f j).submission_id ≡ j.submission_id)
      → ((j : TaskRow) → p j ≡ true → is_settled (f j).status ≡ true → is_settled j.status ≡ true)
      → Kept (update_task p f t)
  task_statement-Kept p f same_id same_subject quiet =
      last_After p f t.tasks _ (λ x i e. tasks_kept t p f same_id same_subject quiet h)

  -- A statement on one submission that opens none.
  submission_statement-Kept :
      (p : SubmissionRow → Bool) (f : SubmissionRow → SubmissionRow)
      → ((s : SubmissionRow) → (f s).id ≡ s.id)
      → ((s : SubmissionRow)
          → p s ≡ true
          → terminal_status s.status ≡ true
          → terminal_status (f s).status ≡ true)
      → Kept (update_submission p f t)
  submission_statement-Kept p f same_id quiet =
      last_After p f t.submissions _ (λ x i e. submissions_kept t p f same_id quiet h)

  pub dispatching-Kept : (id : ℕ) → Kept (update_judge_task_dispatching id t)
  unfolding update_judge_task_dispatching
  dispatching-Kept id =
      task_statement-Kept (task_in id is_pending) (dispatching_row t.now) (λ j. refl) (λ j. refl)
        (λ j q d. ground arith)

  pub dispatched-Kept :
      (id : ℕ) (stream : Option String) → Kept (mark_judge_task_dispatched id stream t)
  unfolding mark_judge_task_dispatched
  dispatched-Kept id stream =
      task_statement-Kept (task_in id dispatchable) (dispatched_row stream t.now) (λ j. refl)
        (λ j. refl) (λ j q d. once_dispatched-settled j.status d)

  pub running-Kept : (id : ℕ) → Kept (mark_judge_task_running id t)
  unfolding mark_judge_task_running
  running-Kept id =
      task_statement-Kept (task_in id in_flight) (moved_row TaskState.running t.now) (λ j. refl)
        (λ j. refl) (λ j q d. ground arith)

  pub retry-Kept :
      (id : ℕ) (next_run_at : Time) (reason : Option String)
      → Kept (retry_judge_task id next_run_at reason t)
  unfolding retry_judge_task
  retry-Kept id next_run_at reason =
      task_statement-Kept (task_in id in_flight) (retried_row next_run_at reason t.now) (λ j. refl)
        (λ j. refl) (λ j q d. ground arith)

  pub claim_kept :
      (locked : ℕ → Bool) (due : TaskRow → Bool) (limit : ℕ)
      → IsConsistent (claim_tasks locked due limit t).1
  unfolding claim_tasks
  claim_kept locked due limit =
      tasks_kept t (is_claimed (claimed due locked limit t.tasks)) (dispatching_row t.now)
        (λ j. refl) (λ j. refl) (λ j q d. ground arith) h

  pub submission_queued-Kept :
      (id : ℕ) (reason : Option String) → Kept (mark_submission_queued id reason t)
  unfolding mark_submission_queued
  submission_queued-Kept id reason =
      submission_statement-Kept (submission_in id is_open) (queued_row reason t.now) (λ s. refl)
        (λ s q d. ground arith)

  pub submission_running-Kept : (id : ℕ) → Kept (mark_submission_running id t)
  unfolding mark_submission_running
  submission_running-Kept id =
      submission_statement-Kept (submission_in id is_queued) (running_row t.now) (λ s. refl)
        (λ s q d. ground arith)

  -- The tasks move first; the submissions, by what the tasks were.
  pub reset_kept :
      (stale_before : Time) (reason : Option String)
      → IsConsistent (reset_stale_judge_tasks stale_before reason t).1
  unfolding reset_stale_judge_tasks
  reset_kept stale_before reason =
      let stale = is_stale stale_before t.submissions in
      let reset = returned stale (reset_task reason t.now) t.tasks in
      submissions_kept _ (running_of_any reset) (queued_row reason t.now) (λ s. refl)
        (λ s q d. running_of_any-open reset s q d)
        (tasks_kept t stale (reset_task reason t.now) (λ j. refl) (λ j. refl)
          (λ j q d. ground arith) h)
