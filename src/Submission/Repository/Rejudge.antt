-- ===== src/Submission/Repository/Rejudge.antt =====
-- internal/submission/rejudge_repository.go: the transactions that put judged submissions back into the
-- queue, and that take back those that still wait there. The rows of the batches and their items
-- are in `P`; of a cancellation, one item is here and not the loop over the items of its batch.
use soj.Prelude.{
  ℕ, Bool, true, false, ◌&&◌, ◌||◌, not, Option, none, some, List, [], ◌∷◌, filter, String,
  if◌then◌else◌, ◌==◌, ltb, length,
}
use soj.Prelude.Sort.{sort}
use soj.AppError.{Result, ok, err, Error, plain, conflict, ◌>>=◌}
use soj.AppError.Step.{Step}
use soj.Contest.Types.{Time}
use soj.Submission.Status.{terminal_status}
use soj.Submission.Tables.{TaskRow, SubmissionRow, Tables, Tx, ◌and_then◌, one, refers, with_tx}
use soj.Submission.Tables.Tasks.{
  is_settled, lock_judge_task_by_id, prepare_judge_task_for_rejudge,
  cancel_pending_judge_task_for_rejudge,
}
use soj.Submission.Tables.Submissions.{
  get_submission_by_id, prepare_submission_for_rejudge, restore_submission_after_canceled_rejudge,
}
use soj.Submission.Repository.{Ledgers, text, rescue, write, put, rebuild}

pub record RejudgeTarget : Type 0 where
  pub submission : SubmissionRow
  pub task : TaskRow

pub record RejudgeItem : Type 0 where
  pub submission_id : ℕ
  pub task_id : ℕ

-- The tables of batches: `create_batch` is given the number of targets and returns the batch.
pub record Batches (P : Type 0) : Type 0 where
  pub create_batch : ℕ → P → Result (ℕ × P)
  pub create_item : ℕ → ℕ → ℕ → P → Result P

abbrev pub task_not_ready : Error
task_not_ready = conflict "rejudge.task_not_ready" "submission judge task is not done or dead"

abbrev pub cancel_race : Error
cancel_race =
    conflict "rejudge.cancel_race" "a queued rejudge item started while cancellation was requested"

-- `ErrNoRejudgeSubmissions`
abbrev pub no_rejudge_submissions : Error
no_rejudge_submissions = plain "no eligible submissions for rejudge"

-- `ListEligibleProblemSubmissionsForRejudge`
unfoldable pub eligible_of_problem : {P : Type 0} → ℕ → Tables P → List SubmissionRow
eligible_of_problem problem t =
    sort (λ a b. ltb a.id b.id)
      (filter (λ s. (s.problem_id == problem) && (is_none s.contest_id && terminal_status s.status))
        t.submissions)
  where
    is_none : Option ℕ → Bool
    is_none none = true
    is_none (some k) = false

-- `ListEligibleContestSubmissionsForRejudge`
unfoldable pub eligible_of_contest : {P : Type 0} → ℕ → Tables P → List SubmissionRow
eligible_of_contest contest t =
    sort (λ a b. ltb a.id b.id)
      (filter (λ s. refers s.contest_id contest && terminal_status s.status) t.submissions)

-- The two orders of the targets: by task and by submission.
unfoldable pub task_first : RejudgeTarget → RejudgeTarget → Bool
task_first a b =
    if a.task.id == b.task.id then ltb a.submission.id b.submission.id else ltb a.task.id b.task.id

unfoldable pub submission_first : RejudgeTarget → RejudgeTarget → Bool
submission_first a b =
    if a.submission.id == b.submission.id
    then ltb a.task.id b.task.id
    else ltb a.submission.id b.submission.id

-- `GetJudgeTaskBySubmissionID` for each candidate.
unfoldable pub find_targets : {P : Type 0} → List SubmissionRow → Tx (Tables P) (List RejudgeTarget)
find_targets [] t = ok ([], t)
find_targets (candidate ∷ rest) t =
    one (filter (λ j. refers j.submission_id candidate.id) t.tasks) >>= λ task.
    find_targets rest t and_then λ targets t.
    ok (record { submission = candidate; task = task } ∷ targets, t)

unfoldable pub lock_tasks : {P : Type 0} → List RejudgeTarget → Tx (Tables P) (List RejudgeTarget)
lock_tasks [] t = ok ([], t)
lock_tasks (target ∷ rest) t = lock_judge_task_by_id target.task.id t and_then λ task t.
    lock_tasks rest t and_then λ targets t. ok (record target { task = task } ∷ targets, t)

unfoldable pub lock_submissions :
    {P : Type 0} → List RejudgeTarget → Tx (Tables P) (List RejudgeTarget)
lock_submissions [] t = ok ([], t)
lock_submissions (target ∷ rest) t =
    get_submission_by_id target.submission.id t and_then λ submission t.
    if not (terminal_status submission.status) || not (is_settled target.task.status)
    then err task_not_ready
    else lock_submissions rest t and_then λ targets t.
        ok (record target { submission = submission } ∷ targets, t)

module _ {P L : Type 0} (ledgers : Ledgers P L) (batches : Batches P) where
  -- One target of the last loop of `CreateRejudgeBatchWithItems`.
  unfoldable pub prepare_target : ℕ → Time → RejudgeTarget → Tx (Tables P) (Unit {0})
  prepare_target batch next_run_at target t =
      put (batches.create_item batch target.submission.id target.task.id t.others) t and_then λ _ t.
      write (ledgers.lock_contest_problem_projection target.submission t.others) t
      and_then λ lock t.
          rescue (prepare_judge_task_for_rejudge target.task.id target.submission.id next_run_at t)
            (err task_not_ready)
            (λ _ t. prepare_submission_for_rejudge target.submission.id t and_then λ _ t.
              rebuild ledgers target.submission lock t)

  unfoldable pub prepare_targets : ℕ → Time → List RejudgeTarget → Tx (Tables P) (Unit {0})
  unfolding prepare_target
  prepare_targets batch next_run_at [] t = ok (tt, t)
  prepare_targets batch next_run_at (target ∷ rest) t =
      prepare_target batch next_run_at target t and_then λ _ t.
      prepare_targets batch next_run_at rest t

  unfoldable pub create_items : Time → List RejudgeTarget → Tx (Tables P) ℕ
  create_items next_run_at targets t =
      write (batches.create_batch (length targets) t.others) t and_then λ batch t.
      prepare_targets batch next_run_at targets t and_then λ _ t. ok (batch, t)

  unfoldable pub rejudge_submissions : Time → List SubmissionRow → Tx (Tables P) ℕ
  rejudge_submissions next_run_at [] t = err no_rejudge_submissions
  rejudge_submissions next_run_at (first ∷ rest) t =
      find_targets (first ∷ rest) t and_then λ found t.
      lock_tasks (sort task_first found) t and_then λ locked t.
      lock_submissions (sort submission_first locked) t and_then λ targets t.
      create_items next_run_at targets t

  -- `CreateRejudgeBatchWithItems`, for a problem or for a contest.
  unfoldable pub rejudge_problem : ℕ → Time → Step (Tables P) ℕ
  rejudge_problem problem next_run_at =
      with_tx (λ t. rejudge_submissions next_run_at (eligible_of_problem problem t) t)

  unfoldable pub rejudge_contest : ℕ → Time → Step (Tables P) ℕ
  rejudge_contest contest next_run_at =
      with_tx (λ t. rejudge_submissions next_run_at (eligible_of_contest contest t) t)

  -- One item of the last loop of `CancelRejudgeBatch`; `submission` is the row that was locked.
  unfoldable pub cancel_item : String → SubmissionRow → RejudgeItem → Tx (Tables P) (Unit {0})
  cancel_item reason submission item t =
      rescue (cancel_pending_judge_task_for_rejudge item.task_id (text reason) t) (err cancel_race)
        (λ _ t.
          write (ledgers.lock_contest_problem_projection submission t.others) t and_then λ lock t.
          restore_submission_after_canceled_rejudge item.submission_id t and_then λ restored t.
          rebuild ledgers restored lock t)
