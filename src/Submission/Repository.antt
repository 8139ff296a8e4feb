-- ===== src/Submission/Repository.antt =====
-- internal/submission/judge_task_repository.go, submission_repository.go, and judge_repository.go:
-- the transactions on submissions and judge tasks. Their tables of contest
-- results, rejudge batches and cases are the parameter `P`, written through `Ledgers`; a transaction
-- that fails keeps nothing of it.
pub mod Complete
pub mod Rejudge
pub mod Attempts
use soj.Prelude.{
  ℕ, Bool, true, false, Option, none, some, List, [], ◌∷◌, map, filter, String, str_eq,
  if◌then◌else◌, ◌==◌,
}
use soj.Prelude.Int.{ℤ, pos, leb_ℤ, to_int32}
use soj.AppError.{Result, ok, err, Error, app, plain}
use soj.AppError.Step.{Step}
use soj.Contest.Types.{Time}
use soj.Judge.Verdict.{Verdict}
use soj.Judge.Result.{JudgeResult, CaseResult}
use soj.Submission.Status.{Status, terminal_status, db_status}
use soj.Submission.Tables.{
  TaskRow, SubmissionRow, AttemptRow, Tables, Tx, ◌and_then◌, with_tx, is_null,
}
use soj.Submission.Tables.Tasks.{lock_judge_task_by_id, mark_task_dead, mark_judge_task_done}
use soj.Submission.Tables.Submissions.{
  UpdateSubmissionStatusParams, get_submission_by_id, set_system_error, update_submission_status,
  recover_dead_task,
}
use soj.Submission.Tables.Attempts.{
  UpdateRunStatusParams, MarkJudgeAttemptFinishedParams, get_judge_attempt_by_id, lock_run_by_id,
  update_run_status, mark_judge_attempt_finished, upsert_submission_result,
}

-- Writes to the tables beside these: the lock and the rebuilding of a contest result, the items of
-- rejudge batches with the progress of their batch, and the rows of the judged cases.
pub record Ledgers (P : Type 0) (L : Type 0) : Type 0 where
  pub lock_contest_problem_projection : SubmissionRow → P → Result (L × P)
  pub enabled : L → Bool
  pub rebuild_contest_problem_result : Tables P → SubmissionRow → L → Result P
  pub fail_active_rejudge_item : ℕ → Option String → P → Result P
  pub finish_rejudge_item : ℕ → P → Result P
  pub create_case_results : ℕ → List CaseResult → P → Result P

-- `text`
abbrev pub text : String → Option String
text value = if str_eq value "" then none else some value

-- `int4`
abbrev pub int4 : ℤ → Option ℤ
int4 value = if leb_ℤ value (pos 0) then none else some (to_int32 value)

-- `judgedAtParam`
abbrev pub judged_at_param : Time → Option Time
judged_at_param value = if value == 0 then none else some value

-- `errors.Is(err, pgx.ErrNoRows)`
abbrev pub is_no_rows : Error → Bool
is_no_rows (app e) = false
is_no_rows (plain s) = str_eq s "no rows in result set"

-- A query, with what follows where it has no row, and where it has one.
abbrev pub rescue :
    {T A B : Type 0} → Result (A × T) → Result (B × T) → (A → Tx T B) → Result (B × T)
rescue (ok (a, t)) missing next = next a t
rescue (err failure) missing next = if is_no_rows failure then missing else err failure

-- A write to the other tables.
abbrev pub write : {P A : Type 0} → Result (A × P) → Tx (Tables P) A
write (ok (a, p)) t = ok (a, record t { others = p })
write (err failure) t = err failure

abbrev pub put : {P : Type 0} → Result P → Tx (Tables P) (Unit {0})
put (ok p) t = ok (tt, record t { others = p })
put (err failure) t = err failure

-- `errJudgeTaskIsNotASubmission`
abbrev pub not_a_submission : Error
not_a_submission = plain "judge task is not linked to a submission"

module _ {P L : Type 0} (ledgers : Ledgers P L) where
  abbrev pub rebuild : SubmissionRow → L → Tx (Tables P) (Unit {0})
  rebuild row lock t = put (ledgers.rebuild_contest_problem_result t row lock) t

  unfoldable pub mark_submission_system_error : ℕ → String → Tx (Tables P) SubmissionRow
  mark_submission_system_error id reason t = get_submission_by_id id t and_then λ current t.
      if terminal_status current.status
      then ok (current, t)
      else write (ledgers.lock_contest_problem_projection current t.others) t and_then λ lock t.
          rescue (set_system_error id (text reason) t) (ok (current, t))
            (λ row t. rebuild row lock t and_then λ _ t. ok (row, t))

  -- What `MarkJudgeTaskDead` does once the task is dead.
  unfoldable pub fail_subject : ℕ → String → TaskRow → Tx (Tables P) TaskRow
  fail_subject id reason task t = elim task.submission_id [
    | none ↦ err not_a_submission
    | some submission ↦ mark_submission_system_error submission reason t and_then λ _ t.
        put (ledgers.fail_active_rejudge_item id (text reason) t.others) t and_then λ _ t.
        ok (task, t)
  ]

  unfoldable pub dead_task : ℕ → String → Tx (Tables P) TaskRow
  dead_task id reason t =
      mark_task_dead id (text reason) t and_then λ task t. fail_subject id reason task t

  unfoldable pub mark_judge_task_dead : ℕ → String → Step (Tables P) TaskRow
  mark_judge_task_dead id reason = with_tx (dead_task id reason)

  -- The rebuilding of `RecoverDeadJudgeTask`, where the lock is enabled.
  unfoldable pub rebuild_recovered : ℕ → L → TaskRow → Tx (Tables P) TaskRow
  rebuild_recovered submission lock task t =
      if ledgers.enabled lock
      then (get_submission_by_id submission t and_then λ updated t.
          rebuild updated lock t and_then λ _ t. ok (task, t))
      else ok (task, t)

  unfoldable pub recover_subject : ℕ → Time → String → TaskRow → Tx (Tables P) TaskRow
  recover_subject id next_run_at reason current t = elim current.submission_id [
    | none ↦ err not_a_submission
    | some submission ↦ get_submission_by_id submission t and_then λ row t.
        write (ledgers.lock_contest_problem_projection row t.others) t and_then λ lock t.
        recover_dead_task id next_run_at (text reason) t and_then λ task t.
        rebuild_recovered submission lock task t
  ]

  unfoldable pub recover_dead_judge_task : ℕ → Time → String → Step (Tables P) TaskRow
  recover_dead_judge_task id next_run_at reason = with_tx (λ t.
      lock_judge_task_by_id id t and_then λ current t.
      recover_subject id next_run_at reason current t)
