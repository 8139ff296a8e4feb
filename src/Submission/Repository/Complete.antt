-- ===== src/Submission/Repository/Complete.antt =====
-- internal/submission/judge_repository.go and run_result.go: the result of a judged attempt, written to
-- the attempt, to its task, and to its submission or run.
use soj.Prelude.{ℕ, Bool, true, false, none, some, if◌then◌else◌, ◌==◌}
use soj.AppError.{ok, err, plain}
use soj.AppError.Step.{Step}
use soj.Contest.Types.{Time}
use soj.Judge.Verdict.{Verdict}
use soj.Judge.Result.{JudgeResult}
use soj.Submission.Status.{Status, terminal_status, db_status}
use soj.Submission.Tables.{
  SubmissionRow, AttemptRow, ResultRow, Tables, Tx, ◌and_then◌, with_tx, is_null,
}
use soj.Submission.Tables.Tasks.{lock_judge_task_by_id, mark_judge_task_done}
use soj.Submission.Tables.Submissions.{
  UpdateSubmissionStatusParams, get_submission_by_id, update_submission_status,
}
use soj.Submission.Tables.Attempts.{
  UpdateRunStatusParams, MarkJudgeAttemptFinishedParams, get_judge_attempt_by_id, lock_run_by_id,
  update_run_status, mark_judge_attempt_finished, upsert_submission_result,
}
use soj.Submission.Repository.{Ledgers, text, int4, judged_at_param, rescue, write, put, rebuild}
use soj.Prelude.Int.{pos}

pub record CompleteJudgeAttemptResultInput : Type 0 where
  pub status : Verdict
  pub result : JudgeResult

abbrev pub finished_params : ℕ → JudgeResult → Status → Time → MarkJudgeAttemptFinishedParams
finished_params id result status now = record {
  id = id;
  status = status;
  verdict = some status;
  time_ms = int4 result.time_ms;
  memory_kb = int4 result.memory_kb;
  error_message = text result.error_message;
  finished_at = some (if result.judged_at == 0 then now else result.judged_at);
}

abbrev pub submission_params : ℕ → JudgeResult → Status → UpdateSubmissionStatusParams
submission_params id result status = record {
  status = status;
  time_ms = int4 result.time_ms;
  memory_kb = int4 result.memory_kb;
  error_message = text result.error_message;
  judged_at = judged_at_param result.judged_at;
  id = id;
}

abbrev pub result_params : ℕ → ℕ → JudgeResult → Status → Time → ResultRow
result_params submission attempt result status now = record {
  submission_id = submission;
  attempt_id = attempt;
  status = status;
  score = pos 0;
  time_ms = int4 result.time_ms;
  memory_kb = int4 result.memory_kb;
  updated_at = now;
}

abbrev pub run_params : ℕ → JudgeResult → Status → UpdateRunStatusParams
run_params id result status = record {
  status = status;
  stdout = text result.stdout;
  stderr = text result.stderr;
  compile_output = text result.compile_output;
  time_ms = int4 result.time_ms;
  memory_kb = int4 result.memory_kb;
  error_message = text result.error_message;
  id = id;
}

module _ {P L : Type 0} (ledgers : Ledgers P L) (input : CompleteJudgeAttemptResultInput) where
  -- The end of `finishJudgeAttempt`: a task that is not in flight is left as it is.
  unfoldable pub finish_task : AttemptRow → Tx (Tables P) AttemptRow
  finish_task finished t = elim finished.task_id [
    | none ↦ ok (finished, t)
    | some task ↦ rescue (mark_judge_task_done task t) (ok (finished, t)) (λ _ t. ok (finished, t))
  ]

  unfoldable pub finish_judge_attempt : ℕ → Status → Tx (Tables P) AttemptRow
  finish_judge_attempt attempt status t =
      mark_judge_attempt_finished (finished_params attempt input.result status t.now) t
      and_then λ finished t.
          put (ledgers.create_case_results attempt input.result.cases t.others) t and_then λ _ t.
          finish_task finished t

  -- Closing the item of a rejudge batch, where the attempt is part of one.
  unfoldable pub finish_item : AttemptRow → Tx (Tables P) Bool
  finish_item finished t =
      if is_null finished.rejudge_batch_id
      then ok (true, t)
      else put (ledgers.finish_rejudge_item finished.id t.others) t and_then λ _ t. ok (true, t)

  unfoldable pub write_result : ℕ → Status → L → SubmissionRow → Tx (Tables P) Bool
  write_result attempt status lock row t =
      finish_judge_attempt attempt status t and_then λ finished t.
      rebuild ledgers row lock
        (upsert_submission_result (result_params row.id attempt input.result status t.now) t)
      and_then λ _ t. finish_item finished t

  -- Where the update found no row although the submission was open.
  unfoldable pub reread : ℕ → ℕ → Status → L → Tx (Tables P) Bool
  reread submission attempt status lock t = get_submission_by_id submission t and_then λ row t.
      if terminal_status row.status then ok (false, t) else write_result attempt status lock row t

  unfoldable pub complete_open_submission : ℕ → ℕ → Status → SubmissionRow → Tx (Tables P) Bool
  complete_open_submission submission attempt status row t =
      write (ledgers.lock_contest_problem_projection row t.others) t and_then λ lock t.
      rescue (update_submission_status (submission_params submission input.result status) t)
        (reread submission attempt status lock t) (λ row t. write_result attempt status lock row t)

  unfoldable pub complete_submission_attempt : ℕ → ℕ → Status → Tx (Tables P) Bool
  complete_submission_attempt submission attempt status t =
      get_submission_by_id submission t and_then λ row t.
      if terminal_status row.status
      then ok (false, t)
      else complete_open_submission submission attempt status row t

  unfoldable pub complete_run_attempt : ℕ → ℕ → Status → Tx (Tables P) Bool
  complete_run_attempt run attempt status t = lock_run_by_id run t and_then λ row t.
      if terminal_status row.status
      then ok (false, t)
      else update_run_status (run_params run input.result status) t and_then λ _ t.
          finish_judge_attempt attempt status t and_then λ _ t. ok (true, t)

  -- The subject of the attempt decides which table receives the result.
  unfoldable pub complete_subject : AttemptRow → Tx (Tables P) Bool
  complete_subject attempt t = elim attempt.run_id [
    | some run ↦ complete_run_attempt run attempt.id (db_status input.status) t
    | none ↦ elim attempt.submission_id [
      | some submission ↦
          complete_submission_attempt submission attempt.id (db_status input.status) t
      | none ↦ err (plain "judge attempt is linked to neither a submission nor a run")
    ]
  ]

  unfoldable pub lock_task_of : AttemptRow → Tx (Tables P) (Unit {0})
  lock_task_of attempt t = elim attempt.task_id [
    | none ↦ ok (tt, t)
    | some task ↦ lock_judge_task_by_id task t and_then λ _ t. ok (tt, t)
  ]

  unfoldable pub complete_attempt : ℕ → Tx (Tables P) Bool
  complete_attempt id t = get_judge_attempt_by_id id t and_then λ seen t.
      lock_task_of seen t and_then λ _ t. get_judge_attempt_by_id id t and_then λ attempt t.
      if terminal_status attempt.status then ok (false, t) else complete_subject attempt t

  -- The result is whether this delivery was the one that is stored.
  unfoldable pub complete_judge_attempt_result : ℕ → Step (Tables P) Bool
  complete_judge_attempt_result id = with_tx (complete_attempt id)
