-- ===== src/Submission/Tables/Submissions.antt =====
-- internal/postgres/db/submissions.sql.go: the statements that change the submissions and the runs.
use soj.Prelude.{
  ℕ, Bool, true, false, ◌&&◌, not, Option, none, some, List, filter, any, String, if◌then◌else◌,
  ◌==◌, ltb,
}
use soj.Prelude.Sort.{sort}
use soj.Prelude.Int.{ℤ, pos}
use soj.AppError.{ok, ◌>>=◌}
use soj.Contest.Types.{Time, before}
use soj.Submission.Status.{Status, is_queued, terminal_status}
use soj.Submission.Tables.{
  TaskState, TaskRow, SubmissionRow, ResultRow, Tables, Tx, one, update, returned, refers, coalesce,
}
use soj.Submission.Tables.Tasks.{is_dead, can_stall}

abbrev pub is_running : Status → Bool
is_running Status.running = true
is_running _ = false

abbrev pub is_system_error : Status → Bool
is_system_error Status.system_err = true
is_system_error _ = false

-- The submission `id`, in a status that the statement admits.
abbrev pub submission_in : ℕ → (Status → Bool) → SubmissionRow → Bool
submission_in id admits row = (row.id == id) && admits row.status

-- `status NOT IN ('accepted', …, 'canceled')`
abbrev pub is_open : Status → Bool
is_open status = not (terminal_status status)

-- `CASE WHEN at IS NULL THEN now() ELSE at END`
abbrev pub stamp : Time → Option Time → Option Time
stamp now at = some (coalesce at now)

-- The same under the condition that the new status is terminal.
abbrev pub stamp_if_terminal : Status → Time → Option Time → Option Time
stamp_if_terminal status at_end at = if terminal_status status then stamp at_end at else at

-- A `:one` statement on the submissions.
abbrev pub update_submission :
    {P : Type 0}
    → (SubmissionRow → Bool)
    → (SubmissionRow → SubmissionRow)
    → Tx (Tables P) SubmissionRow
update_submission p f t = one (returned p f t.submissions) >>= λ row.
    ok (row, record t { submissions = update p f t.submissions })

-- `LockSubmissionByID` and `GetSubmissionByID`
abbrev pub get_submission_by_id : {P : Type 0} → ℕ → Tx (Tables P) SubmissionRow
get_submission_by_id id t = one (filter (λ row. row.id == id) t.submissions) >>= λ row. ok (row, t)

abbrev pub queued_row : Option String → Time → SubmissionRow → SubmissionRow
queued_row reason now row = record row {
  status = Status.queued;
  error_message = reason;
  updated_at = now;
}

unfoldable pub mark_submission_queued :
    {P : Type 0} → ℕ → Option String → Tx (Tables P) SubmissionRow
mark_submission_queued id reason t =
    update_submission (submission_in id is_open) (queued_row reason t.now) t

abbrev pub running_row : Time → SubmissionRow → SubmissionRow
running_row now row = record row { status = Status.running; updated_at = now }

unfoldable pub mark_submission_running : {P : Type 0} → ℕ → Tx (Tables P) SubmissionRow
mark_submission_running id t = update_submission (submission_in id is_queued) (running_row t.now) t

abbrev pub system_error_row : Option String → Time → SubmissionRow → SubmissionRow
system_error_row reason now row = record row {
  status = Status.system_err;
  error_message = reason;
  judged_at = stamp now row.judged_at;
  first_judged_at = stamp now row.first_judged_at;
  updated_at = now;
}

-- `Queries.MarkSubmissionSystemError`
unfoldable pub set_system_error : {P : Type 0} → ℕ → Option String → Tx (Tables P) SubmissionRow
set_system_error id reason t =
    update_submission (submission_in id is_open) (system_error_row reason t.now) t

pub record UpdateSubmissionStatusParams : Type 0 where
  pub status : Status
  pub time_ms : Option ℤ
  pub memory_kb : Option ℤ
  pub error_message : Option String
  pub judged_at : Option Time
  pub id : ℕ

abbrev pub judged_row : UpdateSubmissionStatusParams → Time → SubmissionRow → SubmissionRow
judged_row arg now row = record row {
  status = arg.status;
  time_ms = arg.time_ms;
  memory_kb = arg.memory_kb;
  error_message = arg.error_message;
  judged_at = stamp_if_terminal arg.status (coalesce arg.judged_at now) row.judged_at;
  first_judged_at = stamp_if_terminal arg.status (coalesce arg.judged_at now) row.first_judged_at;
  updated_at = now;
}

unfoldable pub update_submission_status :
    {P : Type 0} → UpdateSubmissionStatusParams → Tx (Tables P) SubmissionRow
update_submission_status arg t =
    update_submission (submission_in arg.id is_open) (judged_row arg t.now) t

abbrev pub rejudged_row : Time → SubmissionRow → SubmissionRow
rejudged_row now row = record row {
  status = Status.queued;
  time_ms = none;
  memory_kb = none;
  score = pos 0;
  error_message = none;
  judged_at = none;
  updated_at = now;
}

unfoldable pub prepare_submission_for_rejudge : {P : Type 0} → ℕ → Tx (Tables P) SubmissionRow
prepare_submission_for_rejudge id t =
    update_submission (submission_in id terminal_status) (rejudged_row t.now) t

abbrev pub restored_row : ResultRow → Time → SubmissionRow → SubmissionRow
restored_row result now row = record row {
  status = result.status;
  time_ms = result.time_ms;
  memory_kb = result.memory_kb;
  score = result.score;
  error_message = none;
  judged_at = some (coalesce row.judged_at result.updated_at);
  updated_at = now;
}

-- `FROM submission_results`: the result of the submission, whose key is the submission.
unfoldable pub restore_submission_after_canceled_rejudge :
    {P : Type 0} → ℕ → Tx (Tables P) SubmissionRow
restore_submission_after_canceled_rejudge id t =
    one (filter (λ r. r.submission_id == id) t.results) >>= λ result.
    update_submission (submission_in id is_queued) (restored_row result t.now) t

-- `EXISTS (SELECT 1 FROM submissions …)` for the submission of a task.
abbrev pub has_submission : (Status → Bool) → List SubmissionRow → TaskRow → Bool
has_submission admits submissions task =
    any (λ s. refers task.submission_id s.id && admits s.status) submissions

-- `FROM tasks WHERE submissions.id = tasks.submission_id`
abbrev pub of_any : List TaskRow → SubmissionRow → Bool
of_any tasks submission = any (λ task. refers task.submission_id submission.id) tasks

abbrev pub recoverable : ℕ → List SubmissionRow → TaskRow → Bool
recoverable id submissions task =
    (task.id == id) && (is_dead task.status && has_submission is_system_error submissions task)

abbrev pub recovered_task : Time → Option String → Time → TaskRow → TaskRow
recovered_task next_run_at reason now row = record row {
  status = TaskState.pending;
  attempts = 0;
  next_run_at = next_run_at;
  last_error = reason;
  updated_at = now;
}

abbrev pub recovered_submission : Option String → Time → SubmissionRow → SubmissionRow
recovered_submission reason now row = record row {
  status = Status.queued;
  error_message = reason;
  judged_at = none;
  updated_at = now;
}

-- `Queries.RecoverDeadJudgeTask`: the parts of the statement read the tables as they were before it.
unfoldable pub recover_dead_task : {P : Type 0} → ℕ → Time → Option String → Tx (Tables P) TaskRow
recover_dead_task id next_run_at reason t =
    let recovered =
      returned (recoverable id t.submissions) (recovered_task next_run_at reason t.now) t.tasks in
    one recovered >>= λ row. ok (
      row,
      record t {
        tasks =
            update (recoverable id t.submissions) (recovered_task next_run_at reason t.now) t.tasks;
        submissions = update (of_any recovered) (recovered_submission reason t.now) t.submissions;
      },
    )

abbrev pub is_stale : Time → List SubmissionRow → TaskRow → Bool
is_stale stale_before submissions task =
    can_stall task.status
    && (before task.updated_at stale_before && has_submission is_open submissions task)

abbrev pub reset_task : Option String → Time → TaskRow → TaskRow
reset_task reason now row = record row {
  status = TaskState.pending;
  next_run_at = now;
  last_error = reason;
  updated_at = now;
}

abbrev pub running_of_any : List TaskRow → SubmissionRow → Bool
running_of_any tasks row = of_any tasks row && is_running row.status

unfoldable pub reset_stale_judge_tasks :
    {P : Type 0} → Time → Option String → Tables P → List TaskRow × Tables P
reset_stale_judge_tasks stale_before reason t =
    let reset = returned (is_stale stale_before t.submissions) (reset_task reason t.now) t.tasks in
    (
      sort (λ a b. ltb a.id b.id) reset,
      record t {
        tasks = update (is_stale stale_before t.submissions) (reset_task reason t.now) t.tasks;
        submissions = update (running_of_any reset) (queued_row reason t.now) t.submissions;
      },
    )
