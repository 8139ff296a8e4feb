-- ===== src/Submission/Tables/Attempts.antt =====
-- internal/postgres/db/submissions.sql.go: the statements that end a run, an attempt and a result.
use soj.Prelude.{
  ℕ, Bool, ◌&&◌, ◌||◌, Option, some, List, [], ◌∷◌, filter, any, String, if◌then◌else◌, ◌==◌, ◌++◌,
}
use soj.Prelude.Int.{ℤ, pos}
use soj.AppError.{ok, ◌>>=◌}
use soj.Contest.Types.{Time, before}
use soj.Submission.Status.{Status, is_queued}
use soj.Submission.Tables.{
  RunRow, AttemptRow, ResultRow, Tables, Tx, one, update, returned, coalesce,
}
use soj.Submission.Tables.Submissions.{is_running, is_open, stamp, stamp_if_terminal}

abbrev pub run_in : ℕ → (Status → Bool) → RunRow → Bool
run_in id admits row = (row.id == id) && admits row.status

abbrev pub update_run : {P : Type 0} → (RunRow → Bool) → (RunRow → RunRow) → Tx (Tables P) RunRow
update_run p f t =
    one (returned p f t.runs) >>= λ row. ok (row, record t { runs = update p f t.runs })

abbrev pub lock_run_by_id : {P : Type 0} → ℕ → Tx (Tables P) RunRow
lock_run_by_id id t = one (filter (λ row. row.id == id) t.runs) >>= λ row. ok (row, t)

abbrev pub started_run : Time → RunRow → RunRow
started_run now row = record row { status = Status.running; updated_at = now }

unfoldable pub mark_run_running : {P : Type 0} → ℕ → Tx (Tables P) RunRow
mark_run_running id t = update_run (run_in id is_queued) (started_run t.now) t

pub record UpdateRunStatusParams : Type 0 where
  pub status : Status
  pub stdout : Option String
  pub stderr : Option String
  pub compile_output : Option String
  pub time_ms : Option ℤ
  pub memory_kb : Option ℤ
  pub error_message : Option String
  pub id : ℕ

abbrev pub finished_run : UpdateRunStatusParams → Time → RunRow → RunRow
finished_run arg now row = record row {
  status = arg.status;
  stdout = arg.stdout;
  stderr = arg.stderr;
  compile_output = arg.compile_output;
  time_ms = arg.time_ms;
  memory_kb = arg.memory_kb;
  error_message = arg.error_message;
  finished_at = stamp_if_terminal arg.status now row.finished_at;
  updated_at = now;
}

unfoldable pub update_run_status : {P : Type 0} → UpdateRunStatusParams → Tx (Tables P) RunRow
update_run_status arg t = update_run (run_in arg.id is_open) (finished_run arg t.now) t

abbrev pub stale_run : Time → RunRow → Bool
stale_run stale_before row =
    (is_queued row.status || is_running row.status) && before row.updated_at stale_before

abbrev pub failed_run : Option String → Time → RunRow → RunRow
failed_run reason now row = record row {
  status = Status.system_err;
  error_message = reason;
  finished_at = stamp now row.finished_at;
  updated_at = now;
}

unfoldable pub mark_stale_runs_system_error :
    {P : Type 0} → Time → Option String → Tables P → List RunRow × Tables P
mark_stale_runs_system_error stale_before reason t = (
  returned (stale_run stale_before) (failed_run reason t.now) t.runs,
  record t { runs = update (stale_run stale_before) (failed_run reason t.now) t.runs },
)

-- `GetJudgeAttemptByID` and `LockJudgeAttemptByID`
abbrev pub get_judge_attempt_by_id : {P : Type 0} → ℕ → Tx (Tables P) AttemptRow
get_judge_attempt_by_id id t = one (filter (λ row. row.id == id) t.attempts) >>= λ row. ok (row, t)

pub record MarkJudgeAttemptFinishedParams : Type 0 where
  pub id : ℕ
  pub status : Status
  pub verdict : Option Status
  pub time_ms : Option ℤ
  pub memory_kb : Option ℤ
  pub error_message : Option String
  pub finished_at : Option Time

abbrev pub finished_attempt : MarkJudgeAttemptFinishedParams → Time → AttemptRow → AttemptRow
finished_attempt arg now row = record row {
  status = arg.status;
  verdict = arg.verdict;
  time_ms = arg.time_ms;
  memory_kb = arg.memory_kb;
  error_message = arg.error_message;
  finished_at = some (coalesce arg.finished_at (coalesce row.finished_at now));
  updated_at = now;
}

unfoldable pub mark_judge_attempt_finished :
    {P : Type 0} → MarkJudgeAttemptFinishedParams → Tx (Tables P) AttemptRow
mark_judge_attempt_finished arg t =
    one (returned (λ row. row.id == arg.id) (finished_attempt arg t.now) t.attempts) >>= λ row. ok (
      row,
      record t { attempts = update (λ a. a.id == arg.id) (finished_attempt arg t.now) t.attempts },
    )

-- `ON CONFLICT (submission_id) DO UPDATE`: the score stays, or is the column's default, 0.
abbrev pub overwritten : ResultRow → ResultRow → ResultRow
overwritten new old = record new { score = old.score }

unfoldable pub upsert_submission_result : {P : Type 0} → ResultRow → Tables P → Tables P
upsert_submission_result new t =
    if any (λ row. row.submission_id == new.submission_id) t.results
    then record t {
      results = update (λ row. row.submission_id == new.submission_id) (overwritten new) t.results;
    }
    else record t { results = t.results ++ (record new { score = pos 0 } ∷ []) }
