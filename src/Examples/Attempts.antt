-- ===== src/Examples/Attempts.antt =====
-- EnsureJudgeAttempt of internal/submission/judge_repository.go at concrete inputs.
use soj.Prelude.{ℕ, ◌+◌, ◌≡◌, refl, Option, none, some, [], ◌∷◌, ◌++◌, arith, length}
use soj.AppError.{ok}
use soj.Submission.Tables.{AttemptRow, Tables}
use soj.Submission.Repository.Attempts.{
  EnsureJudgeAttemptInput, QueuedItem, ItemStore, new_attempt, latest_attempt_for_subject,
  create_attempt, follow_attempt, ensure_for_task, ensure_from, ensure_judge_attempt,
}
use soj.Submission.Lifecycle.Reuse.{HasSubject, ensure_twice}
use soj.Examples.Tasks.{finished}

abbrev items : Option QueuedItem → ItemStore ℕ
items item = record {
  queued_item = λ task p. ok item;
  start_item = λ item attempt p. ok (p + 1);
  refresh_progress = λ batch p. ok p;
  next_id = λ attempts. length attempts + 9;
}

abbrev input : EnsureJudgeAttemptInput
input = record {
  attempt_id = none;
  submission_id = some 7;
  run_id = none;
  task_id = 1;
  language_id = 1;
  started_at = 50;
}

-- The attempt after the one that is judged.
abbrev second_attempt : AttemptRow
second_attempt = new_attempt (items none) input 2 none finished

abbrev with_second : Tables ℕ
with_second = record finished { attempts = finished.attempts ++ (second_attempt ∷ []) }

subject : HasSubject (items none) input
unfolding latest_attempt_for_subject
subject attempts = refl

ensure_twice_example :
    ensure_judge_attempt (items none) input with_second ≡ ok (second_attempt, with_second)
unfolding ensure_judge_attempt ensure_from ensure_for_task latest_attempt_for_subject follow_attempt
    create_attempt
ensure_twice_example =
    ensure_twice (items none) input finished with_second second_attempt subject (omega arith)
      (omega arith) refl refl refl
