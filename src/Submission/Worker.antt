-- ===== src/Submission/Worker.antt =====
-- internal/submission/worker.go: what a worker does with a message of the judge queue. The store, the
-- queue and the judge engine are interfaces there and parameters here; their calls pass a state along.
pub mod Acks
use soj.Prelude.{
  ℕ, zero, suc, ◌+◌, Bool, true, false, ◌&&◌, ◌||◌, not, Option, none, some, List, [], ◌∷◌, map,
  String, if◌then◌else◌, ltb,
}
use soj.Prelude.Int.{ℤ, pos, negsuc, leb_ℤ, ltb_ℤ, pos_part}
use soj.AppError.{Result, ok, err, Error, conflict}
use soj.AppError.Step.{Step, resume, ◌then_do◌, return}
use soj.Contest.Types.{Time}
use soj.Judge.Result.{JudgeResult}
use soj.Submission.Status.{Status, is_queued, terminal_status}

pub data TaskStatus : Type 0 where
  pending dispatched running done dead : TaskStatus
  other : String → TaskStatus

abbrev pub is_settled : TaskStatus → Bool
is_settled TaskStatus.done = true
is_settled TaskStatus.dead = true
is_settled _ = false

-- A task is about exactly one of the two: a CHECK constraint of the table `judge_tasks` sees to it.
pub data Subject : Type 0 where
  of_submission of_run : ℕ → Subject

pub record JudgeTask : Type 0 where
  pub id : ℕ
  pub subject : Subject
  pub status : TaskStatus
  pub attempts : ℤ

pub record SubmissionRecord : Type 0 where
  pub id : ℕ
  pub problem_id : ℕ
  pub language_id : ℕ
  pub testcase_set_id : ℕ
  pub status : Status
  pub source_artifact_id : ℕ

pub record LanguageRecord : Type 0 where
  pub id : ℕ
  pub engine_language_id : String
  pub default_time_limit : ℤ
  pub enabled : Bool

pub record Testcase : Type 0 where
  pub input_key : String
  pub output_key : String
  pub time_limit : ℤ
  pub memory_kb : ℤ

-- `judge.Request`, without the fields that judging leaves unset.
pub record JudgeRequest : Type 0 where
  pub language_slug : String
  pub source : String
  pub testcases : List Testcase
  pub timeout : ℤ

pub record Message : Type 0 where
  pub id : String
  pub task_id : ℕ

-- The collaborators of `TaskProcessor` and `TaskFailureHandler`. A reason is kept as the error that
-- the code takes the text of; the records that the writes return are not read.
pub record Collaborators (S : Type 0) : Type 0 where
  pub get_judge_task : ℕ → Step S JudgeTask
  pub get_submission : ℕ → Step S SubmissionRecord
  pub mark_judge_task_done : ℕ → Step S (Unit {0})
  pub mark_judge_task_running : ℕ → Step S (Unit {0})
  pub mark_judge_task_dead : ℕ → Error → Step S (Unit {0})
  pub retry_judge_task : ℕ → Time → Error → Step S (Unit {0})
  pub mark_submission_running : ℕ → Step S (Unit {0})
  pub mark_submission_queued : ℕ → Error → Step S (Unit {0})
  pub get_artifact : ℕ → Step S String
  pub get_source : String → Step S String
  pub get_language : ℕ → Step S LanguageRecord
  pub get_problem_for_judge : ℕ → Step S (Unit {0})
  pub ready_testcase_set : ℕ → ℕ → Step S (List Testcase)
  pub judge : JudgeRequest → Step S JudgeResult
  pub complete_submission_with_result : ℕ → JudgeResult → Step S (Unit {0})
  pub ack : String → Step S (Unit {0})
  pub dead_letter : Message → Error → Step S (Unit {0})
  pub now : Time
  pub max_attempts : ℤ

-- What handling a message returns: the label for the metrics, and the error if there is one.
pub record Reply : Type 0 where
  pub label : String
  pub error : Option Error

abbrev pub Handling : Type 0 → Type 0
Handling S = S → Reply × S

abbrev pub error_of : {A : Type 0} → Result A → Option Error
error_of (ok a) = none
error_of (err e) = some e

-- `if err != nil { return failed(err) }`, else go on.
abbrev pub branch : {S A : Type 0} → Result A → (Error → Handling S) → (A → Handling S) → Handling S
branch (ok a) failed go_on = go_on a
branch (err e) failed go_on = failed e

abbrev pub try_step :
    {S A : Type 0} → Step S A → (Error → Handling S) → (A → Handling S) → Handling S
try_step m failed go_on s = branch (m s).0 failed go_on (m s).1

-- `return "error", err`
abbrev pub give_up : {S : Type 0} → Error → Handling S
give_up e s = (record { label = "error"; error = some e }, s)

-- The item at a position, or the last one.
abbrev pub at_most : ℕ → Time → List Time → Time
at_most i last [] = last
at_most zero last (t ∷ times) = t
at_most (suc i) last (t ∷ times) = at_most i t times

-- 5 s, 30 s, 2 min, 10 min, 30 min.
abbrev pub schedule : List Time
schedule = 5000000000 ∷ 30000000000 ∷ 120000000000 ∷ 600000000000 ∷ 1800000000000 ∷ []

unfoldable pub default_judge_task_backoff : ℤ → Time
default_judge_task_backoff attempts = at_most (pos_part attempts) 0 schedule

-- The error of `requireLanguageEnabled`, as a step that changes nothing.
abbrev pub require_language_enabled : {S : Type 0} → LanguageRecord → Step S (Unit {0})
require_language_enabled language s = (
  (if language.enabled
      then ok tt
      else err (conflict "submission.language_disabled" "language is disabled")),
  s,
)

-- The rest of a loop, unless there is an error.
abbrev pub stop_at :
    {S : Type 0} → Option Error → ℕ → S → (ℕ × Option Error) × S → (ℕ × Option Error) × S
stop_at (some e) processed s rest = ((processed, some e), s)
stop_at none processed s rest = rest

module _ {S : Type 0} (store : Collaborators S) where
  -- `return label, queue.Ack(ctx, message.ID)`
  unfoldable pub ack_as : String → Message → Handling S
  ack_as label message s = (
    record { label = label; error = error_of (store.ack message.id s).0 },
    (store.ack message.id s).1,
  )

  -- `retryOrDead`: both outcomes of the dead letter are acknowledged.
  unfoldable pub retry_or_dead : Message → JudgeTask → ℕ → Error → Handling S
  retry_or_dead message task submission_id cause =
      if leb_ℤ store.max_attempts task.attempts
      then try_step (store.mark_judge_task_dead task.id cause) give_up (λ u.
        try_step (store.dead_letter message cause) (λ e. ack_as "dead" message)
          (λ v. ack_as "dead" message))
      else try_step
          (store.retry_judge_task task.id (store.now + default_judge_task_backoff task.attempts)
            cause)
          give_up
          (λ u.
            try_step (store.mark_submission_queued submission_id cause) give_up
              (λ v. ack_as "retry" message))

  -- `completeSubmission`: a submission that has its verdict keeps it.
  unfoldable pub complete_submission : ℕ → JudgeResult → Step S (Unit {0})
  complete_submission submission_id result = store.get_submission submission_id then_do λ current.
      if terminal_status current.status
      then return tt
      else store.complete_submission_with_result submission_id result

  -- The submission is taken over, if it is still queued.
  unfoldable pub start_submission : SubmissionRecord → Step S (Unit {0})
  start_submission sub =
      if is_queued sub.status then store.mark_submission_running sub.id else return tt

  -- What `processMessage` collects for the engine, and the engine's result.
  unfoldable pub judge_submission : SubmissionRecord → Step S JudgeResult
  judge_submission sub = store.get_artifact sub.source_artifact_id then_do λ storage_key.
      store.get_source storage_key then_do λ source.
      store.get_language sub.language_id then_do λ language.
      require_language_enabled language then_do λ u.
      store.get_problem_for_judge sub.problem_id then_do λ v.
      store.ready_testcase_set sub.problem_id sub.testcase_set_id then_do λ testcases.
      store.judge (record {
        language_slug = language.engine_language_id;
        source = source;
        testcases = testcases;
        timeout = language.default_time_limit;
      })

  -- The part of `processMessage` in which every error is retried.
  unfoldable pub process_submission : Message → JudgeTask → ℕ → SubmissionRecord → Handling S
  process_submission message task id sub =
      let retry = retry_or_dead message task id in
      try_step (start_submission sub) retry (λ u. try_step (judge_submission sub) retry (λ result.
        try_step (complete_submission sub.id result) retry (λ v.
          try_step (store.mark_judge_task_done task.id) give_up (λ w. ack_as "success" message))))

  unfoldable pub process_open_submission : Message → JudgeTask → ℕ → SubmissionRecord → Handling S
  process_open_submission message task id sub =
      if terminal_status sub.status
      then try_step (store.mark_judge_task_done task.id) give_up (λ u. ack_as "skipped" message)
      else try_step (store.mark_judge_task_running task.id) give_up
          (λ u. process_submission message task id sub)

  unfoldable pub process_task : Message → JudgeTask → Subject → Handling S
  process_task message task (Subject.of_run id) = ack_as "skipped" message
  process_task message task (Subject.of_submission id) =
      try_step (store.get_submission id) (retry_or_dead message task id)
        (process_open_submission message task id)

  -- `processMessage`
  unfoldable pub process_message : Message → Handling S
  process_message message = try_step (store.get_judge_task message.task_id) give_up (λ task.
      if is_settled task.status
      then ack_as "skipped" message
      else process_task message task task.subject)

  -- `ConsumeOnce` on the messages that were read: it counts those handled, and stops at an error.
  unfoldable pub process_messages : ℕ → List Message → S → (ℕ × Option Error) × S
  process_messages processed [] s = ((processed, none), s)
  process_messages processed (message ∷ messages) s =
      let rest = process_messages (suc processed) messages (process_message message s).1 in
      stop_at (process_message message s).0.error processed (process_message message s).1 rest
