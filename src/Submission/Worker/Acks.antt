-- ===== src/Submission/Worker/Acks.antt =====
-- internal/submission/worker.go: which messages of the queue are acknowledged.
use soj.Prelude.{
  ℕ, suc, ◌+◌, ◌≡◌, refl, sym, ap, ◌∙◌, List, [], ◌∷◌, arith, Bool-cases, inl, inr, String, Option,
  none, some,
}
use soj.Prelude.Int.{leb_ℤ}
use soj.AppError.{Result, ok, err, Error}
use soj.AppError.Step.{Step, resume, ◌then_do◌}
use soj.Contest.Types.{Time}
use soj.Judge.Result.{JudgeResult}
use soj.Submission.Status.{terminal_status, is_queued}
use soj.Submission.Worker.{
  JudgeTask, Subject, SubmissionRecord, JudgeRequest, Message, Collaborators, Handling, error_of,
  branch, try_step, give_up, is_settled, require_language_enabled, ack_as, retry_or_dead,
  complete_submission, start_submission, judge_submission, process_submission,
  process_open_submission, process_task, process_message, process_messages, stop_at,
}

-- One for a call that went well.
abbrev pub succeeded : {A : Type 0} → Result A → ℕ
succeeded (ok a) = 1
succeeded (err e) = 0

abbrev pub settled : Option Error → ℕ
settled none = 1
settled (some e) = 0

abbrev pub Keeps : {S A : Type 0} → (S → ℕ) → Step S A → Type 0
Keeps {S = S} acked m = (s : S) → acked (m s).1 ≡ acked s

-- What the worker relies on: `Ack` acknowledges one message when it succeeds and none when it fails,
-- and no other call acknowledges any.
pub record CountsAcks {S : Type 0} (store : Collaborators S) (acked : S → ℕ) : Type 0 where
  pub ack_counts :
      (id : String) (s : S) → acked (store.ack id s).1 ≡ acked s + succeeded (store.ack id s).0
  pub get_judge_task_keeps : (id : ℕ) → Keeps acked (store.get_judge_task id)
  pub get_submission_keeps : (id : ℕ) → Keeps acked (store.get_submission id)
  pub mark_judge_task_done_keeps : (id : ℕ) → Keeps acked (store.mark_judge_task_done id)
  pub mark_judge_task_running_keeps : (id : ℕ) → Keeps acked (store.mark_judge_task_running id)
  pub mark_judge_task_dead_keeps :
      (id : ℕ) (e : Error) → Keeps acked (store.mark_judge_task_dead id e)
  pub retry_judge_task_keeps :
      (id : ℕ) (t : Time) (e : Error) → Keeps acked (store.retry_judge_task id t e)
  pub mark_submission_running_keeps : (id : ℕ) → Keeps acked (store.mark_submission_running id)
  pub mark_submission_queued_keeps :
      (id : ℕ) (e : Error) → Keeps acked (store.mark_submission_queued id e)
  pub get_artifact_keeps : (id : ℕ) → Keeps acked (store.get_artifact id)
  pub get_source_keeps : (key : String) → Keeps acked (store.get_source key)
  pub get_language_keeps : (id : ℕ) → Keeps acked (store.get_language id)
  pub get_problem_for_judge_keeps : (id : ℕ) → Keeps acked (store.get_problem_for_judge id)
  pub ready_testcase_set_keeps :
      (problem set : ℕ) → Keeps acked (store.ready_testcase_set problem set)
  pub judge_keeps : (request : JudgeRequest) → Keeps acked (store.judge request)
  pub complete_submission_with_result_keeps :
      (id : ℕ) (result : JudgeResult)
      → Keeps acked (store.complete_submission_with_result id result)
  pub dead_letter_keeps :
      (message : Message) (e : Error) → Keeps acked (store.dead_letter message e)

-- A handling that acknowledges one message if it returns no error, and none if it returns one.
abbrev pub AcksOnce : {S : Type 0} → (S → ℕ) → Handling S → Type 0
AcksOnce {S = S} acked h = (s : S) → acked (h s).1 ≡ acked s + settled (h s).0.error

branch-AcksOnce :
    {S A : Type 0} (acked : S → ℕ) (r : Result A) (failed : Error → Handling S)
    (go_on : A → Handling S)
    → ((e : Error) → AcksOnce acked (failed e))
    → ((a : A) → AcksOnce acked (go_on a))
    → AcksOnce acked (branch r failed go_on)
branch-AcksOnce acked (ok a) failed go_on on_error on_value = on_value a
branch-AcksOnce acked (err e) failed go_on on_error on_value = on_error e

try_step-AcksOnce :
    {S A : Type 0} (acked : S → ℕ) (m : Step S A) (failed : Error → Handling S)
    (go_on : A → Handling S)
    → Keeps acked m
    → ((e : Error) → AcksOnce acked (failed e))
    → ((a : A) → AcksOnce acked (go_on a))
    → AcksOnce acked (try_step m failed go_on)
try_step-AcksOnce acked m failed go_on keeps on_error on_value s =
    omega (arith, branch-AcksOnce acked (m s).0 failed go_on on_error on_value (m s).1, keeps s)

give_up-AcksOnce : {S : Type 0} (acked : S → ℕ) (e : Error) → AcksOnce acked (give_up e)
give_up-AcksOnce acked e s = omega arith

resume-Keeps :
    {S A B : Type 0} (acked : S → ℕ) (r : Result A) (s : S) (f : A → Step S B)
    → ((a : A) → Keeps acked (f a))
    → acked (resume r s f).1 ≡ acked s
resume-Keeps acked (ok a) s f keeps = keeps a s
resume-Keeps acked (err e) s f keeps = refl

then_do-Keeps :
    {S A B : Type 0} (acked : S → ℕ) (m : Step S A) (f : A → Step S B)
    → Keeps acked m
    → ((a : A) → Keeps acked (f a))
    → Keeps acked (m then_do f)
then_do-Keeps acked m f first rest s = resume-Keeps acked (m s).0 (m s).1 f rest ∙ first s

settled-error_of : {A : Type 0} (r : Result A) → settled (error_of r) ≡ succeeded r
settled-error_of (ok a) = refl
settled-error_of (err e) = refl

module _ {S : Type 0} (store : Collaborators S) (acked : S → ℕ)
    (laws : CountsAcks store acked) where
  ack_as-AcksOnce :
      (label : String) (message : Message) → AcksOnce acked (ack_as store label message)
  unfolding ack_as
  ack_as-AcksOnce label message s =
      laws.ack_counts message.id s
      ∙ ap (λ n. acked s + n) (sym (settled-error_of (store.ack message.id s).0))

  retry_or_dead-AcksOnce :
      (message : Message) (task : JudgeTask) (id : ℕ) (cause : Error)
      → AcksOnce acked (retry_or_dead store message task id cause)
  unfolding retry_or_dead
  retry_or_dead-AcksOnce message task id cause s =
      elim (Bool-cases (leb_ℤ store.max_attempts task.attempts)) [
        | inl e ↦ rw e (
            try_step-AcksOnce acked (store.mark_judge_task_dead task.id cause) give_up _
              (laws.mark_judge_task_dead_keeps task.id cause) (give_up-AcksOnce acked)
              (λ u.
                try_step-AcksOnce acked (store.dead_letter message cause) _ _
                  (laws.dead_letter_keeps message cause) (λ f. ack_as-AcksOnce "dead" message)
                  (λ v. ack_as-AcksOnce "dead" message))
              s)
        | inr e ↦ rw e (
            try_step-AcksOnce acked (store.retry_judge_task task.id _ cause) give_up _
              (laws.retry_judge_task_keeps task.id _ cause) (give_up-AcksOnce acked)
              (λ u.
                try_step-AcksOnce acked (store.mark_submission_queued id cause) give_up _
                  (laws.mark_submission_queued_keeps id cause) (give_up-AcksOnce acked)
                  (λ v. ack_as-AcksOnce "retry" message))
              s)
      ]

  complete_submission-Keeps :
      (id : ℕ) (result : JudgeResult) → Keeps acked (complete_submission store id result)
  unfolding complete_submission
  complete_submission-Keeps id result =
      then_do-Keeps acked (store.get_submission id) _ (laws.get_submission_keeps id) (λ current s.
        elim (Bool-cases (terminal_status current.status)) [
          | inl e ↦ rw e refl
          | inr e ↦ rw e (laws.complete_submission_with_result_keeps id result s)
        ])

  start_submission-Keeps : (sub : SubmissionRecord) → Keeps acked (start_submission store sub)
  unfolding start_submission
  start_submission-Keeps sub s = elim (Bool-cases (is_queued sub.status)) [
    | inl e ↦ rw e (laws.mark_submission_running_keeps sub.id s)
    | inr e ↦ rw e refl
  ]

  judge_submission-Keeps : (sub : SubmissionRecord) → Keeps acked (judge_submission store sub)
  unfolding judge_submission
  judge_submission-Keeps sub =
      then_do-Keeps acked (store.get_artifact sub.source_artifact_id) _
        (laws.get_artifact_keeps sub.source_artifact_id)
        λ key. then_do-Keeps acked (store.get_source key) _ (laws.get_source_keeps key) λ source.
          then_do-Keeps acked (store.get_language sub.language_id) _
            (laws.get_language_keeps sub.language_id)
            λ language.
              then_do-Keeps acked (require_language_enabled language) _ (λ s. refl)
                λ u.
                  then_do-Keeps acked (store.get_problem_for_judge sub.problem_id) _
                    (laws.get_problem_for_judge_keeps sub.problem_id)
                    λ v.
                      then_do-Keeps acked
                        (store.ready_testcase_set sub.problem_id sub.testcase_set_id) _
                        (laws.ready_testcase_set_keeps sub.problem_id sub.testcase_set_id)
                        λ testcases. laws.judge_keeps _

  process_submission-AcksOnce :
      (message : Message) (task : JudgeTask) (id : ℕ) (sub : SubmissionRecord)
      → AcksOnce acked (process_submission store message task id sub)
  unfolding process_submission
  process_submission-AcksOnce message task id sub =
      let retry = retry_or_dead-AcksOnce message task id in
      try_step-AcksOnce acked (start_submission store sub) _ _ (start_submission-Keeps sub) retry
        λ u.
          try_step-AcksOnce acked (judge_submission store sub) _ _ (judge_submission-Keeps sub)
            retry
            λ result.
              try_step-AcksOnce acked (complete_submission store sub.id result) _ _
                (complete_submission-Keeps sub.id result) retry
                λ v.
                  try_step-AcksOnce acked (store.mark_judge_task_done task.id) give_up _
                    (laws.mark_judge_task_done_keeps task.id) (give_up-AcksOnce acked)
                    λ w. ack_as-AcksOnce "success" message

  process_open_submission-AcksOnce :
      (message : Message) (task : JudgeTask) (id : ℕ) (sub : SubmissionRecord)
      → AcksOnce acked (process_open_submission store message task id sub)
  unfolding process_open_submission
  process_open_submission-AcksOnce message task id sub s =
      elim (Bool-cases (terminal_status sub.status)) [
        | inl e ↦ rw e (
            try_step-AcksOnce acked (store.mark_judge_task_done task.id) give_up _
              (laws.mark_judge_task_done_keeps task.id) (give_up-AcksOnce acked)
              (λ w. ack_as-AcksOnce "skipped" message) s)
        | inr e ↦ rw e (
            try_step-AcksOnce acked (store.mark_judge_task_running task.id) give_up _
              (laws.mark_judge_task_running_keeps task.id) (give_up-AcksOnce acked)
              (λ w. process_submission-AcksOnce message task id sub) s)
      ]

  process_task-AcksOnce :
      (message : Message) (task : JudgeTask) (subject : Subject)
      → AcksOnce acked (process_task store message task subject)
  unfolding process_task
  process_task-AcksOnce message task (Subject.of_run id) = ack_as-AcksOnce "skipped" message
  process_task-AcksOnce message task (Subject.of_submission id) =
      try_step-AcksOnce acked (store.get_submission id) _ _ (laws.get_submission_keeps id)
        (retry_or_dead-AcksOnce message task id) (process_open_submission-AcksOnce message task id)

  -- Whatever happens to a message, it is acknowledged exactly once if its handling returns no error,
  -- and not at all, so that the queue delivers it again, if the handling returns one.
  pub process_message-acked :
      (message : Message) (s : S)
      → acked (process_message store message s).1
        ≡ acked s + settled (process_message store message s).0.error
  unfolding process_message
  process_message-acked message =
      try_step-AcksOnce acked (store.get_judge_task message.task_id) give_up _
        (laws.get_judge_task_keeps message.task_id) (give_up-AcksOnce acked)
        (λ task s. elim (Bool-cases (is_settled task.status)) [
          | inl e ↦ rw e (ack_as-AcksOnce "skipped" message s)
          | inr e ↦ rw e (process_task-AcksOnce message task task.subject s)
        ])

  stop_at-acked :
      (failure : Option Error) (processed before : ℕ) (t : S) (rest : (ℕ × Option Error) × S)
      → acked t ≡ before + settled failure
      → acked rest.1 + suc processed ≡ acked t + rest.0.0
      → acked (stop_at failure processed t rest).1 + processed
        ≡ before + (stop_at failure processed t rest).0.0
  stop_at-acked none processed before t rest handled counted = omega arith
  stop_at-acked (some e) processed before t rest handled counted = omega arith

  -- A batch of messages acknowledges as many of them as it reports to have processed.
  pub process_messages-acked :
      (processed : ℕ) (messages : List Message) (s : S)
      → acked (process_messages store processed messages s).1 + processed
        ≡ acked s + (process_messages store processed messages s).0.0
  unfolding process_messages
  process_messages-acked processed [] s = refl
  process_messages-acked processed (message ∷ messages) s =
      let handled = process_message store message s in
      let rest = process_messages store (suc processed) messages handled.1 in
      stop_at-acked handled.0.error processed (acked s) handled.1 rest
        (process_message-acked message s)
        (process_messages-acked (suc processed) messages handled.1)
