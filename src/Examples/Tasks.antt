-- ===== src/Examples/Tasks.antt =====
-- The tables of internal/submission at work on one submission and one run.
use soj.Prelude.{
  ℕ, ◌≡◌, ◌≢◌, refl, ap, inl, inr, ◌≤◌, length, Bool, true, false, none, some, List, [], ◌∷◌, arith,
  ◌==◌, ◌+◌, ◌∙◌, sym,
}
use soj.Prelude.Sort.{sort}
use soj.Prelude.Int.{pos}
use soj.AppError.{ok, is_ok}
use soj.Judge.Verdict.{Verdict}
use soj.Judge.Result.{judged}
use soj.Submission.Status.{Status, terminal_status}
use soj.Submission.Tables.{
  TaskState, TaskRow, SubmissionRow, AttemptRow, ResultRow, Tables, refers, is_null,
}
use soj.Submission.Tables.Rows.{In}
use soj.Submission.Tables.Tasks.{
  is_settled, claim_tasks, due_submission, due_run, claim_pending_judge_tasks,
  prepare_judge_task_for_rejudge, cancel_pending_judge_task_for_rejudge, claimed, prepared_row,
  canceled_row, dispatching_row, dispatched_row, mark_judge_task_done,
}
use soj.Submission.Tables.Submissions.{
  update_submission_status, prepare_submission_for_rejudge,
  restore_submission_after_canceled_rejudge, rejudged_row, restored_row, queued_row, reset_task,
  reset_stale_judge_tasks,
}
use soj.Submission.Repository.{Ledgers, mark_judge_task_dead, recover_dead_judge_task}
use soj.Submission.Lifecycle.Refusals.{run_refused}
use soj.Submission.Lifecycle.Machine.{Label, Edge}
use soj.Submission.Lifecycle.Steps.{act-Traced}
use soj.Submission.Lifecycle.Histories.{Action, IsAllowed, act, act_all, act_all-IsConsistent}
use soj.Submission.Repository.Complete.{
  CompleteJudgeAttemptResultInput, complete_judge_attempt_result, complete_attempt, lock_task_of,
  complete_subject, complete_submission_attempt, complete_open_submission, write_result,
  finish_judge_attempt, finish_task, finish_item,
}
use soj.Submission.Tables.Attempts.{mark_judge_attempt_finished}
use soj.Submission.Repository.Rejudge.{Batches, prepare_target, cancel_item}
use soj.Submission.Lifecycle.{IsConsistent}
use soj.Submission.Lifecycle.Requests.{Request, perform}
use soj.Submission.Lifecycle.Once.{stored_once}
use soj.Submission.Lifecycle.Verdicts.{verdict_final}
use soj.Submission.Lifecycle.Claims.{length-claim_tasks, claimed_once}
use soj.Submission.Lifecycle.Stale.{reset_reclaimed, reset_leaves_runs}
use soj.Submission.Lifecycle.Canceled.{canceled_rejudge}

abbrev pub no_ledgers : Ledgers ℕ (Unit {0})
no_ledgers = record {
  lock_contest_problem_projection = λ row p. ok (tt, p);
  enabled = λ l. true;
  rebuild_contest_problem_result = λ t row l. ok t.others;
  fail_active_rejudge_item = λ task reason p. ok p;
  finish_rejudge_item = λ attempt p. ok p;
  create_case_results = λ attempt cases p. ok (p + length cases);
}

abbrev submission_task : TaskState → TaskRow
submission_task status = record {
  id = 1;
  submission_id = some 7;
  stream_id = none;
  status = status;
  attempts = 0;
  next_run_at = 5;
  last_error = none;
  created_at = 1;
  updated_at = 10;
  run_id = none;
}

abbrev run_task : TaskState → TaskRow
run_task status = record {
  id = 2;
  submission_id = none;
  stream_id = none;
  status = status;
  attempts = 0;
  next_run_at = 5;
  last_error = none;
  created_at = 1;
  updated_at = 10;
  run_id = some 3;
}

abbrev submission_seven : Status → SubmissionRow
submission_seven status = record {
  id = 7;
  user_id = 1;
  problem_id = 1;
  contest_id = none;
  language_id = 1;
  testcase_set_id = 1;
  status = status;
  source_artifact_id = none;
  time_ms = none;
  memory_kb = none;
  score = pos 0;
  error_message = none;
  submitted_at = 1;
  judged_at = none;
  first_judged_at = none;
  updated_at = 10;
}

abbrev pub first_attempt : Status → AttemptRow
first_attempt status = record {
  id = 4;
  submission_id = some 7;
  run_id = none;
  task_id = some 1;
  rejudge_batch_id = none;
  attempt_no = 1;
  language_id = 1;
  status = status;
  verdict = none;
  time_ms = none;
  memory_kb = none;
  error_message = none;
  started_at = none;
  finished_at = none;
  updated_at = 10;
}

-- The submission with its task and its attempt, and a task of a run.
abbrev tables : TaskState → TaskState → Status → Status → List ResultRow → Tables ℕ
tables task run submission attempt results = record {
  tasks = submission_task task ∷ run_task run ∷ [];
  submissions = submission_seven submission ∷ [];
  runs = [];
  attempts = first_attempt attempt ∷ [];
  results = results;
  others = 0;
  now = 100;
}

-- Consistent, whatever the statuses, as long as a settled task has a judged submission.
module _ (task run : TaskState) (submission attempt : Status) (results : List ResultRow)
    (all_judged : (r : ResultRow) → In r results → terminal_status r.status ≡ true)
    (settles : is_settled task ≡ true → terminal_status submission ≡ true) where
  tables_settled :
      (j : TaskRow) (s : SubmissionRow)
      → In j (tables task run submission attempt results).tasks
      → In s (tables task run submission attempt results).submissions
      → refers j.submission_id s.id ≡ true
      → is_settled j.status ≡ true
      → terminal_status s.status ≡ true
  tables_settled j s (inl e) (inl f) r d =
      ap (λ (x : SubmissionRow). terminal_status x.status) f
      ∙ settles (sym (ap (λ (x : TaskRow). is_settled x.status) e) ∙ d)
  tables_settled j s (inl e) (inr n) r d = absurd n
  tables_settled j s (inr (inl e)) (inr n) r d = absurd n
  tables_settled j s (inr (inr n)) k r d = absurd n
  tables_settled j s (inr (inl e)) (inl f) r d =
      absurd (ground (arith, ap (λ (x : TaskRow). refers x.submission_id s.id) e, r))

  tables_linked :
      (a : AttemptRow) (j : TaskRow)
      → In a (tables task run submission attempt results).attempts
      → In j (tables task run submission attempt results).tasks
      → refers a.task_id j.id ≡ true
      → j.submission_id ≡ a.submission_id
  tables_linked a j (inl e) (inl f) r =
      ap (λ (x : TaskRow). x.submission_id) f ∙ sym (ap (λ (x : AttemptRow). x.submission_id) e)
  tables_linked a j (inl e) (inr (inr n)) r = absurd n
  tables_linked a j (inr n) k r = absurd n
  tables_linked a j (inl e) (inr (inl f)) r = absurd (
      ground (
        arith,
        ap (λ (x : AttemptRow). refers x.task_id j.id) e,
        ap (λ (x : TaskRow). refers (some 1) x.id) f,
        r,
      ))

  tables-IsConsistent : IsConsistent (tables task run submission attempt results)
  tables-IsConsistent = record {
    task_key = λ k. ground arith;
    subject_key = λ k. ground arith;
    submission_key = λ k. ground arith;
    attempt_key = λ k. ground arith;
    settled = tables_settled;
    judged = all_judged;
    one_subject = λ a i n. one_of a i n;
    of_task = tables_linked;
  }
    where
      one_of :
          (a : AttemptRow)
          → In a (tables task run submission attempt results).attempts
          → is_null a.run_id ≡ false
          → a.submission_id ≡ none
      one_of a (inr m) n = absurd m
      one_of a (inl e) n = absurd (ground (arith, ap (λ (x : AttemptRow). is_null x.run_id) e, n))

-- The task runs and the submission with it.
abbrev pub started : Tables ℕ
started = tables TaskState.running TaskState.running Status.running (Status.other "created") []

started-IsConsistent : IsConsistent started
started-IsConsistent =
    tables-IsConsistent TaskState.running TaskState.running Status.running (Status.other "created")
      [] (λ r i. absurd i) (λ e. absurd (ground (arith, e)))

abbrev accepted_result : ResultRow
accepted_result = record {
  submission_id = 7;
  attempt_id = 4;
  status = Status.accepted;
  score = pos 0;
  time_ms = none;
  memory_kb = none;
  updated_at = 20;
}

-- The submission is accepted.
abbrev pub finished : Tables ℕ
finished =
    tables TaskState.done TaskState.running Status.accepted Status.accepted (accepted_result ∷ [])

finished-IsConsistent : IsConsistent finished
finished-IsConsistent =
    tables-IsConsistent TaskState.done TaskState.running Status.accepted Status.accepted
      (accepted_result ∷ []) only (λ e. refl)
  where
    only : (r : ResultRow) → In r (accepted_result ∷ []) → terminal_status r.status ≡ true
    only r (inl e) = ap (λ (x : ResultRow). terminal_status x.status) e
    only r (inr n) = absurd n

finished_judged : IsAllowed (Action.mark_done 1) finished
finished_judged j s i (inl e) q r = ap (λ (x : SubmissionRow). terminal_status x.status) e
finished_judged j s i (inr n) q r = absurd n

abbrev pub verdict : Verdict → CompleteJudgeAttemptResultInput
verdict v = record { status = v; result = judged v 0 }

abbrev no_batches : Batches ℕ
no_batches = record {
  create_batch = λ n p. ok (1, p);
  create_item = λ batch submission task p. ok p;
}

-- The task goes back to the queue, is claimed and published again, is judged and marked done.
abbrev busy_day : List Action
busy_day =
    Action.request (Request.reset_stale_tasks 50 none)
    ∷ Action.request (Request.claim_judge_tasks (λ id. false) 10)
    ∷ Action.request (Request.mark_dispatched 1 (some "1-0"))
    ∷ Action.request (Request.complete 4 (verdict Verdict.accepted))
    ∷ Action.request (Request.mark_dead 1 "late")
    ∷ []

act_all-IsConsistent_example :
    IsConsistent (act_all no_ledgers no_batches (Action.mark_done 1 ∷ busy_day) finished)
act_all-IsConsistent_example =
    act_all-IsConsistent no_ledgers no_batches (Action.mark_done 1 ∷ busy_day) finished
      finished-IsConsistent (finished_judged, (tt, (tt, (tt, (tt, (tt, tt))))))

-- The task and the submission after the first three requests.
abbrev dispatched_task : TaskRow
dispatched_task =
    dispatched_row (some "1-0") 100
      (dispatching_row 100 (reset_task none 100 (submission_task TaskState.running)))

abbrev queued_submission : SubmissionRow
queued_submission = queued_row none 100 (submission_seven Status.running)

stored_once_example :
    let u = (complete_judge_attempt_result no_ledgers (verdict Verdict.accepted) 4 started).1 in
    ((complete_judge_attempt_result no_ledgers (verdict Verdict.wrong_answer) 4 u).0 ≢ ok true)
    × ((complete_judge_attempt_result no_ledgers (verdict Verdict.wrong_answer) 4 u).1 ≡ u)
unfolding complete_judge_attempt_result complete_attempt lock_task_of complete_subject
    complete_submission_attempt complete_open_submission update_submission_status write_result
    finish_judge_attempt mark_judge_attempt_finished finish_task mark_judge_task_done finish_item
stored_once_example =
    stored_once no_ledgers started 4 (verdict Verdict.accepted) (verdict Verdict.wrong_answer) refl

verdict_final_example :
    In
      (submission_seven Status.accepted)
      (act_all no_ledgers no_batches (Action.mark_done 1 ∷ busy_day) finished).submissions
verdict_final_example =
    verdict_final no_ledgers no_batches (Action.mark_done 1 ∷ busy_day) finished
      (submission_seven Status.accepted) finished-IsConsistent
      (finished_judged, (tt, (tt, (tt, (tt, (tt, tt))))))
      (refl, (refl, (refl, (refl, (refl, (refl, tt)))))) (inl refl) refl refl

waiting-IsConsistent :
    IsConsistent (tables TaskState.pending TaskState.pending Status.queued Status.queued [])
waiting-IsConsistent =
    tables-IsConsistent TaskState.pending TaskState.pending Status.queued Status.queued []
      (λ r i. absurd i) (λ e. absurd (ground (arith, e)))

-- The tables before the task is claimed.
abbrev waiting : Tables ℕ
waiting = tables TaskState.pending TaskState.pending Status.queued Status.queued []

abbrev nobody : ℕ → Bool
nobody id = false

length-claim_tasks_example : length (claim_tasks nobody (due_submission 100) 1 waiting).0 ≤ 1
length-claim_tasks_example =
    length-claim_tasks (due_submission 100) nobody waiting 1 waiting-IsConsistent

reset_reclaimed_example :
    In
      (dispatching_row 100 (reset_task none 100 (submission_task TaskState.running)))
      (claim_pending_judge_tasks nobody 2 (reset_stale_judge_tasks 50 none started).1).0
reset_reclaimed_example =
    reset_reclaimed started 50 none nobody 2 (submission_task TaskState.running) (inl refl) refl
      (omega arith) refl

reset_leaves_runs_example :
    In (run_task TaskState.running) (reset_stale_judge_tasks 50 none started).1.tasks
reset_leaves_runs_example =
    reset_leaves_runs started 50 none (run_task TaskState.running) (inr (inl refl)) refl

claimed_once_example : (1 == 2) ≡ false
unfolding claim_tasks claimed sort
claimed_once_example =
    claimed_once (due_submission 100) (due_run 100) nobody nobody waiting 1 1 waiting-IsConsistent
      (dispatching_row 100 (submission_task TaskState.pending))
      (dispatching_row 100 (run_task TaskState.pending)) (inl refl) (inl refl)

abbrev restored : SubmissionRow
restored = restored_row accepted_result 100 (rejudged_row 100 (submission_seven Status.accepted))

-- The tables after a rejudge of the submission was created and canceled.
abbrev canceled : Tables ℕ
canceled = record finished {
  tasks =
      canceled_row (some "no") 100 (prepared_row 9 100 (submission_task TaskState.done))
      ∷ run_task TaskState.running
      ∷ [];
  submissions = restored ∷ [];
}

accepted_only :
    (r : ResultRow)
    → In r (accepted_result ∷ [])
    → (r.submission_id == 7) ≡ true
    → r.status ≡ Status.accepted
accepted_only r (inl e) f = ap (λ (x : ResultRow). x.status) e
accepted_only r (inr n) f = absurd n

canceled_rejudge_example : restored.status ≡ Status.accepted
unfolding prepare_target prepare_judge_task_for_rejudge prepare_submission_for_rejudge cancel_item
    cancel_pending_judge_task_for_rejudge restore_submission_after_canceled_rejudge
canceled_rejudge_example =
    canceled_rejudge no_ledgers no_batches finished finished-IsConsistent
      (submission_seven Status.accepted) (submission_task TaskState.done) (inl refl) refl 1 9 "no"
      canceled accepted_only refl restored (inl refl) refl

act-Traced_example :
    (j : TaskRow) × In j waiting.tasks
    × (1 ≡ j.id)
    × Edge Label.claiming j.status TaskState.dispatching
unfolding act perform claim_pending_judge_tasks claim_tasks claimed sort
act-Traced_example =
    act-Traced no_ledgers no_batches (Action.request (Request.claim_judge_tasks nobody 10)) waiting
      (dispatching_row 100 (submission_task TaskState.pending)) (inl refl)

only_run : (j : TaskRow) → In j started.tasks → (j.id == 2) ≡ true → j.submission_id ≡ none
only_run j (inl e) q = absurd (ground (arith, ap (λ (x : TaskRow). x.id) e, q))
only_run j (inr (inl e)) q = ap (λ (x : TaskRow). x.submission_id) e
only_run j (inr (inr n)) q = absurd n

run_refused_example :
    (is_ok (mark_judge_task_dead no_ledgers 2 "late" started).0 ≡ false)
    × ((mark_judge_task_dead no_ledgers 2 "late" started).1 ≡ started)
    × (is_ok (recover_dead_judge_task no_ledgers 2 9 "late" started).0 ≡ false)
    × ((recover_dead_judge_task no_ledgers 2 9 "late" started).1 ≡ started)
run_refused_example = run_refused no_ledgers started 2 9 "late" only_run
