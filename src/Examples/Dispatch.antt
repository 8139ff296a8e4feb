-- ===== src/Examples/Dispatch.antt =====
-- The dispatcher of internal/submission/worker.go at work on two tasks.
use soj.Prelude.{ℕ, zero, suc, ◌+◌, ◌≡◌, refl, none, some, [], ◌∷◌, arith}
use soj.Prelude.Int.{pos}
use soj.AppError.{ok, err, plain}
use soj.AppError.Step.{Step}
use soj.Submission.Worker.{JudgeTask, TaskStatus, Subject, stop_at}
use soj.Submission.Worker.Acks.{succeeded}
use soj.Submission.Dispatcher.{
  Dispatching, dispatch_pending, then_runs, dispatch_runs, dispatch_to, dispatch_submissions,
  publish_claimed, publish, publish_task, after_build, after_publish,
}
use soj.Submission.Dispatcher.Counts.{Counted, CountsPublished, dispatch_pending-Counted}

-- A queue that is full after one request; the state is the number of requests in it.
abbrev accept : ℕ → ℕ → Step ℕ ℕ
accept id event zero = (ok id, 1)
accept id event (suc s) = (err (plain "full"), suc s)

accept_counts : (id event s : ℕ) → (accept id event s).1 ≡ s + succeeded (accept id event s).0
accept_counts id event zero = refl
accept_counts id event (suc s) = omega arith

abbrev waiting : ℕ → JudgeTask
waiting id = record {
  id = id;
  subject = Subject.of_submission id;
  status = TaskStatus.pending;
  attempts = pos 0;
}

abbrev dispatching : Dispatching ℕ ℕ
dispatching = record {
  claim_pending_judge_tasks = λ limit s. (ok (waiting 7 ∷ waiting 8 ∷ []), s);
  claim_pending_run_tasks = λ limit s. (ok [], s);
  retry_judge_task = λ id t e s. (ok tt, s);
  mark_judge_task_dispatched = λ id stream s. (ok tt, s);
  queue = accept;
  run_queue = none;
  submission_request_event = λ task s. (ok task.id, s);
  run_request_event = λ task s. (ok task.id, s);
  now = 5;
}

laws : CountsPublished dispatching (λ s. s)
laws = record {
  queue_counts = accept_counts;
  run_queue_counts = λ target e id event s. cc;
  claim_keeps = λ limit s. refl;
  claim_runs_keeps = λ limit s. refl;
  retry_keeps = λ id t e s. refl;
  mark_keeps = λ id stream s. refl;
  submission_event_keeps = λ task s. refl;
  run_event_keeps = λ task s. refl;
}

-- Of two tasks one is published, and the error of the other ends the dispatch.
dispatch_pending_test : dispatch_pending dispatching (pos 0) 0 ≡ ((1, some (plain "full")), 1)
unfolding dispatch_pending then_runs dispatch_runs dispatch_to dispatch_submissions publish_claimed
    publish publish_task after_build after_publish stop_at
dispatch_pending_test = refl

dispatch_pending-Counted_example :
    Counted 0
      (dispatch_pending dispatching (pos 0) 0).1
      (dispatch_pending dispatching (pos 0) 0).0.0
      (dispatch_pending dispatching (pos 0) 0).0.1
dispatch_pending-Counted_example = dispatch_pending-Counted dispatching (λ s. s) laws (pos 0) 0
