-- ===== src/Submission/Dispatcher/Counts.antt =====
-- How many requests a dispatch of internal/submission/worker.go publishes.
use soj.Prelude.{
  ℕ, suc, ◌+◌, ◌≤◌, ◌≡◌, refl, Option, none, some, List, [], ◌∷◌, arith, Bool-cases, inl, inr,
}
use soj.Prelude.Int.{ℤ, pos, leb_ℤ}
use soj.AppError.{Result, ok, err, Error}
use soj.AppError.Step.{Step}
use soj.Contest.Types.{Time}
use soj.Submission.Worker.{JudgeTask, error_of, stop_at, default_judge_task_backoff}
use soj.Submission.Worker.Acks.{succeeded}
use soj.Submission.Dispatcher.{
  Publisher, Builder, Dispatching, Dispatched, after_publish, after_build, publish_task, publish,
  publish_claimed, dispatch_submissions, dispatch_to, dispatch_runs, then_runs, dispatch_pending,
}

module _ {S : Type 0} (published : S → ℕ) where
  abbrev pub Keeps : {A : Type 0} → Step S A → Type 0
  Keeps m = (s : S) → published (m s).1 ≡ published s

  -- One entry of the stream where publishing succeeds, and none where it fails.
  abbrev pub CountsPublisher : {E : Type 0} → Publisher S E → Type 0
  CountsPublisher target =
      (id : ℕ) (event : _) (s : S)
      → published (target id event s).1 ≡ published s + succeeded (target id event s).0

-- What dispatching relies on: a queue counts what it takes, and no other call publishes.
pub record CountsPublished {S E : Type 0} (d : Dispatching S E) (published : S → ℕ) : Type 0 where
  pub queue_counts : CountsPublisher published d.queue
  pub run_queue_counts :
      (target : Publisher S E) → d.run_queue ≡ some target → CountsPublisher published target
  pub claim_keeps : (limit : ℤ) → Keeps published (d.claim_pending_judge_tasks limit)
  pub claim_runs_keeps : (limit : ℤ) → Keeps published (d.claim_pending_run_tasks limit)
  pub retry_keeps : (id : ℕ) (t : Time) (e : Error) → Keeps published (d.retry_judge_task id t e)
  pub mark_keeps : (id stream : ℕ) → Keeps published (d.mark_judge_task_dispatched id stream)
  pub submission_event_keeps :
      (task : JudgeTask) → Keeps published (d.submission_request_event task)
  pub run_event_keeps : (task : JudgeTask) → Keeps published (d.run_request_event task)

-- `count` requests were published, or one more where an error ended the loop.
abbrev pub Counted : ℕ → ℕ → ℕ → Option Error → Type 0
Counted before after count none = after ≡ before + count
Counted before after count (some e) = (before + count ≤ after) × (after ≤ before + count + 1)

module _ {S E : Type 0} (d : Dispatching S E) (published : S → ℕ)
    (law : CountsPublished d published) where
  -- One task: one request if it was dispatched, at most one if not.
  abbrev One : ℕ → ℕ → Option Error → Type 0
  One before after none = after ≡ before + 1
  One before after (some e) = (before ≤ after) × (after ≤ before + 1)

  marked_One :
      (r : Result (Unit {0})) (before after : ℕ)
      → after ≡ before + 1
      → One before after (error_of r)
  marked_One (ok u) before after h = h
  marked_One (err e) before after h = (omega (arith, h), omega (arith, h))

  after_publish-One :
      (task : JudgeTask) (r : Result ℕ) (s : S) (before : ℕ)
      → published s ≡ before + succeeded r
      → One before (published (after_publish d task r s).1) (after_publish d task r s).0
  unfolding after_publish
  after_publish-One task (ok stream) s before h =
      marked_One (d.mark_judge_task_dispatched task.id stream s).0 before _
        (omega (arith, h, law.mark_keeps task.id stream s))
  after_publish-One task (err cause) s before h =
      let kept =
        law.retry_keeps task.id (d.now + default_judge_task_backoff task.attempts) cause s in
      (omega (arith, h, kept), omega (arith, h, kept))

  after_build-One :
      (target : Publisher S E)
      → CountsPublisher published target
      → (task : JudgeTask) (r : Result E) (s : S)
      → One
          (published s)
          (published (after_build d task target r s).1)
          (after_build d task target r s).0
  unfolding after_build
  after_build-One target counts task (err cause) s = (omega arith, omega arith)
  after_build-One target counts task (ok event) s =
      after_publish-One task (target task.id event s).0 (target task.id event s).1 (published s)
        (counts task.id event s)

  module _ (target : Publisher S E) (build : Builder S E)
      (counts : CountsPublisher published target)
      (keeps : (task : JudgeTask) → Keeps published (build task)) where
    task-One :
        (task : JudgeTask) (s : S)
        → One
            (published s)
            (published (publish_task d target build task s).1)
            (publish_task d target build task s).0
    unfolding publish_task
    task-One task s =
        rw (← keeps task s) (after_build-One target counts task (build task s).0 (build task s).1)

    step_Counted :
        (failure : Option Error) (n before middle : ℕ) (t : S) (rest : Dispatched S)
        → published t ≡ middle
        → One before middle failure
        → Counted middle (published rest.1 + suc n) rest.0.0 rest.0.1
        → Counted before
            (published (stop_at failure n t rest).1 + n)
            (stop_at failure n t rest).0.0
            (stop_at failure n t rest).0.1
    step_Counted none n before middle t ((count, none), u) e one h = omega (arith, e, one, h)
    step_Counted none n before middle t ((count, some f), u) e one h =
        (omega (arith, e, one, h.0), omega (arith, e, one, h.1))
    step_Counted (some f) n before middle t rest e one h =
        (omega (arith, e, one.0), omega (arith, e, one.1))

    publish-Counted :
        (n : ℕ) (tasks : List JudgeTask) (s : S)
        → Counted
            (published s)
            (published (publish d target build n tasks s).1 + n)
            (publish d target build n tasks s).0.0
            (publish d target build n tasks s).0.1
    unfolding publish
    publish-Counted n [] s = refl
    publish-Counted n (task ∷ tasks) s =
        step_Counted (publish_task d target build task s).0 n (published s) _
          (publish_task d target build task s).1 _ refl (task-One task s)
          (publish-Counted (suc n) tasks (publish_task d target build task s).1)

    from_zero :
        (before after count : ℕ) (failure : Option Error)
        → Counted before (after + 0) count failure
        → Counted before after count failure
    from_zero before after count none h = omega (arith, h)
    from_zero before after count (some e) h = (omega (arith, h.0), omega (arith, h.1))

    publish_claimed-Counted :
        (r : Result (List JudgeTask)) (s : S)
        → Counted
            (published s)
            (published (publish_claimed d target build r s).1)
            (publish_claimed d target build r s).0.0
            (publish_claimed d target build r s).0.1
    unfolding publish_claimed
    publish_claimed-Counted (err cause) s = (omega arith, omega arith)
    publish_claimed-Counted (ok tasks) s = from_zero _ _ _ _ (publish-Counted 0 tasks s)

  submissions_Counted :
      (limit : ℤ) (s : S)
      → Counted
          (published s)
          (published (dispatch_submissions d limit s).1)
          (dispatch_submissions d limit s).0.0
          (dispatch_submissions d limit s).0.1
  unfolding dispatch_submissions
  submissions_Counted limit s = rw (← law.claim_keeps limit s) (
      publish_claimed-Counted d.queue d.submission_request_event law.queue_counts
        law.submission_event_keeps (d.claim_pending_judge_tasks limit s).0
        (d.claim_pending_judge_tasks limit s).1)

  to_Counted :
      (target : Option (Publisher S E))
      → d.run_queue ≡ target
      → (limit : ℤ) (s : S)
      → Counted
          (published s)
          (published (dispatch_to d target limit s).1)
          (dispatch_to d target limit s).0.0
          (dispatch_to d target limit s).0.1
  unfolding dispatch_to
  to_Counted none e limit s = omega arith
  to_Counted (some target) e limit s = rw (← law.claim_runs_keeps limit s) (
      publish_claimed-Counted target d.run_request_event (law.run_queue_counts target e)
        law.run_event_keeps (d.claim_pending_run_tasks limit s).0
        (d.claim_pending_run_tasks limit s).1)

  runs_Counted :
      (limit : ℤ) (s : S)
      → Counted
          (published s)
          (published (dispatch_runs d limit s).1)
          (dispatch_runs d limit s).0.0
          (dispatch_runs d limit s).0.1
  unfolding dispatch_runs
  runs_Counted limit s = to_Counted d.run_queue refl limit s

  Counted-add :
      (before middle after count runs : ℕ) (failure : Option Error)
      → middle ≡ before + count
      → Counted middle after runs failure
      → Counted before after (count + runs) failure
  Counted-add before middle after count runs none e h = omega (arith, e, h)
  Counted-add before middle after count runs (some f) e h =
      (omega (arith, e, h.0), omega (arith, e, h.1))

  then_Counted :
      (limit : ℤ) (before : ℕ) (r : Dispatched S)
      → Counted before (published r.1) r.0.0 r.0.1
      → Counted before
          (published (then_runs d limit r).1)
          (then_runs d limit r).0.0
          (then_runs d limit r).0.1
  unfolding then_runs
  then_Counted limit before ((count, some cause), s) h = h
  then_Counted limit before ((count, none), s) h =
      Counted-add before (published s) _ count _ (dispatch_runs d limit s).0.1 h
        (runs_Counted limit s)

  -- A dispatch publishes as many requests as it reports; where an error ended it, at least as many and
  -- at most one more. This is for a queue that counts what it takes and for other calls that publish
  -- nothing.
  pub dispatch_pending-Counted :
      (limit : ℤ) (s : S)
      → Counted
          (published s)
          (published (dispatch_pending d limit s).1)
          (dispatch_pending d limit s).0.0
          (dispatch_pending d limit s).0.1
  unfolding dispatch_pending
  dispatch_pending-Counted limit s = elim (Bool-cases (leb_ℤ limit (pos 0))) [
    | inl e ↦ rw e (then_Counted (pos 16) (published s) _ (submissions_Counted (pos 16) s))
    | inr e ↦ rw e (then_Counted limit (published s) _ (submissions_Counted limit s))
  ]
