-- ===== src/Submission/Lifecycle/Verdicts.antt =====
-- The verdict of a submission under the requests of dispatchers, workers, reconcilers and the consumer
-- of results, in internal/submission.
use soj.Prelude.{
  ℕ, ◌≡◌, refl, ap, All, Bool, true, false, Bool-cases, inl, inr, Option, none, some, List, [], ◌∷◌,
  String, arith, ◌==◌, ◌&&◌,
}
use soj.AppError.{ok}
use soj.Contest.Types.{Time}
use soj.Submission.Status.{is_queued, terminal_status}
use soj.Submission.Tables.{TaskState, TaskRow, SubmissionRow, Tables, update, returned, refers}
use soj.Submission.Tables.Rows.{In, unique, any-In}
use soj.Submission.Tables.Tasks.{
  claim_tasks, claim_pending_judge_tasks, claim_pending_run_tasks, update_judge_task_dispatching,
  update_task, task_in, in_flight, dead_row, mark_task_dead, mark_judge_task_dispatched,
  mark_judge_task_running, retry_judge_task, mark_judge_task_done, moved_row,
}
use soj.Submission.Tables.Submissions.{
  submission_in, is_open, is_stale, reset_task, is_system_error, system_error_row, set_system_error,
  queued_row, running_row, of_any, running_of_any, recoverable, recovered_task,
  recovered_submission, recover_dead_task, update_submission, mark_submission_queued,
  mark_submission_running, reset_stale_judge_tasks,
}
use soj.Submission.Tables.Attempts.{mark_stale_runs_system_error}
use soj.Submission.Repository.{
  Ledgers, text, mark_submission_system_error, fail_subject, dead_task, mark_judge_task_dead,
  rebuild_recovered, recover_subject, recover_dead_judge_task,
}
use soj.Submission.Repository.Complete.{complete_attempt, complete_judge_attempt_result}
use soj.Submission.Lifecycle.{IsConsistent}
use soj.Submission.Lifecycle.Rules.{
  After, kept, rolled_back, then_After, After-imp, read_After, if_After, write-After, put-After,
  update_After, update_or_After, last_After, settle-After,
}
use soj.Submission.Lifecycle.Recovery.{of_any-returned}
use soj.Submission.Lifecycle.Outcome.{unselected_In}
use soj.Submission.Lifecycle.Once.{attempt_outcome}
use soj.Submission.Lifecycle.Requests.{Request, perform}
use soj.Submission.Lifecycle.Histories.{Action, act, act_all, act_kept, AllAllowed}
use soj.Submission.Repository.Rejudge.{Batches}

refers_same : (o : Option ℕ) (a b : ℕ) → refers o a ≡ true → refers o b ≡ true → (a == b) ≡ true
refers_same none a b e f = ground arith
refers_same (some n) a b e f = ground arith

module _ {P : Type 0} (t : Tables P) (s : SubmissionRow) (i : In s t.submissions)
    (d : terminal_status s.status ≡ true) where
  -- The row `s` is still there.
  abbrev Stays : Tables P → Type 0
  Stays u = In s u.submissions

  task_statement_stays :
      (p : TaskRow → Bool) (f : TaskRow → TaskRow)
      → After (λ _ u. In s u.submissions) (update_task p f t)
  task_statement_stays p f = last_After p f t.tasks _ (λ x j e. i)

  statement_stays :
      (p : SubmissionRow → Bool) (f : SubmissionRow → SubmissionRow)
      → p s ≡ false
      → After (λ _ u. In s u.submissions) (update_submission p f t)
  statement_stays p f q =
      last_After p f t.submissions _ (λ x j e. unselected_In p f s t.submissions q i)

  module _ {L : Type 0} (ledgers : Ledgers P L) where
    system_error_stays :
        (id : ℕ) (reason : String)
        → After (λ _ u. In s u.submissions) (mark_submission_system_error ledgers id reason t)
    unfolding mark_submission_system_error set_system_error
    system_error_stays id reason =
        read_After (λ r. r.id == id) t.submissions t _
          (λ row j e.
            if_After (terminal_status row.status) _ _ (λ o. kept i)
              (λ o.
                write-After (ledgers.lock_contest_problem_projection row t.others) t _ (λ lock p.
                  update_or_After (submission_in id is_open) (system_error_row (text reason) t.now)
                    t.submissions _ _ _ (λ n. kept i)
                    (λ x l q.
                      let failed = system_error_row (text reason) t.now x in
                      let u = record t {
                        submissions =
                            update (submission_in id is_open) (system_error_row (text reason) t.now)
                              t.submissions;
                        others = p;
                      } in
                      put-After (ledgers.rebuild_contest_problem_result u failed lock) u
                        (λ _ v. ok (failed, v))
                        (λ p'. kept (
                          unselected_In (submission_in id is_open)
                            (system_error_row (text reason) t.now) s t.submissions (ground arith)
                            i))))))

    failure_stays :
        (id : ℕ) (reason : String) (x : TaskRow) (o : Option ℕ)
        → x.submission_id ≡ o
        → After (λ _ u. In s u.submissions) (fail_subject ledgers id reason x t)
    unfolding fail_subject
    failure_stays id reason x none e = rw e (rolled_back _)
    failure_stays id reason x (some submission) e = rw e (
        then_After (mark_submission_system_error ledgers submission reason t) _ (
          After-imp _ _ (mark_submission_system_error ledgers submission reason t)
            (λ a u k.
              put-After (ledgers.fail_active_rejudge_item id (text reason) u.others) u _
                (λ p. kept k))
            (system_error_stays submission reason)))

    rebuilding_stays :
        (submission : ℕ) (lock : L) (task : TaskRow)
        → After (λ _ u. In s u.submissions) (rebuild_recovered ledgers submission lock task t)
    unfolding rebuild_recovered
    rebuilding_stays submission lock task =
        if_After (ledgers.enabled lock) _ _
          (λ e.
            read_After (λ r. r.id == submission) t.submissions t _
              (λ r j f.
                put-After (ledgers.rebuild_contest_problem_result t r lock) t (λ _ u. ok (task, u))
                  (λ p. kept i)))
          (λ e. kept i)

module _ {P L : Type 0} (ledgers : Ledgers P L) (t : Tables P) (h : IsConsistent t)
    (s : SubmissionRow) (i : In s t.submissions) (d : terminal_status s.status ≡ true) where
  dead_stays :
      (id : ℕ) (reason : String) → After (λ _ u. In s u.submissions) (dead_task ledgers id reason t)
  unfolding dead_task mark_task_dead
  dead_stays id reason =
      update_After (task_in id in_flight) (dead_row (text reason) t.now) t.tasks _ _ (λ x j e.
        failure_stays _ s i d ledgers id reason (dead_row (text reason) t.now x) x.submission_id
          refl)

  -- The submission of a recovered task is the one with `system_error`.
  not_recovered :
      (id : ℕ) (p : TaskRow → TaskRow)
      → ((y : TaskRow) → (p y).submission_id ≡ y.submission_id)
      → is_system_error s.status ≡ false
      → of_any (returned (recoverable id t.submissions) p t.tasks) s ≡ false
  not_recovered id p keeps n =
      elim (Bool-cases (of_any (returned (recoverable id t.submissions) p t.tasks) s)) [
        | inr q ↦ q
        | inl q ↦
            let (y, j, e, r) = of_any-returned (recoverable id t.submissions) p t.tasks s keeps q in
            let (x, l, f) =
              any-In (λ x. refers y.submission_id x.id && is_system_error x.status) t.submissions
                (ground arith) in
            let same : x ≡ s =
              unique (λ z. z.id == s.id) x s t.submissions (h.submission_key s.id) l i
                (refers_same y.submission_id x.id s.id (ground arith) r) (ground arith) in
            absurd (ground (arith, ap (λ (z : SubmissionRow). is_system_error z.status) same, n, f))
      ]

  recovery_stays :
      (id : ℕ) (at : Time) (reason : String) (x : TaskRow) (o : Option ℕ)
      → is_system_error s.status ≡ false
      → x.submission_id ≡ o
      → After (λ _ u. In s u.submissions) (recover_subject ledgers id at reason x t)
  unfolding recover_subject recover_dead_task
  recovery_stays id at reason x none n e = rw e (rolled_back _)
  recovery_stays id at reason x (some submission) n e = rw e (
      read_After (λ r. r.id == submission) t.submissions t _
        (λ r j f. write-After (ledgers.lock_contest_problem_projection r t.others) t _ (λ lock p.
          update_After (recoverable id t.submissions) (recovered_task at (text reason) t.now)
            t.tasks _ _
            (λ y k q.
              rebuilding_stays _ s
                (unselected_In _ (recovered_submission (text reason) t.now) s t.submissions
                  (not_recovered id (recovered_task at (text reason) t.now) (λ z. refl) n) i)
                d ledgers submission lock _))))

  -- One request leaves a judged submission as it is.
  pub verdict_stays :
      (r : Request) → is_system_error s.status ≡ false → In s (perform ledgers r t).submissions
  unfolding perform mark_judge_task_dead recover_dead_judge_task complete_judge_attempt_result
      claim_pending_judge_tasks claim_pending_run_tasks claim_tasks mark_stale_runs_system_error
      update_judge_task_dispatching mark_judge_task_dispatched mark_judge_task_running
      retry_judge_task reset_stale_judge_tasks mark_submission_running mark_submission_queued
  verdict_stays (Request.claim_judge_tasks locked limit) n = i
  verdict_stays (Request.claim_run_tasks locked limit) n = i
  verdict_stays (Request.mark_dispatching id) n =
      settle-After (λ u. In s u.submissions) _ t i (task_statement_stays t s i d _ _)
  verdict_stays (Request.mark_dispatched id stream) n =
      settle-After (λ u. In s u.submissions) _ t i (task_statement_stays t s i d _ _)
  verdict_stays (Request.mark_running id) n =
      settle-After (λ u. In s u.submissions) _ t i (task_statement_stays t s i d _ _)
  verdict_stays (Request.retry id at reason) n =
      settle-After (λ u. In s u.submissions) _ t i (task_statement_stays t s i d _ _)
  verdict_stays (Request.mark_dead id reason) n =
      settle-After (λ u. In s u.submissions) _ t i (dead_stays id reason)
  verdict_stays (Request.recover_dead id at reason) n =
      settle-After (λ u. In s u.submissions) _ t i
        (read_After (λ j. j.id == id) t.tasks t _
          (λ x j e. recovery_stays id at reason x x.submission_id n refl))
  verdict_stays (Request.reset_stale_tasks before reason) n =
      let reset = returned (is_stale before t.submissions) (reset_task reason t.now) t.tasks in
      unselected_In (running_of_any reset) (queued_row reason t.now) s t.submissions (ground arith)
        i
  verdict_stays (Request.fail_stale_runs before reason) n = i
  verdict_stays (Request.start_submission id) n =
      settle-After (λ u. In s u.submissions) _ t i
        (statement_stays t s i d (submission_in id is_queued) (running_row t.now) (ground arith))
  verdict_stays (Request.requeue_submission id reason) n =
      settle-After (λ u. In s u.submissions) _ t i
        (statement_stays t s i d (submission_in id is_open) (queued_row reason t.now)
          (ground arith))
  verdict_stays (Request.complete id input) n =
      settle-After (λ u. In s u.submissions) _ t i
        (After-imp _ _ (complete_attempt ledgers input id t) (λ b u k. k.0.0 s i d)
          (attempt_outcome ledgers input t id))
  verdict_stays (Request.wait now) n = i

abbrev pub is_no_rejudge : Action → Bool
is_no_rejudge (Action.rejudge_of_problem id at) = false
is_no_rejudge (Action.rejudge_of_contest id at) = false
is_no_rejudge _ = true

module _ {P L : Type 0} (ledgers : Ledgers P L) (batches : Batches P) where
  action_stays :
      (a : Action) (t : Tables P) (s : SubmissionRow)
      → IsConsistent t
      → is_no_rejudge a ≡ true
      → In s t.submissions
      → terminal_status s.status ≡ true
      → is_system_error s.status ≡ false
      → In s (act ledgers batches a t).submissions
  unfolding act mark_judge_task_done
  action_stays (Action.request r) t s h e i d n = verdict_stays ledgers t h s i d r n
  action_stays (Action.rejudge_of_problem id at) t s h e i d n = absurd (ground (arith, e))
  action_stays (Action.rejudge_of_contest id at) t s h e i d n = absurd (ground (arith, e))
  action_stays (Action.mark_done id) t s h e i d n =
      settle-After (λ u. In s u.submissions) _ t i
        (task_statement_stays t s i d (task_in id in_flight) (moved_row TaskState.done t.now))

  -- A verdict other than a system error is final until a rejudge: after any history of requests
  -- and of tasks marked done alone, without rejudges, on consistent tables, the row of a
  -- submission that had one is unchanged, where a task is marked done alone only while its
  -- submission is judged. Requests are the claims, marks, retries, failures, recoveries, resets
  -- and results of attempts that dispatchers, workers and reconcilers make; canceled rejudges are
  -- not among them.
  pub verdict_final :
      (actions : List Action) (t : Tables P) (s : SubmissionRow)
      → IsConsistent t
      → AllAllowed ledgers batches actions t
      → All (λ a. is_no_rejudge a ≡ true) actions
      → In s t.submissions
      → terminal_status s.status ≡ true
      → is_system_error s.status ≡ false
      → In s (act_all ledgers batches actions t).submissions
  unfolding act_all
  verdict_final [] t s h allowed quiet i d n = i
  verdict_final (a ∷ rest) t s h allowed quiet i d n =
      verdict_final rest (act ledgers batches a t) s (act_kept ledgers batches a t h allowed.0)
        allowed.1 quiet.1 (action_stays a t s h quiet.0 i d n) d n
