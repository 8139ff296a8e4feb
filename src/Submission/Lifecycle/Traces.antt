-- ===== src/Submission/Lifecycle/Traces.antt =====
-- The requests of internal/submission as transitions of the state machine of a judge task.
use soj.Prelude.{
  ℕ, ◌≡◌, refl, true, Bool-cases, inl, inr, Option, none, some, String, arith, ◌==◌, any,
}
use soj.AppError.{ok}
use soj.Contest.Types.{Time}
use soj.Submission.Status.{Status, terminal_status, db_status}
use soj.Submission.Tables.{
  TaskState, TaskRow, SubmissionRow, AttemptRow, ResultRow, Tables, update, is_null,
}
use soj.Submission.Tables.Tasks.{
  is_pending, in_flight, dispatchable, task_in, dispatching_row, dispatched_row, moved_row,
  dead_row, retried_row, claim_tasks, is_claimed, claimed, claim_pending_judge_tasks,
  claim_pending_run_tasks, update_judge_task_dispatching, mark_task_dead,
  mark_judge_task_dispatched, mark_judge_task_running, mark_judge_task_done, retry_judge_task,
  due_submission, due_run,
}
use soj.Submission.Tables.Submissions.{
  is_stale, reset_task, recoverable, recovered_task, recover_dead_task, mark_submission_queued,
  mark_submission_running, reset_stale_judge_tasks, update_submission_status, submission_in,
  is_open, judged_row,
}
use soj.Submission.Tables.Attempts.{
  mark_stale_runs_system_error, mark_judge_attempt_finished, finished_attempt, update_run_status,
  run_in, finished_run, upsert_submission_result,
}
use soj.Submission.Repository.{
  Ledgers, text, fail_subject, dead_task, mark_judge_task_dead, rebuild_recovered, recover_subject,
  recover_dead_judge_task,
}
use soj.Submission.Repository.Complete.{
  CompleteJudgeAttemptResultInput, finish_task, finish_judge_attempt, finish_item, write_result,
  reread, complete_open_submission, complete_submission_attempt, complete_run_attempt,
  complete_subject, lock_task_of, complete_attempt, complete_judge_attempt_result, finished_params,
  submission_params, run_params, result_params,
}
use soj.Submission.Lifecycle.Rules.{
  After, kept, rolled_back, then_After, After-imp, read_After, if_After, write-After, put-After,
  update_After, update_or_After, settle-After,
}
use soj.Submission.Lifecycle.Requests.{Request, perform}
use soj.Submission.Lifecycle.Claims.{claimed-pending}
use soj.Submission.Lifecycle.Machine.{
  Label, Edge, Traced, same-Traced, update_traced, statement-Traced, submission-Traced,
  failure_same, rebuilding_same, once_dispatched-Edge, stalled-in_flight,
}

module _ {P L : Type 0} (ledgers : Ledgers P L) (input : CompleteJudgeAttemptResultInput) where
  task-Traced :
      (t : Tables P) (x : AttemptRow) (o : Option ℕ)
      → x.task_id ≡ o
      → After (λ _ u. Traced Label.finishing t u) (finish_task ledgers input x t)
  unfolding finish_task mark_judge_task_done
  task-Traced t x none e = rw e (kept (same-Traced t))
  task-Traced t x (some k) e = rw e (
      update_or_After (task_in k in_flight) (moved_row TaskState.done t.now) t.tasks _ _ _
        (λ n. kept (same-Traced t))
        (λ y j q. kept (
          update_traced (task_in k in_flight) (moved_row TaskState.done t.now) t.tasks (λ z. refl)
            (λ z r. Edge.finish (ground arith)))))

  attempt-Traced :
      (t : Tables P) (id : ℕ) (status : Status)
      → After (λ _ u. Traced Label.finishing t u) (finish_judge_attempt ledgers input id status t)
  unfolding finish_judge_attempt mark_judge_attempt_finished
  attempt-Traced t id status =
      update_After (λ a. a.id == id)
        (finished_attempt (finished_params id input.result status t.now) t.now) t.attempts _ _
        (λ x j q. put-After (ledgers.create_case_results id input.result.cases t.others) _ _ (λ p.
          task-Traced _ (finished_attempt (finished_params id input.result status t.now) t.now x)
            x.task_id refl))

  item_same :
      (t : Tables P) (x : AttemptRow)
      → After (λ _ u. u.tasks ≡ t.tasks) (finish_item ledgers input x t)
  unfolding finish_item
  item_same t x =
      if_After (is_null x.rejudge_batch_id) _ _ (λ e. kept refl)
        (λ e.
          put-After (ledgers.finish_rejudge_item x.id t.others) t (λ _ u. ok (true, u))
            (λ p. kept refl))

  upsert_same : (t : Tables P) (r : ResultRow) → (upsert_submission_result r t).tasks ≡ t.tasks
  unfolding upsert_submission_result
  upsert_same t r =
      elim (Bool-cases (any (λ row. row.submission_id == r.submission_id) t.results)) [
        | inl e ↦ rw e refl
        | inr e ↦ rw e refl
      ]

  write-Traced :
      (t : Tables P) (id : ℕ) (status : Status) (lock : L) (row : SubmissionRow)
      → After (λ _ u. Traced Label.finishing t u) (write_result ledgers input id status lock row t)
  unfolding write_result
  write-Traced t id status lock row =
      then_After (finish_judge_attempt ledgers input id status t) _ (
        After-imp _ _ (finish_judge_attempt ledgers input id status t)
          (λ x u k.
            let v =
              upsert_submission_result (result_params row.id id input.result status u.now) u in
            put-After (ledgers.rebuild_contest_problem_result v row lock) v
              (λ _ w. finish_item ledgers input x w)
              (λ p.
                After-imp _ _ (finish_item ledgers input x (record v { others = p }))
                  (λ b w (m : w.tasks ≡ v.tasks) y i. k y (
                    rw (← upsert_same u (result_params row.id id input.result status u.now), ← m)
                      i))
                  (item_same (record v { others = p }) x)))
          (attempt-Traced t id status))

  open-Traced :
      (t : Tables P) (id : ℕ) (status : Status) (submission : ℕ) (row : SubmissionRow)
      → After
          (λ _ u. Traced Label.finishing t u)
          (complete_open_submission ledgers input submission id status row t)
  unfolding complete_open_submission update_submission_status reread
  open-Traced t id status submission row =
      write-After (ledgers.lock_contest_problem_projection row t.others) t _ (λ lock p.
        update_or_After (submission_in submission is_open)
          (judged_row (submission_params submission input.result status) t.now) t.submissions _ _ _
          (λ n.
            read_After (λ s. s.id == submission) t.submissions _ _
              (λ x i e.
                if_After (terminal_status x.status) _ _ (λ d. kept (same-Traced t))
                  (λ d. write-Traced _ id status lock x)))
          (λ x j q. write-Traced _ id status lock _))

  subject-Traced :
      (t : Tables P) (a : AttemptRow) (r o : Option ℕ)
      → a.run_id ≡ r
      → a.submission_id ≡ o
      → After (λ _ u. Traced Label.finishing t u) (complete_subject ledgers input a t)
  unfolding complete_subject complete_submission_attempt complete_run_attempt update_run_status
  subject-Traced t a (some run) o e f = rw e (
      read_After (λ r. r.id == run) t.runs t _
        (λ row l g.
          if_After (terminal_status row.status) _ _ (λ d. kept (same-Traced t))
            (λ d.
              let params = run_params run input.result (db_status input.status) in
              update_After (run_in run is_open) (finished_run params t.now) t.runs _ _ (λ x j q.
                let u = record t {
                  runs = update (run_in run is_open) (finished_run params t.now) t.runs;
                } in
                then_After (finish_judge_attempt ledgers input a.id (db_status input.status) u) _ (
                  After-imp _ _ (finish_judge_attempt ledgers input a.id (db_status input.status) u)
                    (λ y v k. kept k) (attempt-Traced u a.id (db_status input.status)))))))
  subject-Traced t a none (some submission) e f =
      rw (e, f)
        (read_After (λ s. s.id == submission) t.submissions t _
          (λ row l g.
            if_After (terminal_status row.status) _ _ (λ d. kept (same-Traced t))
              (λ d. open-Traced t a.id (db_status input.status) submission row)))
  subject-Traced t a none none e f = rw (e, f) (rolled_back _)

  lock_same :
      (t : Tables P) (a : AttemptRow) (o : Option ℕ)
      → a.task_id ≡ o
      → After (λ _ u. u ≡ t) (lock_task_of ledgers input a t)
  unfolding lock_task_of
  lock_same t a none e = rw e (kept refl)
  lock_same t a (some k) e =
      rw e (read_After (λ j. j.id == k) t.tasks t (λ _ u. ok (tt, u)) (λ x i q. kept refl))

  complete-Traced :
      (t : Tables P) (id : ℕ)
      → After (λ _ u. Traced Label.finishing t u) (complete_attempt ledgers input id t)
  unfolding complete_attempt
  complete-Traced t id =
      read_After (λ a. a.id == id) t.attempts t _
        (λ seen i e. then_After (lock_task_of ledgers input seen t) _ (
          After-imp _ _ (lock_task_of ledgers input seen t)
            (λ _ u (same : u ≡ t).
              read_After (λ a. a.id == id) u.attempts u _
                (λ a j q.
                  if_After (terminal_status a.status) _ _ (λ d. kept (rw same (same-Traced t)))
                    (λ d.
                      After-imp _ _ (complete_subject ledgers input a u) (λ b w k. rw (← same) k)
                        (subject-Traced u a a.run_id a.submission_id refl refl))))
            (lock_same t seen seen.task_id refl)))

-- The transition that a request is for.
abbrev pub label : Request → Label
label (Request.claim_judge_tasks locked limit) = Label.claiming
label (Request.claim_run_tasks locked limit) = Label.claiming
label (Request.mark_dispatching id) = Label.claiming
label (Request.mark_dispatched id stream) = Label.publishing
label (Request.mark_running id) = Label.starting
label (Request.retry id at reason) = Label.putting_back
label (Request.mark_dead id reason) = Label.failing
label (Request.recover_dead id at reason) = Label.recovering
label (Request.reset_stale_tasks before reason) = Label.putting_back
label (Request.complete id input) = Label.finishing
label _ = Label.nothing

module _ {P L : Type 0} (ledgers : Ledgers P L) where
  subject_dead :
      (t : Tables P) (id : ℕ) (reason : String) (x : TaskRow)
      → After
          (λ _ u. Traced Label.failing t u)
          (fail_subject ledgers id reason x (record t {
            tasks = update (task_in id in_flight) (dead_row (text reason) t.now) t.tasks;
          }))
  subject_dead t id reason x =
      After-imp _ _ (fail_subject ledgers id reason x dying)
        (λ _ u (k : u.tasks ≡ dying.tasks) y l.
          update_traced (task_in id in_flight) (dead_row (text reason) t.now) t.tasks (λ z. refl)
            (λ z r. Edge.fail (ground arith)) y (rw (← k) l))
        (failure_same dying ledgers id reason x x.submission_id refl)
    where
      dying : Tables P
      dying = record t {
        tasks = update (task_in id in_flight) (dead_row (text reason) t.now) t.tasks;
      }

  dead-Traced :
      (t : Tables P) (id : ℕ) (reason : String)
      → After (λ _ u. Traced Label.failing t u) (dead_task ledgers id reason t)
  unfolding dead_task mark_task_dead
  dead-Traced t id reason =
      update_After (task_in id in_flight) (dead_row (text reason) t.now) t.tasks _ _
        (λ x i e. subject_dead t id reason (dead_row (text reason) t.now x))

  recovery-Traced :
      (t : Tables P) (id : ℕ) (at : Time) (reason : String) (x : TaskRow) (o : Option ℕ)
      → x.submission_id ≡ o
      → After (λ _ u. Traced Label.recovering t u) (recover_subject ledgers id at reason x t)
  unfolding recover_subject recover_dead_task
  recovery-Traced t id at reason x none e = rw e (rolled_back _)
  recovery-Traced t id at reason x (some submission) e = rw e (
      read_After (λ r. r.id == submission) t.submissions t _
        (λ r j f. write-After (ledgers.lock_contest_problem_projection r t.others) t _ (λ lock p.
          update_After (recoverable id t.submissions) (recovered_task at (text reason) t.now)
            t.tasks _ _
            (λ y k q.
              After-imp _ _ (rebuild_recovered ledgers submission lock _ _)
                (λ _ u same z l.
                  update_traced (recoverable id t.submissions)
                    (recovered_task at (text reason) t.now) t.tasks (λ w. refl)
                    (λ w g. Edge.recover (ground arith)) z (rw (← same) l))
                (rebuilding_same _ ledgers submission lock _)))))

  -- One request moves each task along an edge of its label, or leaves it.
  pub perform-Traced : (r : Request) (t : Tables P) → Traced (label r) t (perform ledgers r t)
  unfolding perform mark_judge_task_dead recover_dead_judge_task complete_judge_attempt_result
      claim_pending_judge_tasks claim_pending_run_tasks claim_tasks mark_stale_runs_system_error
      update_judge_task_dispatching mark_judge_task_dispatched mark_judge_task_running
      retry_judge_task reset_stale_judge_tasks mark_submission_running mark_submission_queued
  perform-Traced (Request.claim_judge_tasks locked limit) t =
      let chosen = claimed (due_submission t.now) locked limit t.tasks in
      update_traced (is_claimed chosen) (dispatching_row t.now) t.tasks (λ j. refl)
        (λ j q. Edge.claim (claimed-pending chosen j q))
  perform-Traced (Request.claim_run_tasks locked limit) t =
      let chosen = claimed (due_run t.now) locked limit t.tasks in
      update_traced (is_claimed chosen) (dispatching_row t.now) t.tasks (λ j. refl)
        (λ j q. Edge.claim (claimed-pending chosen j q))
  perform-Traced (Request.mark_dispatching id) t =
      settle-After (λ u. Traced _ t u) _ t (same-Traced t)
        (statement-Traced t (task_in id is_pending) (dispatching_row t.now) (λ j. refl)
          (λ j q. Edge.claim (ground arith)))
  perform-Traced (Request.mark_dispatched id stream) t =
      settle-After (λ u. Traced _ t u) _ t (same-Traced t)
        (statement-Traced t (task_in id dispatchable) (dispatched_row stream t.now) (λ j. refl)
          (λ j q. once_dispatched-Edge j.status))
  perform-Traced (Request.mark_running id) t =
      settle-After (λ u. Traced _ t u) _ t (same-Traced t)
        (statement-Traced t (task_in id in_flight) (moved_row TaskState.running t.now) (λ j. refl)
          (λ j q. Edge.start (ground arith)))
  perform-Traced (Request.retry id at reason) t =
      settle-After (λ u. Traced _ t u) _ t (same-Traced t)
        (statement-Traced t (task_in id in_flight) (retried_row at reason t.now) (λ j. refl)
          (λ j q. Edge.put_back (ground arith)))
  perform-Traced (Request.mark_dead id reason) t =
      settle-After (λ u. Traced _ t u) _ t (same-Traced t) (dead-Traced t id reason)
  perform-Traced (Request.recover_dead id at reason) t =
      settle-After (λ u. Traced _ t u) _ t (same-Traced t)
        (read_After (λ j. j.id == id) t.tasks t _
          (λ x j e. recovery-Traced t id at reason x x.submission_id refl))
  perform-Traced (Request.reset_stale_tasks before reason) t =
      update_traced (is_stale before t.submissions) (reset_task reason t.now) t.tasks (λ j. refl)
        (λ j q. Edge.put_back (stalled-in_flight j.status (ground arith)))
  perform-Traced (Request.fail_stale_runs before reason) t = same-Traced t
  perform-Traced (Request.start_submission id) t =
      settle-After (λ u. Traced _ t u) _ t (same-Traced t) (submission-Traced t _ _)
  perform-Traced (Request.requeue_submission id reason) t =
      settle-After (λ u. Traced _ t u) _ t (same-Traced t) (submission-Traced t _ _)
  perform-Traced (Request.complete id input) t =
      settle-After (λ u. Traced _ t u) _ t (same-Traced t) (complete-Traced ledgers input t id)
  perform-Traced (Request.wait now) t = same-Traced t
