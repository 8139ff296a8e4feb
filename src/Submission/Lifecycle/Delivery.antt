-- ===== src/Submission/Lifecycle/Delivery.antt =====
-- The transaction of internal/submission/judge_repository.go that stores the result of an attempt.
use soj.Prelude.{ℕ, ◌≡◌, refl, ap, sym, ◌∙◌, Bool, true, false, Option, none, some, arith, ◌==◌}
use soj.AppError.{ok}
use soj.Submission.Status.{Status, terminal_status, db_status, db_status_terminal}
use soj.Submission.Tables.{
  TaskState, SubmissionRow, AttemptRow, RunRow, Tables, set, update, refers, is_null,
}
use soj.Submission.Tables.Rows.{In, In-map, map-In, unique, set-cases, set_keeps}
use soj.Submission.Tables.Tasks.{task_in, in_flight, moved_row, mark_judge_task_done}
use soj.Submission.Tables.Submissions.{submission_in, is_open, judged_row, update_submission_status}
use soj.Submission.Tables.Attempts.{
  MarkJudgeAttemptFinishedParams, UpdateRunStatusParams, finished_attempt,
  mark_judge_attempt_finished, run_in, finished_run, update_run_status, upsert_submission_result,
}
use soj.Submission.Repository.{Ledgers}
use soj.Submission.Repository.Complete.{
  CompleteJudgeAttemptResultInput, finished_params, submission_params, run_params, result_params,
  finish_task, finish_judge_attempt, finish_item, write_result, complete_open_submission,
  complete_submission_attempt, complete_run_attempt, complete_subject, lock_task_of,
  complete_attempt, complete_judge_attempt_result,
}
use soj.Submission.Lifecycle.{IsConsistent, others_kept, runs_kept, submissions_kept}
use soj.Submission.Lifecycle.Completion.{attempts_kept, done_kept, upsert_kept}
use soj.Submission.Lifecycle.Failures.{not_open, refers-some}
use soj.Submission.Lifecycle.Rules.{
  After, kept, rolled_back, then_After, After-imp, read_After, if_After, write-After, put-After,
  update_After, update_or_After, settle-After, In-none,
}
use soj.Submission.Lifecycle.Transactions.{Kept}

-- The submission of the attempt `a`, if it has one, is judged.
abbrev IsOver : {P : Type 0} → AttemptRow → Tables P → Type 0
IsOver a t =
    (s : SubmissionRow)
    → In s t.submissions
    → refers a.submission_id s.id ≡ true
    → terminal_status s.status ≡ true

module _ {P L : Type 0} (ledgers : Ledgers P L) (input : CompleteJudgeAttemptResultInput) where
  task-Kept :
      (t : Tables P) (x : AttemptRow) (o : Option ℕ)
      → IsConsistent t
      → In x t.attempts
      → IsOver x t
      → x.task_id ≡ o
      → Kept (finish_task ledgers input x t)
  unfolding finish_task mark_judge_task_done
  task-Kept t x none h i over e = rw e (kept h)
  task-Kept t x (some k) h i over e = rw e (
      update_or_After (task_in k in_flight) (moved_row TaskState.done t.now) t.tasks _ _ _
        (λ n. kept h) (λ y j q. kept (done_kept t h x k i e over)))

  finish-Kept :
      (t : Tables P) (a : AttemptRow) (status : Status)
      → IsConsistent t
      → In a t.attempts
      → IsOver a t
      → Kept (finish_judge_attempt ledgers input a.id status t)
  unfolding finish_judge_attempt mark_judge_attempt_finished
  finish-Kept t a status h i over = update_After this finish t.attempts _ _ (λ x j q.
      put-After (ledgers.create_case_results a.id input.result.cases t.others) _ _ (λ p.
        task-Kept _ (finish x) x.task_id (others_kept _ p (attempts_kept t h this params t.now))
          (rw (← finishes x q) (map-In (set this finish) x t.attempts j))
          (λ s l r.
            over s l (ap (λ (b : AttemptRow). refers b.submission_id s.id) (same x j q) ∙ r))
          refl))
    where
      this : AttemptRow → Bool
      this x = x.id == a.id

      params : MarkJudgeAttemptFinishedParams
      params = finished_params a.id input.result status t.now

      finish : AttemptRow → AttemptRow
      finish = finished_attempt params t.now

      finishes : (x : AttemptRow) → this x ≡ true → set this finish x ≡ finish x
      finishes x q = rw q refl

      same : (x : AttemptRow) → In x t.attempts → this x ≡ true → a ≡ x
      same x j q = unique this a x t.attempts (h.attempt_key a.id) i j (ground arith) q

  item-Kept :
      (t : Tables P) (x : AttemptRow) → IsConsistent t → Kept (finish_item ledgers input x t)
  unfolding finish_item
  item-Kept t x h =
      if_After (is_null x.rejudge_batch_id) _ _ (λ e. kept h)
        (λ e.
          put-After (ledgers.finish_rejudge_item x.id t.others) t (λ _ u. ok (true, u))
            (λ p. kept (others_kept t p h)))

  result-Kept :
      (t : Tables P) (a : AttemptRow) (status : Status) (lock : L) (row : SubmissionRow)
      → IsConsistent t
      → In a t.attempts
      → IsOver a t
      → terminal_status status ≡ true
      → Kept (write_result ledgers input a.id status lock row t)
  unfolding write_result
  result-Kept t a status lock row h i over d =
      then_After (finish_judge_attempt ledgers input a.id status t) _ (
        After-imp _ _ (finish_judge_attempt ledgers input a.id status t)
          (λ x u k.
            let v =
              upsert_submission_result (result_params row.id a.id input.result status u.now) u in
            put-After (ledgers.rebuild_contest_problem_result v row lock) v
              (λ _ w. finish_item ledgers input x w)
              (λ p. item-Kept _ x (others_kept v p (upsert_kept u k _ d))))
          (finish-Kept t a status h i over))

  open-Kept :
      (t : Tables P) (a : AttemptRow) (status : Status) (submission : ℕ) (row : SubmissionRow)
      → IsConsistent t
      → In a t.attempts
      → a.submission_id ≡ some submission
      → terminal_status status ≡ true
      → In row t.submissions
      → (row.id == submission) ≡ true
      → terminal_status row.status ≡ false
      → Kept (complete_open_submission ledgers input submission a.id status row t)
  unfolding complete_open_submission update_submission_status
  open-Kept t a status submission row h i of d l e o =
      write-After (ledgers.lock_contest_problem_projection row t.others) t _ (λ lock p.
        update_or_After this judge t.submissions _ _ _
          (λ n. absurd (In-none this row t.submissions n l (ground arith)))
          (λ x j q.
            result-Kept _ a status lock (judge x)
              (submissions_kept _ this judge (λ s. refl) (λ s f g. d) (others_kept t p h)) i over
              d))
    where
      this : SubmissionRow → Bool
      this = submission_in submission is_open

      judge : SubmissionRow → SubmissionRow
      judge = judged_row (submission_params submission input.result status) t.now

      over_row :
          (y : SubmissionRow)
          → refers a.submission_id (set this judge y).id ≡ true
          → terminal_status (set this judge y).status ≡ true
      over_row y r =
          set-cases this judge (λ s. terminal_status s.status ≡ true) y (λ q. d)
            (λ q. not_open y submission q (
              refers-some a.submission_id submission y.id of (
                ap (refers a.submission_id) (sym (set_keeps this judge (λ s. s.id) (λ s. refl) y))
                ∙ r)))

      over :
          (s : SubmissionRow)
          → In s (update this judge t.submissions)
          → refers a.submission_id s.id ≡ true
          → terminal_status s.status ≡ true
      over s k r =
          let (y, iy, ey) = In-map (set this judge) s t.submissions k in
          rw ey (over_row y (rw (← ey) r))

  submission_attempt-Kept :
      (t : Tables P) (a : AttemptRow) (status : Status) (submission : ℕ)
      → IsConsistent t
      → In a t.attempts
      → a.submission_id ≡ some submission
      → terminal_status status ≡ true
      → Kept (complete_submission_attempt ledgers input submission a.id status t)
  unfolding complete_submission_attempt
  submission_attempt-Kept t a status submission h i of d =
      read_After (λ s. s.id == submission) t.submissions t _
        (λ row l e.
          if_After (terminal_status row.status) _ _ (λ o. kept h)
            (λ o. open-Kept t a status submission row h i of d l e o))

  run_attempt-Kept :
      (t : Tables P) (a : AttemptRow) (status : Status) (run : ℕ)
      → IsConsistent t
      → In a t.attempts
      → a.submission_id ≡ none
      → Kept (complete_run_attempt ledgers input run a.id status t)
  unfolding complete_run_attempt update_run_status
  run_attempt-Kept t a status run h i of =
      read_After (λ r. r.id == run) t.runs t _
        (λ row l e.
          if_After (terminal_status row.status) _ _ (λ o. kept h)
            (λ o. update_After (run_in run is_open) (finished_run params t.now) t.runs _ _ (λ x j q.
              then_After (finish_judge_attempt ledgers input a.id status (after x)) _ (
                After-imp _ _ (finish_judge_attempt ledgers input a.id status (after x))
                  (λ y u k. kept k)
                  (finish-Kept (after x) a status (runs_kept t _ h) i
                    (λ s m r. absurd (ground (arith, of, r))))))))
    where
      params : UpdateRunStatusParams
      params = run_params run input.result status

      after : RunRow → Tables P
      after x = record t { runs = update (run_in run is_open) (finished_run params t.now) t.runs }

  subject-Kept :
      (t : Tables P) (a : AttemptRow) (r o : Option ℕ)
      → IsConsistent t
      → In a t.attempts
      → a.run_id ≡ r
      → a.submission_id ≡ o
      → Kept (complete_subject ledgers input a t)
  unfolding complete_subject
  subject-Kept t a (some run) o h i e f =
      rw e (run_attempt-Kept t a (db_status input.status) run h i (h.one_subject a i (rw e refl)))
  subject-Kept t a none (some submission) h i e f =
      rw (e, f)
        (submission_attempt-Kept t a (db_status input.status) submission h i f
          (db_status_terminal input.status))
  subject-Kept t a none none h i e f = rw (e, f) (rolled_back _)

  -- Locking the task changes nothing.
  lock_kept :
      (t : Tables P) (a : AttemptRow) (o : Option ℕ)
      → a.task_id ≡ o
      → After (λ _ u. u ≡ t) (lock_task_of ledgers input a t)
  unfolding lock_task_of
  lock_kept t a none e = rw e (kept refl)
  lock_kept t a (some k) e =
      rw e (read_After (λ j. j.id == k) t.tasks t (λ _ u. ok (tt, u)) (λ x i q. kept refl))

  attempt-Kept :
      (t : Tables P) (id : ℕ) → IsConsistent t → Kept (complete_attempt ledgers input id t)
  unfolding complete_attempt
  attempt-Kept t id h =
      read_After (λ a. a.id == id) t.attempts t _
        (λ seen i e. then_After (lock_task_of ledgers input seen t) _ (
          After-imp _ _ (lock_task_of ledgers input seen t)
            (λ _ u same.
              read_After (λ a. a.id == id) u.attempts u _
                (λ a j q.
                  if_After (terminal_status a.status) _ _ (λ d. kept (rw same h))
                    (λ d. subject-Kept u a a.run_id a.submission_id (rw same h) j refl refl)))
            (lock_kept t seen seen.task_id refl)))

  pub complete_kept :
      (t : Tables P) (id : ℕ)
      → IsConsistent t
      → IsConsistent (complete_judge_attempt_result ledgers input id t).1
  unfolding complete_judge_attempt_result
  complete_kept t id h = settle-After IsConsistent _ t h (attempt-Kept t id h)
