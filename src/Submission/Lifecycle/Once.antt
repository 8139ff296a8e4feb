-- ===== src/Submission/Lifecycle/Once.antt =====
-- CompleteJudgeAttemptResult of internal/submission/judge_repository.go, delivered once and again.
use soj.Prelude.{◌≢◌, ℕ, ◌≡◌, refl, Bool, true, false, Option, none, some, arith, ◌==◌, ==_iff}
use soj.AppError.{Result, ok, err}
use soj.AppError.Bind.{ok_injective}
use soj.Submission.Status.{Status, terminal_status, db_status, db_status_terminal}
use soj.Submission.Tables.{AttemptRow, Tables, update, settle}
use soj.Submission.Tables.Submissions.{is_open}
use soj.Submission.Tables.Attempts.{UpdateRunStatusParams, run_in, finished_run, update_run_status}
use soj.Submission.Repository.{Ledgers}
use soj.Submission.Repository.Complete.{
  CompleteJudgeAttemptResultInput, run_params, finish_judge_attempt, complete_submission_attempt,
  complete_run_attempt, complete_subject, lock_task_of, complete_attempt,
  complete_judge_attempt_result,
}
use soj.Submission.Lifecycle.Rules.{
  After, kept, rolled_back, then_After, After-imp, read_After, if_After, update_After,
}
use soj.Submission.Lifecycle.Outcome.{IsFinished, Outcome, unstored, finish_outcome, open_outcome}

module _ {P L : Type 0} (ledgers : Ledgers P L) (input : CompleteJudgeAttemptResultInput) where
  submission_outcome :
      (t : Tables P) (id : ℕ) (status : Status) (submission : ℕ)
      → terminal_status status ≡ true
      → After (Outcome id t) (complete_submission_attempt ledgers input submission id status t)
  unfolding complete_submission_attempt
  submission_outcome t id status submission d =
      read_After (λ s. s.id == submission) t.submissions t _
        (λ row l e.
          if_After (terminal_status row.status) _ _ (λ o. kept (unstored id t))
            (λ o. open_outcome ledgers input t id status submission row d l e o))

  run_outcome :
      (t : Tables P) (id : ℕ) (status : Status) (run : ℕ)
      → terminal_status status ≡ true
      → After (Outcome id t) (complete_run_attempt ledgers input run id status t)
  unfolding complete_run_attempt update_run_status
  run_outcome t id status run d =
      read_After (λ r. r.id == run) t.runs t _
        (λ row l e.
          if_After (terminal_status row.status) _ _ (λ o. kept (unstored id t))
            (λ o. update_After (run_in run is_open) (finished_run params t.now) t.runs _ _ (λ x j q.
              then_After (finish_judge_attempt ledgers input id status after) _ (
                After-imp _ _ (finish_judge_attempt ledgers input id status after)
                  (λ y u k. kept ((λ s i f. rw k.0 i), λ c. k.1))
                  (finish_outcome ledgers input after id status d)))))
    where
      params : UpdateRunStatusParams
      params = run_params run input.result status

      after : Tables P
      after = record t { runs = update (run_in run is_open) (finished_run params t.now) t.runs }

  subject_outcome :
      (t : Tables P) (a : AttemptRow) (r o : Option ℕ)
      → a.run_id ≡ r
      → a.submission_id ≡ o
      → After (Outcome a.id t) (complete_subject ledgers input a t)
  unfolding complete_subject
  subject_outcome t a (some run) o e f =
      rw e (run_outcome t a.id (db_status input.status) run (db_status_terminal input.status))
  subject_outcome t a none (some submission) e f =
      rw (e, f)
        (submission_outcome t a.id (db_status input.status) submission
          (db_status_terminal input.status))
  subject_outcome t a none none e f = rw (e, f) (rolled_back _)

  lock_outcome :
      (t : Tables P) (a : AttemptRow) (o : Option ℕ)
      → a.task_id ≡ o
      → After (λ _ u. u ≡ t) (lock_task_of ledgers input a t)
  unfolding lock_task_of
  lock_outcome t a none e = rw e (kept refl)
  lock_outcome t a (some k) e =
      rw e (read_After (λ j. j.id == k) t.tasks t (λ _ u. ok (tt, u)) (λ x i q. kept refl))

  -- What an attempt that is judged already leads to, and what any other does.
  pub attempt_outcome :
      (t : Tables P) (id : ℕ)
      → After
          (λ b u. Outcome id t b u × (IsFinished id t → (b ≡ false) × (u ≡ t)))
          (complete_attempt ledgers input id t)
  unfolding complete_attempt
  attempt_outcome t id =
      read_After (λ a. a.id == id) t.attempts t _
        (λ seen i e. then_After (lock_task_of ledgers input seen t) _ (
          After-imp _ _ (lock_task_of ledgers input seen t)
            (λ _ u same.
              read_After (λ a. a.id == id) u.attempts u _
                (λ a j q.
                  if_After (terminal_status a.status) _ _
                    (λ d. kept ((rw same (unstored id t)), λ f. (refl, same)))
                    (λ d.
                      After-imp _ _ (complete_subject ledgers input a u)
                        (λ b w k.
                          let this : a.id ≡ id = (==_iff a.id id).0 q in
                          (
                            ((λ s i. k.0 s (rw same i)), λ c x i r. k.1 c x i (rw this r)),
                            λ f. absurd (ground (arith, f a (rw (← same) j) q, d)),
                          ))
                        (subject_outcome u a a.run_id a.submission_id refl refl))))
            (lock_outcome t seen seen.task_id refl)))

  pub stored_finishes :
      (t : Tables P) (id : ℕ)
      → (complete_judge_attempt_result ledgers input id t).0 ≡ ok true
      → IsFinished id (complete_judge_attempt_result ledgers input id t).1
  unfolding complete_judge_attempt_result
  stored_finishes t id e = settled (complete_attempt ledgers input id t) (attempt_outcome t id) e
    where
      settled :
          (m : Result (Bool × Tables P))
          → After (λ b u. Outcome id t b u × (IsFinished id t → (b ≡ false) × (u ≡ t))) m
          → (settle m t).0 ≡ ok true
          → IsFinished id (settle m t).1
      settled (ok (b, u)) (kept h) e = h.0.1 (ok_injective e)
      settled (err failure) h e = ground arith

  pub finished_refused :
      (t : Tables P) (id : ℕ)
      → IsFinished id t
      → ((complete_judge_attempt_result ledgers input id t).0 ≢ ok true)
        × ((complete_judge_attempt_result ledgers input id t).1 ≡ t)
  unfolding complete_judge_attempt_result
  finished_refused t id f = settled (complete_attempt ledgers input id t) (attempt_outcome t id)
    where
      settled :
          (m : Result (Bool × Tables P))
          → After (λ b u. Outcome id t b u × (IsFinished id t → (b ≡ false) × (u ≡ t))) m
          → ((settle m t).0 ≢ ok true) × ((settle m t).1 ≡ t)
      settled (ok (b, u)) (kept h) = ((λ e. ground (arith, ok_injective e, (h.1 f).0)), (h.1 f).1)
      settled (err failure) h = ((λ e. ground (arith, e)), refl)

module _ {P L : Type 0} (ledgers : Ledgers P L) where
  -- The result of an attempt is stored at most once: after a delivery that is stored, any other result
  -- for the same attempt is not stored and changes nothing.
  pub stored_once :
      (t : Tables P) (id : ℕ) (input again : CompleteJudgeAttemptResultInput)
      → (complete_judge_attempt_result ledgers input id t).0 ≡ ok true
      → let u = (complete_judge_attempt_result ledgers input id t).1 in
        ((complete_judge_attempt_result ledgers again id u).0 ≢ ok true)
        × ((complete_judge_attempt_result ledgers again id u).1 ≡ u)
  stored_once t id input again e =
      finished_refused ledgers again _ id (stored_finishes ledgers input t id e)
