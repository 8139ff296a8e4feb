-- ===== src/Submission/Lifecycle/Refusals.antt =====
-- What the transactions of internal/submission/judge_task_repository.go do with a task that judges no
-- submission.
use soj.Prelude.{ℕ, ◌≡◌, refl, true, false, none, String, ◌==◌}
use soj.AppError.{Result, ok, err, is_ok}
use soj.Contest.Types.{Time}
use soj.Submission.Tables.{TaskRow, Tables, settle}
use soj.Submission.Tables.Rows.{In}
use soj.Submission.Tables.Tasks.{task_in, in_flight, dead_row, mark_task_dead}
use soj.Submission.Repository.{
  Ledgers, text, fail_subject, dead_task, mark_judge_task_dead, recover_subject,
  recover_dead_judge_task,
}
use soj.Submission.Lifecycle.Rules.{After, kept, rolled_back, read_After, update_After}
use soj.Submission.Lifecycle.Failures.{task_in-id}

-- A transaction that never ends well returns an error and changes nothing.
refused :
    {T A : Type 0} (m : Result (A × T)) (t : T)
    → After (λ _ u. ⊥) m
    → (is_ok (settle m t).0 ≡ false) × ((settle m t).1 ≡ t)
refused (ok (a, u)) t (kept n) = absurd n
refused (err e) t h = (refl, refl)

module _ {P L : Type 0} (ledgers : Ledgers P L) where
  fail_refused :
      (t : Tables P) (id : ℕ) (reason : String) (x : TaskRow)
      → x.submission_id ≡ none
      → After (λ _ u. ⊥) (fail_subject ledgers id reason x t)
  unfolding fail_subject
  fail_refused t id reason x e = rw e (rolled_back _)

  recover_refused :
      (t : Tables P) (id : ℕ) (at : Time) (reason : String) (x : TaskRow)
      → x.submission_id ≡ none
      → After (λ _ u. ⊥) (recover_subject ledgers id at reason x t)
  unfolding recover_subject
  recover_refused t id at reason x e = rw e (rolled_back _)

  -- Neither failing nor recovering a task that has no submission succeeds, and neither changes anything,
  -- in particular not the task that the first statement of the failure had marked dead.
  pub run_refused :
      (t : Tables P) (id : ℕ) (at : Time) (reason : String)
      → ((j : TaskRow) → In j t.tasks → (j.id == id) ≡ true → j.submission_id ≡ none)
      → (is_ok (mark_judge_task_dead ledgers id reason t).0 ≡ false)
        × ((mark_judge_task_dead ledgers id reason t).1 ≡ t)
        × (is_ok (recover_dead_judge_task ledgers id at reason t).0 ≡ false)
        × ((recover_dead_judge_task ledgers id at reason t).1 ≡ t)
  unfolding mark_judge_task_dead dead_task mark_task_dead recover_dead_judge_task
  run_refused t id at reason run =
      let (no_dead, same) = refused (dead_task ledgers id reason t) t (
        update_After (task_in id in_flight) (dead_row (text reason) t.now) t.tasks _ _ (λ x i e.
          fail_refused _ id reason (dead_row (text reason) t.now x)
            (run x i (task_in-id id x e)))) in
      let (no_recovery, same') = refused _ t (
        read_After (λ j. j.id == id) t.tasks t (λ x. recover_subject ledgers id at reason x)
          (λ x i e. recover_refused t id at reason x (run x i e))) in
      (no_dead, same, no_recovery, same')
