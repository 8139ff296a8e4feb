-- ===== src/Submission/Lifecycle/Recovery.antt =====
-- The transaction of internal/submission/judge_task_repository.go that recovers a dead task.
use soj.Prelude.{
  ℕ, ◌≡◌, refl, ap, sym, ◌∙◌, Bool, true, false, Option, none, some, String, List, arith, ◌==◌,
  filter,
}
use soj.AppError.{ok}
use soj.Contest.Types.{Time}
use soj.Submission.Status.{terminal_status}
use soj.Submission.Tables.{TaskRow, SubmissionRow, Tables, set, update, returned, refers}
use soj.Submission.Tables.Rows.{In, In-map, In-filter, any-In, unique, set-cases, set_keeps}
use soj.Submission.Tables.Tasks.{is_settled}
use soj.Submission.Tables.Submissions.{
  of_any, recoverable, recovered_task, recovered_submission, recover_dead_task,
}
use soj.Submission.Repository.{
  Ledgers, text, rebuild_recovered, recover_subject, recover_dead_judge_task,
}
use soj.Submission.Lifecycle.{IsConsistent, Moves-IsConsistent, others_kept}
use soj.Submission.Lifecycle.Rules.{
  kept, rolled_back, read_After, if_After, write-After, put-After, update_After, settle-After,
}
use soj.Submission.Lifecycle.Transactions.{Kept}

-- A submission that a statement reaches through the rows it returns is that of a row it selected.
pub of_any-returned :
    (p : TaskRow → Bool) (f : TaskRow → TaskRow) (tasks : List TaskRow) (s : SubmissionRow)
    → ((y : TaskRow) → (f y).submission_id ≡ y.submission_id)
    → of_any (returned p f tasks) s ≡ true
    → (y : TaskRow) × In y tasks × (p y ≡ true) × (refers y.submission_id s.id ≡ true)
of_any-returned p f tasks s keeps e =
    let (r, ir, er) = any-In (λ task. refers task.submission_id s.id) (returned p f tasks) e in
    let (y, iy, ey) = In-map f r (filter p tasks) ir in
    let (j, q) = In-filter p y tasks iy in
    (
      y,
      j,
      q,
      ap (λ o. refers o s.id) (sym (ap (λ (x : TaskRow). x.submission_id) ey ∙ keeps y)) ∙ er,
    )

module _ {P : Type 0} (t : Tables P) (h : IsConsistent t) (id : ℕ) (next_run_at : Time)
    (reason : Option String) where
  abbrev dead : TaskRow → Bool
  dead = recoverable id t.submissions

  abbrev revived : TaskRow → TaskRow
  revived = recovered_task next_run_at reason t.now

  abbrev reopened : SubmissionRow → SubmissionRow
  reopened = recovered_submission reason t.now

  abbrev of_revived : SubmissionRow → Bool
  of_revived = of_any (returned dead revived t.tasks)

  -- A settled task that is not the recovered one is of another submission.
  elsewhere :
      (k : TaskRow) (s : SubmissionRow)
      → In k t.tasks
      → refers k.submission_id s.id ≡ true
      → dead k ≡ false
      → of_revived s ≡ true
      → ⊥
  elsewhere k s i r q o =
      let (y, iy, qy, ry) = of_any-returned dead revived t.tasks s (λ y. refl) o in
      let same : k ≡ y =
        unique (λ j. refers j.submission_id s.id) k y t.tasks (h.subject_key s.id) i iy r ry in
      ground (arith, ap dead same)

  recovered_kept :
      (p : P)
      → IsConsistent (record t {
        tasks = update dead revived t.tasks;
        submissions = update of_revived reopened t.submissions;
        others = p;
      })
  recovered_kept p =
      Moves-IsConsistent (set dead revived) (set of_revived reopened) t _
        (set_keeps dead revived (λ k. k.id) (λ k. refl))
        (set_keeps dead revived (λ k. k.submission_id) (λ k. refl))
        (set_keeps of_revived reopened (λ s. s.id) (λ s. refl))
        (λ k s i l r.
          set-cases dead revived
            (λ j.
              is_settled j.status ≡ true
              → terminal_status (set of_revived reopened s).status ≡ true)
            k (λ q d. ground arith)
            (λ q d.
              set-cases of_revived reopened (λ x. terminal_status x.status ≡ true) s
                (λ o. absurd (elsewhere k s i r q o)) (λ o. h.settled k s i l r d)))
        (record {
          tasks = refl;
          submissions = refl;
          attempts = λ b i. (b, i, refl, refl, refl);
          attempt_key = h.attempt_key;
          judged = h.judged;
        })
        h

module _ {P L : Type 0} (ledgers : Ledgers P L) where
  rebuild-Kept :
      (t : Tables P) (submission : ℕ) (lock : L) (task : TaskRow)
      → IsConsistent t
      → Kept (rebuild_recovered ledgers submission lock task t)
  unfolding rebuild_recovered
  rebuild-Kept t submission lock task h =
      if_After (ledgers.enabled lock) _ _
        (λ e.
          read_After (λ s. s.id == submission) t.submissions t _
            (λ s i f.
              put-After (ledgers.rebuild_contest_problem_result t s lock) t (λ _ u. ok (task, u))
                (λ p. kept (others_kept t p h))))
        (λ e. kept h)

  subject-Kept :
      (t : Tables P) (id : ℕ) (next_run_at : Time) (reason : String) (x : TaskRow) (o : Option ℕ)
      → IsConsistent t
      → x.submission_id ≡ o
      → Kept (recover_subject ledgers id next_run_at reason x t)
  unfolding recover_subject recover_dead_task
  subject-Kept t id next_run_at reason x none h of = rw of (rolled_back _)
  subject-Kept t id next_run_at reason x (some submission) h of = rw of (
      read_After (λ s. s.id == submission) t.submissions t _
        (λ s i e. write-After (ledgers.lock_contest_problem_projection s t.others) t _ (λ lock p.
          update_After (recoverable id t.submissions)
            (recovered_task next_run_at (text reason) t.now) t.tasks _ _
            (λ y j q.
              rebuild-Kept _ submission lock _
                (recovered_kept t h id next_run_at (text reason) p)))))

  pub recover_kept :
      (t : Tables P) (id : ℕ) (next_run_at : Time) (reason : String)
      → IsConsistent t
      → IsConsistent (recover_dead_judge_task ledgers id next_run_at reason t).1
  unfolding recover_dead_judge_task
  recover_kept t id next_run_at reason h = settle-After IsConsistent _ t h (
      read_After (λ j. j.id == id) t.tasks t _
        (λ x i e. subject-Kept t id next_run_at reason x x.submission_id h refl))
