-- ===== src/Submission/Lifecycle/Failures.antt =====
-- The transactions of internal/submission that fail a submission or recover a failed one.
use soj.Prelude.{
  some_injective, ℕ, ◌≡◌, refl, Bool, true, false, Option, none, some, String, arith, ◌==◌, map,
  sym, ap, ◌∙◌, count, ◌≤◌,
}
use soj.AppError.{ok}
use soj.Submission.Status.{terminal_status}
use soj.Submission.Tables.{TaskRow, SubmissionRow, Tables, set, update, refers}
use soj.Submission.Tables.Rows.{In, unique, set-cases, set_keeps, map_id}
use soj.Submission.Tables.Tasks.{is_settled, task_in, in_flight, dead_row, mark_task_dead}
use soj.Submission.Tables.Submissions.{submission_in, is_open, system_error_row, set_system_error}
use soj.Submission.Repository.{Ledgers, text, mark_submission_system_error, fail_subject, dead_task}
use soj.Submission.Lifecycle.{IsConsistent, Moves-IsConsistent}
use soj.Submission.Lifecycle.Rules.{
  After, kept, rolled_back, read_After, if_After, write-After, put-After, update_After,
  update_or_After, In-none, then_After, After-imp,
}
use soj.Submission.Lifecycle.Transactions.{Kept}

-- `u` is `t` with the submission `id` judged, if it was not.
pub record Judged {P : Type 0} (id : ℕ) (t u : Tables P) : Type 0 where
  pub change : SubmissionRow → SubmissionRow
  pub same_id : (s : SubmissionRow) → (change s).id ≡ s.id
  pub tasks : u.tasks ≡ t.tasks
  pub submissions : u.submissions ≡ map change t.submissions
  pub attempts : u.attempts ≡ t.attempts
  pub results : u.results ≡ t.results
  pub stays :
      (s : SubmissionRow)
      → terminal_status s.status ≡ true
      → terminal_status (change s).status ≡ true
  pub over :
      (s : SubmissionRow)
      → In s t.submissions
      → (s.id == id) ≡ true
      → terminal_status (change s).status ≡ true

pub not_open :
    (s : SubmissionRow) (id : ℕ)
    → submission_in id is_open s ≡ false
    → (s.id == id) ≡ true
    → terminal_status s.status ≡ true
not_open s id q e = ground arith

module _ {P L : Type 0} (ledgers : Ledgers P L) (t : Tables P)
    (one_each : (k : ℕ) → count (λ (s : SubmissionRow). s.id == k) t.submissions ≤ 1) where
  -- The submission is judged already.
  already :
      (id : ℕ) (s : SubmissionRow)
      → In s t.submissions
      → (s.id == id) ≡ true
      → terminal_status s.status ≡ true
      → Judged id t t
  already id s i e d = record {
    change = λ r. r;
    same_id = λ r. refl;
    tasks = refl;
    submissions = sym (map_id t.submissions);
    attempts = refl;
    results = refl;
    stays = λ r k. k;
    over = λ r l f.
        ap (λ (x : SubmissionRow). terminal_status x.status)
          (unique (λ x. x.id == id) r s t.submissions (one_each id) l i f e)
        ∙ d;
  }

  failed :
      (id : ℕ) (reason : Option String) (p : P)
      → Judged id t (record t {
        submissions =
            update (submission_in id is_open) (system_error_row reason t.now) t.submissions;
        others = p;
      })
  failed id reason p = record {
    change = set (submission_in id is_open) (system_error_row reason t.now);
    same_id =
        set_keeps (submission_in id is_open) (system_error_row reason t.now) (λ s. s.id)
          (λ s. refl);
    tasks = refl;
    submissions = refl;
    attempts = refl;
    results = refl;
    stays = λ s d.
        set-cases (submission_in id is_open) (system_error_row reason t.now)
          (λ r. terminal_status r.status ≡ true) s (λ q. refl) (λ q. d);
    over = λ s i e.
        set-cases (submission_in id is_open) (system_error_row reason t.now)
          (λ r. terminal_status r.status ≡ true) s (λ q. refl) (λ q. not_open s id q e);
  }

  system_error_Judged :
      (id : ℕ) (reason : String)
      → After (λ _ u. Judged id t u) (mark_submission_system_error ledgers id reason t)
  unfolding mark_submission_system_error set_system_error
  system_error_Judged id reason =
      read_After (λ s. s.id == id) t.submissions t _
        (λ s i e.
          if_After (terminal_status s.status) _ _ (λ d. kept (already id s i e d))
            (λ d. write-After (ledgers.lock_contest_problem_projection s t.others) t _ (λ lock p.
              update_or_After (submission_in id is_open) (system_error_row (text reason) t.now)
                t.submissions _ _ _
                (λ none.
                  absurd (In-none (submission_in id is_open) s t.submissions none i (ground arith)))
                (λ x l q.
                  let row = system_error_row (text reason) t.now x in
                  let u = record t {
                    submissions =
                        update (submission_in id is_open) (system_error_row (text reason) t.now)
                          t.submissions;
                    others = p;
                  } in
                  put-After (ledgers.rebuild_contest_problem_result u row lock) u
                    (λ _ v. ok (row, v)) (λ p'. kept (failed id (text reason) p'))))))

pub task_in-id : (id : ℕ) (k : TaskRow) → task_in id in_flight k ≡ true → (k.id == id) ≡ true
task_in-id id k q = ground arith

pub refers-some : (o : Option ℕ) (n k : ℕ) → o ≡ some n → refers o k ≡ true → (k == n) ≡ true
refers-some none n k e r = ground arith
refers-some (some m) n k e r = ground (arith, some_injective e)

module _ {P L : Type 0} (ledgers : Ledgers P L) (t : Tables P) (h : IsConsistent t) where
  -- The task `x` is dead and its submission judged.
  dead_Moves :
      (id : ℕ) (reason : Option String) (x : TaskRow) (submission : ℕ) (p : P) (u : Tables P)
      → In x t.tasks
      → task_in id in_flight x ≡ true
      → x.submission_id ≡ some submission
      → Judged submission
          (record t { tasks = update (task_in id in_flight) (dead_row reason t.now) t.tasks })
          u
      → IsConsistent (record u { others = p })
  dead_Moves id reason x submission p u i e of j =
      Moves-IsConsistent (set dying dies) j.change t (record u { others = p })
        (set_keeps dying dies (λ k. k.id) (λ k. refl))
        (set_keeps dying dies (λ k. k.submission_id) (λ k. refl)) j.same_id
        (λ k s ik is r.
          set-cases dying dies
            (λ k. is_settled k.status ≡ true → terminal_status (j.change s).status ≡ true) k
            (λ q d. j.over s is (refers-some k.submission_id submission s.id (same k ik q ∙ of) r))
            (λ q d. j.stays s (h.settled k s ik is r d)))
        (record {
          tasks = j.tasks;
          submissions = j.submissions;
          attempts = λ b ib. (b, rw (← j.attempts) ib, refl, refl, refl);
          attempt_key = λ k. rw j.attempts (h.attempt_key k);
          judged = λ r ir. h.judged r (rw (← j.results) ir);
        })
        h
    where
      dying : TaskRow → Bool
      dying = task_in id in_flight

      dies : TaskRow → TaskRow
      dies = dead_row reason t.now

      same : (k : TaskRow) → In k t.tasks → dying k ≡ true → k.submission_id ≡ x.submission_id
      same k ik q =
          ap (λ (y : TaskRow). y.submission_id)
            (unique (λ y. y.id == id) k x t.tasks (h.task_key id) ik i (task_in-id id k q)
              (task_in-id id x e))

  subject-Kept :
      (id : ℕ) (reason : String) (x : TaskRow)
      → In x t.tasks
      → task_in id in_flight x ≡ true
      → (o : Option ℕ) → x.submission_id ≡ o
      → Kept (
          fail_subject ledgers id reason (dead_row (text reason) t.now x) (record t {
            tasks = update (task_in id in_flight) (dead_row (text reason) t.now) t.tasks;
          }))
  unfolding fail_subject
  subject-Kept id reason x i e none of = rw of (rolled_back _)
  subject-Kept id reason x i e (some submission) of =
      let dying = record t {
        tasks = update (task_in id in_flight) (dead_row (text reason) t.now) t.tasks;
      } in
      rw of (
        then_After (mark_submission_system_error ledgers submission reason dying) _ (
          After-imp _ _ (mark_submission_system_error ledgers submission reason dying)
            (λ a u j.
              put-After (ledgers.fail_active_rejudge_item id (text reason) u.others) u _
                (λ p. kept (dead_Moves id (text reason) x submission p u i e of j)))
            (system_error_Judged ledgers dying h.submission_key submission reason)))

  pub dead_task-Kept : (id : ℕ) (reason : String) → Kept (dead_task ledgers id reason t)
  unfolding dead_task mark_task_dead
  dead_task-Kept id reason =
      update_After (task_in id in_flight) (dead_row (text reason) t.now) t.tasks _ _
        (λ x i e. subject-Kept id reason x i e x.submission_id refl)
