-- ===== src/Submission/Lifecycle.antt =====
-- What the transactions of internal/submission keep true of the tables. The keys are indexes and
-- constraints of internal/migrations: the primary keys, `judge_tasks_submission_id_uidx`, and the check
-- that an attempt is of a submission or of a run. An attempt is created for the subject of its task.
pub mod Rules
pub mod Transactions
pub mod Failures
pub mod Recovery
pub mod Refusals
pub mod Completion
pub mod Delivery
pub mod Requests
pub mod Claims
pub mod Stale
pub mod Outcome
pub mod Once
pub mod Verdicts
pub mod Rejudge
pub mod Histories
pub mod Canceled
pub mod Reuse
pub mod Machine
pub mod Traces
pub mod Steps
use soj.Prelude.{List, ℕ, ◌≡◌, Bool, true, false, none, ◌==◌, map, ap, sym, refl, ◌∙◌}
use soj.Submission.Status.{terminal_status}
use soj.Submission.Tables.{
  TaskRow, SubmissionRow, RunRow, AttemptRow, ResultRow, Tables, refers, is_null, set, update,
}
use soj.Submission.Tables.Rows.{In, IsUnique, In-map, count-map, set-cases, set_keeps, map_id}
use soj.Submission.Tables.Tasks.{is_settled}

pub record IsConsistent {P : Type 0} (t : Tables P) : Type 0 where
  pub task_key : IsUnique (λ (row : TaskRow) k. row.id == k) t.tasks
  pub subject_key : IsUnique (λ (row : TaskRow) k. refers row.submission_id k) t.tasks
  pub submission_key : IsUnique (λ (row : SubmissionRow) k. row.id == k) t.submissions
  pub attempt_key : IsUnique (λ (row : AttemptRow) k. row.id == k) t.attempts
  -- A settled task is of a submission that is judged.
  pub settled :
      (j : TaskRow) (s : SubmissionRow)
      → In j t.tasks
      → In s t.submissions
      → refers j.submission_id s.id ≡ true
      → is_settled j.status ≡ true
      → terminal_status s.status ≡ true
  pub judged : (r : ResultRow) → In r t.results → terminal_status r.status ≡ true
  pub one_subject :
      (a : AttemptRow) → In a t.attempts → is_null a.run_id ≡ false → a.submission_id ≡ none
  pub of_task :
      (a : AttemptRow) (j : TaskRow)
      → In a t.attempts
      → In j t.tasks
      → refers a.task_id j.id ≡ true
      → j.submission_id ≡ a.submission_id

-- `f` and `g` are what happened to each task and each submission; attempts keep what links them.
pub record Moves {P : Type 0} (f : TaskRow → TaskRow) (g : SubmissionRow → SubmissionRow)
    (t u : Tables P) : Type 0 where
  pub tasks : u.tasks ≡ map f t.tasks
  pub submissions : u.submissions ≡ map g t.submissions
  pub attempts :
      (b : AttemptRow)
      → In b u.attempts
      → (a : AttemptRow) × In a t.attempts
        × (b.task_id ≡ a.task_id)
        × (b.run_id ≡ a.run_id)
        × (b.submission_id ≡ a.submission_id)
  pub attempt_key : IsUnique (λ (row : AttemptRow) k. row.id == k) u.attempts
  pub judged : (r : ResultRow) → In r u.results → terminal_status r.status ≡ true

module _ {P : Type 0} (f : TaskRow → TaskRow) (g : SubmissionRow → SubmissionRow) (t u : Tables P)
    (task_id : (j : TaskRow) → (f j).id ≡ j.id)
    (task_subject : (j : TaskRow) → (f j).submission_id ≡ j.submission_id)
    (submission_id : (s : SubmissionRow) → (g s).id ≡ s.id) where
  -- Rows that keep their keys need only be looked at in pairs of a task and its submission.
  pub Moves-IsConsistent :
      ((j : TaskRow) (s : SubmissionRow)
        → In j t.tasks
        → In s t.submissions
        → refers j.submission_id s.id ≡ true
        → is_settled (f j).status ≡ true
        → terminal_status (g s).status ≡ true)
      → Moves f g t u
      → IsConsistent t
      → IsConsistent u
  Moves-IsConsistent pairs m h = record {
    task_key = λ k.
        rw
          (
            m.tasks,
            count-map f (λ j. j.id == k) (λ j. j.id == k) t.tasks
                (λ j. ap (λ n. n == k) (task_id j)),
          )
          (h.task_key k);
    subject_key = λ k.
        rw
          (
            m.tasks,
            count-map f (λ j. refers j.submission_id k) (λ j. refers j.submission_id k) t.tasks
                (λ j. ap (λ o. refers o k) (task_subject j)),
          )
          (h.subject_key k);
    submission_key = λ k.
        rw
          (
            m.submissions,
            count-map g (λ s. s.id == k) (λ s. s.id == k) t.submissions
                (λ s. ap (λ n. n == k) (submission_id s)),
          )
          (h.submission_key k);
    attempt_key = m.attempt_key;
    settled = λ j s i l e d.
        let (x, ix, ex) = In-map f j t.tasks (rw (← m.tasks) i) in
        let (y, iy, ey) = In-map g s t.submissions (rw (← m.submissions) l) in
        rw ey (
          pairs x y ix iy
            (ap (λ o. refers o y.id) (sym (task_subject x))
              ∙ ap (refers (f x).submission_id) (sym (submission_id y))
              ∙ rw (← ex, ← ey) e)
            (rw (← ex) d));
    judged = m.judged;
    one_subject =
        λ b i n. let (a, ia, et, er, es) = m.attempts b i in es ∙ h.one_subject a ia (rw (← er) n);
    of_task = λ b j i l e.
        let (a, ia, et, er, es) = m.attempts b i in
        let (x, ix, ex) = In-map f j t.tasks (rw (← m.tasks) l) in
        ap (λ (j : TaskRow). j.submission_id) ex
        ∙ task_subject x
        ∙ h.of_task a x ia ix (ap (refers a.task_id) (sym (task_id x)) ∙ rw (← ex, ← et) e)
        ∙ sym es;
  }

module _ {P : Type 0} (t : Tables P) where
  -- What is kept besides these tables does not matter.
  pub others_kept : (p : P) → IsConsistent t → IsConsistent (record t { others = p })
  others_kept p h = record {
    task_key = h.task_key;
    subject_key = h.subject_key;
    submission_key = h.submission_key;
    attempt_key = h.attempt_key;
    settled = h.settled;
    judged = h.judged;
    one_subject = h.one_subject;
    of_task = h.of_task;
  }

  pub runs_kept : (rows : List RunRow) → IsConsistent t → IsConsistent (record t { runs = rows })
  runs_kept rows h = record {
    task_key = h.task_key;
    subject_key = h.subject_key;
    submission_key = h.submission_key;
    attempt_key = h.attempt_key;
    settled = h.settled;
    judged = h.judged;
    one_subject = h.one_subject;
    of_task = h.of_task;
  }

  module _ (p : TaskRow → Bool) (f : TaskRow → TaskRow) (task_id : (j : TaskRow) → (f j).id ≡ j.id)
      (task_subject : (j : TaskRow) → (f j).submission_id ≡ j.submission_id) where
    -- An update that settles no task.
    pub tasks_kept :
        ((j : TaskRow) → p j ≡ true → is_settled (f j).status ≡ true → is_settled j.status ≡ true)
        → IsConsistent t
        → IsConsistent (record t { tasks = update p f t.tasks })
    tasks_kept quiet h =
        Moves-IsConsistent (set p f) (λ s. s) t (record t { tasks = update p f t.tasks })
          (set_keeps p f (λ j. j.id) task_id) (set_keeps p f (λ j. j.submission_id) task_subject)
          (λ s. refl)
          (λ j s i l e.
            set-cases p f (λ k. is_settled k.status ≡ true → terminal_status s.status ≡ true) j
              (λ q d. h.settled j s i l e (quiet j q d)) (λ q d. h.settled j s i l e d))
          (record {
            tasks = refl;
            submissions = sym (map_id t.submissions);
            attempts = λ b i. (b, i, refl, refl, refl);
            attempt_key = h.attempt_key;
            judged = h.judged;
          })
          h

  module _ (p : SubmissionRow → Bool) (f : SubmissionRow → SubmissionRow)
      (submission_id : (s : SubmissionRow) → (f s).id ≡ s.id) where
    -- An update that opens no judged submission.
    pub submissions_kept :
        ((s : SubmissionRow)
          → p s ≡ true
          → terminal_status s.status ≡ true
          → terminal_status (f s).status ≡ true)
        → IsConsistent t
        → IsConsistent (record t { submissions = update p f t.submissions })
    submissions_kept quiet h =
        Moves-IsConsistent (λ j. j) (set p f) t
          (record t { submissions = update p f t.submissions }) (λ j. refl) (λ j. refl)
          (set_keeps p f (λ s. s.id) submission_id)
          (λ j s i l e d.
            set-cases p f (λ r. terminal_status r.status ≡ true) s
              (λ q. quiet s q (h.settled j s i l e d)) (λ q. h.settled j s i l e d))
          (record {
            tasks = sym (map_id t.tasks);
            submissions = refl;
            attempts = λ b i. (b, i, refl, refl, refl);
            attempt_key = h.attempt_key;
            judged = h.judged;
          })
          h
