-- ===== src/Submission/Lifecycle/Completion.antt =====
-- The transaction of internal/submission/judge_repository.go that stores the result of an attempt.
use soj.Prelude.Int.{pos}
use soj.Prelude.{
  ◌⊎◌, ℕ, ◌≡◌, refl, ap, sym, ◌∙◌, Bool, true, Bool-cases, inl, inr, some, List, arith, ◌==◌, ◌++◌,
  [], ◌∷◌, any,
}
use soj.Contest.Types.{Time}
use soj.Submission.Status.{terminal_status}
use soj.Submission.Tables.{
  TaskState, TaskRow, SubmissionRow, AttemptRow, ResultRow, Tables, set, update, refers,
}
use soj.Submission.Tables.Rows.{In, In-map, count-map, set-cases, set_keeps, map_id}
use soj.Submission.Tables.Tasks.{is_settled, task_in, in_flight, moved_row}
use soj.Submission.Tables.Attempts.{
  MarkJudgeAttemptFinishedParams, finished_attempt, overwritten, upsert_submission_result,
}
use soj.Submission.Lifecycle.{IsConsistent, Moves-IsConsistent}

In-append : {A : Type 0} (x : A) (xs ys : List A) → In x (xs ++ ys) → In x xs ⊎ In x ys
In-append x [] ys i = inr i
In-append x (y ∷ xs) ys (inl h) = inl (inl h)
In-append x (y ∷ xs) ys (inr h) = elim (In-append x xs ys h) [ inl i ↦ inl (inr i) | inr i ↦ inr i ]

module _ {P : Type 0} (t : Tables P) (h : IsConsistent t) where
  -- The attempts change, not what links them.
  pub attempts_kept :
      (p : AttemptRow → Bool) (arg : MarkJudgeAttemptFinishedParams) (now : Time)
      → IsConsistent (record t { attempts = update p (finished_attempt arg now) t.attempts })
  attempts_kept p arg now =
      Moves-IsConsistent (λ j. j) (λ s. s) t _ (λ j. refl) (λ j. refl) (λ s. refl) h.settled
        (record {
          tasks = sym (map_id t.tasks);
          submissions = sym (map_id t.submissions);
          attempt_key = λ k.
              rw
                (count-map (set p f) (λ a. a.id == k) (λ a. a.id == k) t.attempts
                  (λ a. ap (λ n. n == k) (set_keeps p f (λ b. b.id) (λ b. refl) a)))
                (h.attempt_key k);
          attempts = λ b i.
              let (a, ia, ea) = In-map (set p f) b t.attempts i in
              (
                a,
                ia,
                ap (λ (c : AttemptRow). c.task_id) ea
                    ∙ set_keeps p f (λ c. c.task_id) (λ c. refl) a,
                ap (λ (c : AttemptRow). c.run_id) ea ∙ set_keeps p f (λ c. c.run_id) (λ c. refl) a,
                ap (λ (c : AttemptRow). c.submission_id) ea
                    ∙ set_keeps p f (λ c. c.submission_id) (λ c. refl) a,
              );
          judged = h.judged;
        })
        h
    where
      f : AttemptRow → AttemptRow
      f = finished_attempt arg now

  -- The task of an attempt is done once the submission of the attempt, if it has one, is judged.
  pub done_kept :
      (x : AttemptRow) (k : ℕ)
      → In x t.attempts
      → x.task_id ≡ some k
      → ((s : SubmissionRow)
          → In s t.submissions
          → refers x.submission_id s.id ≡ true
          → terminal_status s.status ≡ true)
      → IsConsistent (record t {
        tasks = update (task_in k in_flight) (moved_row TaskState.done t.now) t.tasks;
      })
  done_kept x k i e over =
      Moves-IsConsistent (set q f) (λ s. s) t _ (set_keeps q f (λ j. j.id) (λ j. refl))
        (set_keeps q f (λ j. j.submission_id) (λ j. refl)) (λ s. refl)
        (λ j s ij is r.
          set-cases q f (λ y. is_settled y.status ≡ true → terminal_status s.status ≡ true) j
            (λ p d. over s is (ap (λ o. refers o s.id) (sym (h.of_task x j i ij (links j p))) ∙ r))
            (λ p d. h.settled j s ij is r d))
        (record {
          tasks = refl;
          submissions = sym (map_id t.submissions);
          attempt_key = h.attempt_key;
          attempts = λ b ib. (b, ib, refl, refl, refl);
          judged = h.judged;
        })
        h
    where
      q : TaskRow → Bool
      q = task_in k in_flight

      f : TaskRow → TaskRow
      f = moved_row TaskState.done t.now

      links : (j : TaskRow) → q j ≡ true → refers x.task_id j.id ≡ true
      links j p = rw e (ground (arith))

  results_kept :
      (rows : List ResultRow)
      → ((r : ResultRow) → In r rows → terminal_status r.status ≡ true)
      → IsConsistent (record t { results = rows })
  results_kept rows d = record {
    task_key = h.task_key;
    subject_key = h.subject_key;
    submission_key = h.submission_key;
    attempt_key = h.attempt_key;
    settled = h.settled;
    judged = d;
    one_subject = h.one_subject;
    of_task = h.of_task;
  }

  overwritten_judged :
      (new r : ResultRow) (p : ResultRow → Bool)
      → terminal_status new.status ≡ true
      → In r (update p (overwritten new) t.results)
      → terminal_status r.status ≡ true
  overwritten_judged new r p d i =
      let (x, ix, ex) = In-map (set p (overwritten new)) r t.results i in
      rw ex (
        set-cases p (overwritten new) (λ y. terminal_status y.status ≡ true) x (λ q. d)
          (λ q. h.judged x ix))

  appended_judged :
      (new r : ResultRow)
      → terminal_status new.status ≡ true
      → In r (t.results ++ (record new { score = pos 0 } ∷ []))
      → terminal_status r.status ≡ true
  appended_judged new r d i = elim (In-append r t.results (record new { score = pos 0 } ∷ []) i) [
    | inl k ↦ h.judged r k
    | inr (inl e) ↦ ap (λ (x : ResultRow). terminal_status x.status) e ∙ d
    | inr (inr n) ↦ absurd n
  ]

  -- A result with the status of a verdict is stored.
  pub upsert_kept :
      (r : ResultRow)
      → terminal_status r.status ≡ true
      → IsConsistent (upsert_submission_result r t)
  unfolding upsert_submission_result
  upsert_kept r d =
      elim (Bool-cases (any (λ row. row.submission_id == r.submission_id) t.results)) [
        | inl e ↦ rw e (results_kept _ (λ x i. overwritten_judged r x _ d i))
        | inr e ↦ rw e (results_kept _ (λ x i. appended_judged r x d i))
      ]
