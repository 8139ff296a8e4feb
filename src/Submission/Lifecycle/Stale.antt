-- ===== src/Submission/Lifecycle/Stale.antt =====
-- The recovery of stale judge tasks: internal/submission/reconciler.go over the statement
-- ResetStaleJudgeTasks of internal/postgres/db/submissions.sql.go.
use soj.Prelude.{
  ℕ, zero, suc, ◌≤◌, ◌≡◌, refl, ap, Bool, true, false, Bool-cases, ◌&&◌, not, inl, inr, Option,
  none, some, List, [], ◌∷◌, filter, any, count, take, length, length-map, arith, ◌==◌, String,
}
use soj.Prelude.Sort.{sort, count-sort, length-sort}
use soj.Contest.Types.{Time}
use soj.Submission.Tables.{TaskRow, SubmissionRow, Tables, set, update, refers, is_null}
use soj.Submission.Tables.Rows.{In, map-In, any-In, count-In}
use soj.Submission.Tables.Tasks.{
  runs_before, claimed, is_claimed, claim_tasks, claim_pending_judge_tasks, dispatching_row,
  due_submission,
}
use soj.Submission.Tables.Submissions.{is_stale, is_open, reset_task, reset_stale_judge_tasks}

filter-In :
    {A : Type 0} (p : A → Bool) (x : A) (xs : List A) → In x xs → p x ≡ true → In x (filter p xs)
filter-In p x [] i e = i
filter-In p x (y ∷ xs) (inl h) e = rw (← h, e) (inl refl)
filter-In p x (y ∷ xs) (inr h) e = elim (Bool-cases (p y)) [
  | inl q ↦ rw q (inr (filter-In p x xs h e))
  | inr q ↦ rw q (filter-In p x xs h e)
]

take_all : {A : Type 0} (n : ℕ) (xs : List A) → length xs ≤ n → take n xs ≡ xs
take_all zero [] h = refl
take_all zero (x ∷ xs) h = absurd (omega (arith, h))
take_all (suc n) [] h = refl
take_all (suc n) (x ∷ xs) h = ap (λ l. x ∷ l) (take_all n xs (omega (arith, h)))

count-any : {A : Type 0} (p : A → Bool) (xs : List A) → 1 ≤ count p xs → any p xs ≡ true
count-any p [] h = absurd (omega (arith, h))
count-any p (x ∷ xs) h = ground (arith, count-any p xs)

length-filter_le : {A : Type 0} (p : A → Bool) (xs : List A) → length (filter p xs) ≤ length xs
length-filter_le p [] = omega arith
length-filter_le p (x ∷ xs) = ground (arith, length-filter_le p xs)

-- A due task that nobody holds is claimed, if the limit leaves room for every task.
due_claimed :
    (due : TaskRow → Bool) (locked : ℕ → Bool) (limit : ℕ) (tasks : List TaskRow) (j : TaskRow)
    → length tasks ≤ limit
    → In j tasks
    → due j ≡ true
    → locked j.id ≡ false
    → any (λ c. j.id == c.id) (claimed due locked limit tasks) ≡ true
unfolding claimed
due_claimed due locked limit tasks j room i d free =
    rw
      (take_all limit (sort runs_before free_due)
        (omega (arith, room, length-sort runs_before free_due, length-filter_le test tasks)))
      (count-any same (sort runs_before free_due) (
        omega (
          arith,
          count-sort runs_before same free_due,
          count-In same j free_due (filter-In test j tasks i (ground arith)) (ground arith),
        )))
  where
    test : TaskRow → Bool
    test row = due row && not (locked row.id)

    free_due : List TaskRow
    free_due = filter test tasks

    same : TaskRow → Bool
    same c = j.id == c.id

refers-not_null : (o : Option ℕ) (k : ℕ) → refers o k ≡ true → is_null o ≡ false
refers-not_null none k e = ground arith
refers-not_null (some n) k e = refl

stale-not_null :
    (stale_before : Time) (submissions : List SubmissionRow) (j : TaskRow)
    → is_stale stale_before submissions j ≡ true
    → is_null j.submission_id ≡ false
stale-not_null stale_before submissions j e =
    let (s, i, q) =
      any-In (λ s. refers j.submission_id s.id && is_open s.status) submissions (ground arith) in
    refers-not_null j.submission_id s.id (ground arith)

module _ {P : Type 0} (t : Tables P) (stale_before : Time) (reason : Option String) where
  abbrev after_reset : Tables P
  after_reset = (reset_stale_judge_tasks stale_before reason t).1

  -- A stalled task of a submission that is not judged is in the next claim after a reset, as a task
  -- that is being dispatched, if no transaction holds it and the limit leaves room for every task.
  pub reset_reclaimed :
      (locked : ℕ → Bool) (limit : ℕ) (j : TaskRow)
      → In j t.tasks
      → is_stale stale_before t.submissions j ≡ true
      → length t.tasks ≤ limit
      → locked j.id ≡ false
      → In
          (dispatching_row t.now (reset_task reason t.now j))
          (claim_pending_judge_tasks locked limit after_reset).0
  unfolding reset_stale_judge_tasks claim_pending_judge_tasks claim_tasks
  reset_reclaimed locked limit j i e room free =
      map-In (dispatching_row t.now) back (filter (is_claimed chosen) tasks) (
        filter-In (is_claimed chosen) back tasks there (
          both_true (
            due_claimed (due_submission t.now) locked limit tasks back
              (rw (length-map (set stale reset) t.tasks) room) there due free)))
    where
      stale : TaskRow → Bool
      stale = is_stale stale_before t.submissions

      reset : TaskRow → TaskRow
      reset = reset_task reason t.now

      tasks : List TaskRow
      tasks = update stale reset t.tasks

      chosen : List TaskRow
      chosen = claimed (due_submission t.now) locked limit tasks

      back : TaskRow
      back = reset j

      moved : set stale reset j ≡ back
      moved = rw e refl

      there : In back tasks
      there = rw (← moved) (map-In (set stale reset) j t.tasks i)

      due : due_submission t.now back ≡ true
      due = ground (arith, stale-not_null stale_before t.submissions j e)

      both_true : {b : Bool} → b ≡ true → (b && true) ≡ true
      both_true q = ground arith

  -- A task of a run is left as it is, however long it has stalled.
  pub reset_leaves_runs :
      (j : TaskRow) → In j t.tasks → j.submission_id ≡ none → In j after_reset.tasks
  unfolding reset_stale_judge_tasks
  reset_leaves_runs j i e =
      rw (← unmoved) (map-In (set stale (reset_task reason t.now)) j t.tasks i)
    where
      stale : TaskRow → Bool
      stale = is_stale stale_before t.submissions

      not_stale : stale j ≡ false
      not_stale = elim (Bool-cases (stale j)) [
        | inr q ↦ q
        | inl q ↦ absurd (ground (arith, e, stale-not_null stale_before t.submissions j q))
      ]

      unmoved : set stale (reset_task reason t.now) j ≡ j
      unmoved = rw not_stale refl
