-- ===== src/Submission/Lifecycle/Rejudge.antt =====
-- What the rejudge transactions of internal/submission/rejudge_repository.go keep true of the tables.
use soj.Prelude.{
  ℕ, ◌≡◌, refl, ap, sym, ◌∙◌, Bool, true, false, List, [], ◌∷◌, filter, arith, ◌==◌, ==_iff, ◌||◌,
  not, length,
}
use soj.Prelude.Sort.{sort}
use soj.Contest.Types.{Time}
use soj.Submission.Status.{terminal_status}
use soj.Submission.Tables.{TaskRow, SubmissionRow, Tables, one, set, update, refers}
use soj.Submission.Tables.Rows.{In, unique, set-cases, set_keeps}
use soj.Submission.Tables.Tasks.{
  is_settled, rejudgeable, prepared_row, prepare_judge_task_for_rejudge,
}
use soj.Submission.Tables.Submissions.{submission_in, rejudged_row, prepare_submission_for_rejudge}
use soj.Submission.Repository.{Ledgers}
use soj.Submission.Repository.Rejudge.{
  RejudgeTarget, Batches, prepare_target, prepare_targets, create_items, find_targets, lock_tasks,
  lock_submissions, rejudge_submissions, rejudge_problem, rejudge_contest, eligible_of_problem,
  eligible_of_contest, task_first, submission_first,
}
use soj.Submission.Lifecycle.{IsConsistent, Moves-IsConsistent, others_kept}
use soj.Submission.Lifecycle.Rules.{
  After, kept, rolled_back, then_After, After-imp, read_After, if_After, write-After, put-After,
  update_After, update_or_After, settle-After, put_last_After, bind_After,
}
use soj.Submission.Lifecycle.Transactions.{Kept}

module _ {P : Type 0} (t : Tables P) (h : IsConsistent t) (id submission : ℕ) (at : Time)
    (x : TaskRow) (i : In x t.tasks) (e : rejudgeable id submission x ≡ true) where
  -- A settled task that is not prepared is of another submission.
  elsewhere :
      (k : TaskRow) (s : SubmissionRow)
      → In k t.tasks
      → refers k.submission_id s.id ≡ true
      → rejudgeable id submission k ≡ false
      → submission_in submission terminal_status s ≡ true
      → ⊥
  elsewhere k s j r q o =
      let this : s.id ≡ submission = (==_iff s.id submission).0 (ground arith) in
      let same : k ≡ x =
        unique (λ y. refers y.submission_id submission) k x t.tasks (h.subject_key submission) j i
          (ap (refers k.submission_id) (sym this) ∙ r) (ground arith) in
      ground (arith, ap (rejudgeable id submission) same)

  prepared_kept :
      (p : P)
      → IsConsistent (record t {
        tasks = update (rejudgeable id submission) (prepared_row at t.now) t.tasks;
        submissions =
            update (submission_in submission terminal_status) (rejudged_row t.now) t.submissions;
        others = p;
      })
  prepared_kept p =
      Moves-IsConsistent (set chosen prepare) (set judged reopen) t _
        (set_keeps chosen prepare (λ k. k.id) (λ k. refl))
        (set_keeps chosen prepare (λ k. k.submission_id) (λ k. refl))
        (set_keeps judged reopen (λ s. s.id) (λ s. refl))
        (λ k s j l r.
          set-cases chosen prepare
            (λ y. is_settled y.status ≡ true → terminal_status (set judged reopen s).status ≡ true)
            k (λ q d. ground arith)
            (λ q d.
              set-cases judged reopen (λ y. terminal_status y.status ≡ true) s
                (λ o. absurd (elsewhere k s j r q o)) (λ o. h.settled k s j l r d)))
        (record {
          tasks = refl;
          submissions = refl;
          attempt_key = h.attempt_key;
          attempts = λ b ib. (b, ib, refl, refl, refl);
          judged = h.judged;
        })
        h
    where
      chosen : TaskRow → Bool
      chosen = rejudgeable id submission

      prepare : TaskRow → TaskRow
      prepare = prepared_row at t.now

      judged : SubmissionRow → Bool
      judged = submission_in submission terminal_status

      reopen : SubmissionRow → SubmissionRow
      reopen = rejudged_row t.now

module _ {P L : Type 0} (ledgers : Ledgers P L) (batches : Batches P) where
  target-Kept :
      (t : Tables P) (batch : ℕ) (at : Time) (target : RejudgeTarget)
      → IsConsistent t
      → Kept (prepare_target ledgers batches batch at target t)
  unfolding prepare_target prepare_judge_task_for_rejudge prepare_submission_for_rejudge
  target-Kept t batch at target h =
      put-After (batches.create_item batch target.submission.id target.task.id t.others) t _ (λ p.
        write-After (ledgers.lock_contest_problem_projection target.submission p) _ _ (λ lock q.
          update_or_After (rejudgeable target.task.id target.submission.id) (prepared_row at t.now)
            t.tasks _ _ _ (λ n. rolled_back _)
            (λ x i e.
              update_After (submission_in target.submission.id terminal_status) (rejudged_row t.now)
                t.submissions _ _
                (λ s j f.
                  put_last_After _ _
                    (λ r. prepared_kept t h target.task.id target.submission.id at x i e r)))))

  targets-Kept :
      (t : Tables P) (batch : ℕ) (at : Time) (targets : List RejudgeTarget)
      → IsConsistent t
      → Kept (prepare_targets ledgers batches batch at targets t)
  unfolding prepare_targets
  targets-Kept t batch at [] h = kept h
  targets-Kept t batch at (target ∷ rest) h =
      then_After (prepare_target ledgers batches batch at target t) _ (
        After-imp _ _ (prepare_target ledgers batches batch at target t)
          (λ _ u k. targets-Kept u batch at rest k) (target-Kept t batch at target h))

  -- Finding and locking the rows changes nothing.
  pub found_same :
      (t : Tables P) (rows : List SubmissionRow) → After (λ _ u. u ≡ t) (find_targets rows t)
  unfolding find_targets
  found_same t [] = kept refl
  found_same t (s ∷ rest) =
      bind_After (one (filter (λ j. refers j.submission_id s.id) t.tasks)) _ (λ x.
        then_After (find_targets rest t) _
          (After-imp _ _ (find_targets rest t) (λ _ u k. kept k) (found_same t rest)))

  pub locked_same :
      (t : Tables P) (targets : List RejudgeTarget) → After (λ _ u. u ≡ t) (lock_tasks targets t)
  unfolding lock_tasks
  locked_same t [] = kept refl
  locked_same t (target ∷ rest) =
      read_After (λ j. j.id == target.task.id) t.tasks t _
        (λ x i e.
          then_After (lock_tasks rest t) _
            (After-imp _ _ (lock_tasks rest t) (λ _ u k. kept k) (locked_same t rest)))

  pub checked_same :
      (t : Tables P) (targets : List RejudgeTarget)
      → After (λ _ u. u ≡ t) (lock_submissions targets t)
  unfolding lock_submissions
  checked_same t [] = kept refl
  checked_same t (target ∷ rest) =
      read_After (λ s. s.id == target.submission.id) t.submissions t _
        (λ x i e.
          if_After (not (terminal_status x.status) || not (is_settled target.task.status)) _ _
            (λ q. rolled_back _)
            (λ q.
              then_After (lock_submissions rest t) _
                (After-imp _ _ (lock_submissions rest t) (λ _ u k. kept k) (checked_same t rest))))

  items-Kept :
      (t : Tables P) (at : Time) (targets : List RejudgeTarget)
      → IsConsistent t
      → Kept (create_items ledgers batches at targets t)
  unfolding create_items
  items-Kept t at targets h =
      write-After (batches.create_batch (length targets) t.others) t _ (λ batch p.
        then_After (prepare_targets ledgers batches batch at targets (record t { others = p })) _ (
          After-imp _ _ (prepare_targets ledgers batches batch at targets (record t { others = p }))
            (λ _ u k. kept k) (targets-Kept _ batch at targets (others_kept t p h))))

  rejudge-Kept :
      (t : Tables P) (at : Time) (rows : List SubmissionRow)
      → IsConsistent t
      → Kept (rejudge_submissions ledgers batches at rows t)
  unfolding rejudge_submissions
  rejudge-Kept t at [] h = rolled_back _
  rejudge-Kept t at (s ∷ rest) h = then_After (find_targets (s ∷ rest) t) _ (
      After-imp _ _ (find_targets (s ∷ rest) t)
        (λ found u (same : u ≡ t). then_After (lock_tasks (sort task_first found) u) _ (
          After-imp _ _ (lock_tasks (sort task_first found) u)
            (λ locked v (same' : v ≡ u).
              then_After (lock_submissions (sort submission_first locked) v) _ (
                After-imp _ _ (lock_submissions (sort submission_first locked) v)
                  (λ targets w (same'' : w ≡ v).
                    items-Kept w at targets (rw (same'', same', same) h))
                  (checked_same v (sort submission_first locked))))
            (locked_same u (sort task_first found))))
        (found_same t (s ∷ rest)))

  pub rejudge-IsConsistent :
      (t : Tables P) (id : ℕ) (at : Time)
      → IsConsistent t
      → IsConsistent (rejudge_problem ledgers batches id at t).1
        × IsConsistent (rejudge_contest ledgers batches id at t).1
  unfolding rejudge_problem rejudge_contest
  rejudge-IsConsistent t id at h = (
    settle-After IsConsistent _ t h (rejudge-Kept t at (eligible_of_problem id t) h),
    settle-After IsConsistent _ t h (rejudge-Kept t at (eligible_of_contest id t) h),
  )
