-- ===== src/Submission/Lifecycle/Canceled.antt =====
-- A rejudge that is canceled before it starts: internal/submission/rejudge_repository.go.
use soj.Prelude.{ℕ, ◌≡◌, refl, ap, Bool, true, String, arith, ◌==◌}
use soj.AppError.{ok}
use soj.Contest.Types.{Time}
use soj.Submission.Status.{is_queued, terminal_status}
use soj.Submission.Tables.{TaskRow, SubmissionRow, ResultRow, Tables, set, update, ◌and_then◌}
use soj.Submission.Tables.Rows.{In, In-map, unique, set-cases}
use soj.Submission.Tables.Tasks.{
  is_pending, task_in, rejudgeable, prepared_row, prepare_judge_task_for_rejudge, canceled_row,
  cancel_pending_judge_task_for_rejudge,
}
use soj.Submission.Tables.Submissions.{
  submission_in, rejudged_row, restored_row, prepare_submission_for_rejudge,
  restore_submission_after_canceled_rejudge,
}
use soj.Submission.Repository.{Ledgers, text}
use soj.Submission.Repository.Rejudge.{Batches, prepare_target, cancel_item}
use soj.Submission.Lifecycle.{IsConsistent}
use soj.Submission.Lifecycle.Rules.{
  After, rolled_back, then_After, After-imp, write-After, put-After, update_After, update_or_After,
  last_After, put_last_After, After-ok, select_After,
}

module _ {P L : Type 0} (ledgers : Ledgers P L) (batches : Batches P) (t : Tables P)
    (h : IsConsistent t) (s : SubmissionRow) (j : TaskRow) (i : In s t.submissions)
    (d : terminal_status s.status ≡ true) where
  abbrev Waiting : Tables P → Type 0
  Waiting u =
      ((y : SubmissionRow) → In y u.submissions → (y.id == s.id) ≡ true → is_queued y.status ≡ true)
      × (u.results ≡ t.results)

  reopened :
      (y : SubmissionRow)
      → In y (update (submission_in s.id terminal_status) (rejudged_row t.now) t.submissions)
      → (y.id == s.id) ≡ true
      → is_queued y.status ≡ true
  reopened y k e =
      let (z, iz, ez) = In-map (set this reopen) y t.submissions k in
      rw ez (
        set-cases this reopen (λ x. (x.id == s.id) ≡ true → is_queued x.status ≡ true) z
          (λ q f. refl)
          (λ q f.
            let same : z ≡ s =
              unique (λ x. x.id == s.id) z s t.submissions (h.submission_key s.id) iz i f
                (ground arith) in
            absurd (ground (arith, ap this same, d)))
          (rw (← ez) e))
    where
      this : SubmissionRow → Bool
      this = submission_in s.id terminal_status

      reopen : SubmissionRow → SubmissionRow
      reopen = rejudged_row t.now

  target_waits :
      (batch : ℕ) (at : Time)
      → After
          (λ _ u. Waiting u)
          (prepare_target ledgers batches batch at (record { submission = s; task = j }) t)
  unfolding prepare_target prepare_judge_task_for_rejudge prepare_submission_for_rejudge
  target_waits batch at = put-After (batches.create_item batch s.id j.id t.others) t _ (λ p.
      write-After (ledgers.lock_contest_problem_projection s p) _ _ (λ lock q.
        update_or_After (rejudgeable j.id s.id) (prepared_row at t.now) t.tasks _ _ _
          (λ n. rolled_back _)
          (λ x k e.
            update_After (submission_in s.id terminal_status) (rejudged_row t.now) t.submissions _ _
              (λ y l f. put_last_After _ _ (λ r. (reopened, refl))))))

  -- What the results say of the submission.
  abbrev Recorded : Type 0
  Recorded =
      (r : ResultRow) → In r t.results → (r.submission_id == s.id) ≡ true → r.status ≡ s.status

  restored :
      (u : Tables P) (r : ResultRow) (x : SubmissionRow)
      → Waiting u
      → r.status ≡ s.status
      → In x (update (submission_in s.id is_queued) (restored_row r u.now) u.submissions)
      → (x.id == s.id) ≡ true
      → x.status ≡ s.status
  restored u r x w e k f =
      let (z, iz, ez) =
        In-map (set (submission_in s.id is_queued) (restored_row r u.now)) x u.submissions k in
      rw ez (
        set-cases (submission_in s.id is_queued) (restored_row r u.now)
          (λ y. (y.id == s.id) ≡ true → y.status ≡ s.status) z (λ q g. e)
          (λ q g. absurd (ground (arith, w.0 z iz g))) (rw (← ez) f))

  item_restored :
      (u : Tables P) (reason : String)
      → Recorded
      → Waiting u
      → After
          (λ _ v.
            (x : SubmissionRow) → In x v.submissions → (x.id == s.id) ≡ true → x.status ≡ s.status)
          (cancel_item ledgers batches reason s (record { submission_id = s.id; task_id = j.id }) u)
  unfolding cancel_item cancel_pending_judge_task_for_rejudge
      restore_submission_after_canceled_rejudge
  item_restored u reason recorded w =
      update_or_After (task_in j.id is_pending) (canceled_row (text reason) u.now) u.tasks _ _ _
        (λ n. rolled_back _)
        (λ x k e. write-After (ledgers.lock_contest_problem_projection s u.others) _ _ (λ lock p.
          then_After (restore_submission_after_canceled_rejudge s.id _) _ (
            select_After (λ r. r.submission_id == s.id) u.results _
              (λ r l f.
                last_After (submission_in s.id is_queued) (restored_row r u.now) u.submissions _
                  (λ y m g.
                    put_last_After _ _
                      (λ q z iz ez. restored u r z w (recorded r (rw (← w.1) l) f) iz ez))))))

  -- A submission that is put back into the queue and canceled there, the two transactions right after
  -- each other, has the status it had, if the stored results agree with it.
  pub canceled_rejudge :
      (batch : ℕ) (at : Time) (reason : String) (v : Tables P)
      → Recorded
      → (prepare_target ledgers batches batch at (record { submission = s; task = j }) t
          and_then λ _ u.
              cancel_item ledgers batches reason s
                (record { submission_id = s.id; task_id = j.id })
                u)
        ≡ ok (tt, v)
      → (x : SubmissionRow) → In x v.submissions
      → (x.id == s.id) ≡ true
      → x.status ≡ s.status
  canceled_rejudge batch at reason v recorded e =
      After-ok _
        (then_After
          (prepare_target ledgers batches batch at (record { submission = s; task = j }) t) _
          (After-imp _ _
            (prepare_target ledgers batches batch at (record { submission = s; task = j }) t)
            (λ _ u w. item_restored u reason recorded w) (target_waits batch at)))
        e
