-- ===== src/Submission/Lifecycle/Outcome.antt =====
-- What completing an attempt, in internal/submission/judge_repository.go, does to judged submissions and
-- to the attempt.
use soj.Prelude.{
  ℕ, ◌≡◌, refl, ◌∙◌, Bool, true, false, Bool-cases, any, inl, inr, Option, none, some, List, arith,
  ◌==◌,
}
use soj.AppError.{ok}
use soj.Submission.Status.{Status, terminal_status}
use soj.Submission.Tables.{
  TaskState, SubmissionRow, AttemptRow, ResultRow, Tables, set, update, is_null,
}
use soj.Submission.Tables.Rows.{In, In-map, map-In, set-cases}
use soj.Submission.Tables.Tasks.{task_in, in_flight, moved_row, mark_judge_task_done}
use soj.Submission.Tables.Submissions.{submission_in, is_open, judged_row, update_submission_status}
use soj.Submission.Tables.Attempts.{
  MarkJudgeAttemptFinishedParams, finished_attempt, mark_judge_attempt_finished,
  upsert_submission_result,
}
use soj.Submission.Repository.{Ledgers}
use soj.Submission.Repository.Complete.{
  CompleteJudgeAttemptResultInput, finished_params, submission_params, result_params, finish_task,
  finish_judge_attempt, finish_item, write_result, complete_open_submission,
}
use soj.Submission.Lifecycle.Rules.{
  After, kept, then_After, After-imp, if_After, write-After, put-After, update_After,
  update_or_After, In-none,
}

-- The attempt `id` is judged.
abbrev pub IsFinished : {P : Type 0} → ℕ → Tables P → Type 0
IsFinished id t =
    (a : AttemptRow) → In a t.attempts → (a.id == id) ≡ true → terminal_status a.status ≡ true

-- The rows of judged submissions are those of before, and a stored result finishes its attempt.
abbrev pub Outcome : {P : Type 0} → ℕ → Tables P → Bool → Tables P → Type 0
Outcome id t stored u =
    ((s : SubmissionRow)
      → In s t.submissions
      → terminal_status s.status ≡ true
      → In s u.submissions)
    × (stored ≡ true → IsFinished id u)

-- A row that a statement does not select is still there.
pub unselected_In :
    {A : Type 0} (p : A → Bool) (f : A → A) (x : A) (rows : List A)
    → p x ≡ false
    → In x rows
    → In x (update p f rows)
unselected_In p f x rows q i = rw (← unmoved) (map-In (set p f) x rows i)
  where
    unmoved : set p f x ≡ x
    unmoved = rw q refl

-- A delivery that is not stored and changes nothing.
pub unstored : {P : Type 0} (id : ℕ) (t : Tables P) → Outcome id t false t
unstored id t = ((λ s i d. i), λ e. absurd (ground arith))

module _ {P L : Type 0} (ledgers : Ledgers P L) (input : CompleteJudgeAttemptResultInput) where
  task_outcome :
      (t : Tables P) (x : AttemptRow) (o : Option ℕ)
      → x.task_id ≡ o
      → After
          (λ _ u. (u.submissions ≡ t.submissions) × (u.attempts ≡ t.attempts))
          (finish_task ledgers input x t)
  unfolding finish_task mark_judge_task_done
  task_outcome t x none e = rw e (kept (refl, refl))
  task_outcome t x (some k) e = rw e (
      update_or_After (task_in k in_flight) (moved_row TaskState.done t.now) t.tasks _ _ _
        (λ n. kept (refl, refl)) (λ y j q. kept (refl, refl)))

  pub finish_outcome :
      (t : Tables P) (id : ℕ) (status : Status)
      → terminal_status status ≡ true
      → After
          (λ _ u. (u.submissions ≡ t.submissions) × IsFinished id u)
          (finish_judge_attempt ledgers input id status t)
  unfolding finish_judge_attempt mark_judge_attempt_finished
  finish_outcome t id status d = update_After this finish t.attempts _ _ (λ x j q.
      put-After (ledgers.create_case_results id input.result.cases t.others) _ _ (λ p.
        After-imp _ _ (finish_task ledgers input (finish x) (after p))
          (λ y u k. (k.0, λ a i e. over a (rw (← k.1) i) e))
          (task_outcome (after p) (finish x) x.task_id refl)))
    where
      this : AttemptRow → Bool
      this x = x.id == id

      params : MarkJudgeAttemptFinishedParams
      params = finished_params id input.result status t.now

      finish : AttemptRow → AttemptRow
      finish = finished_attempt params t.now

      after : P → Tables P
      after p = record t { attempts = update this finish t.attempts; others = p }

      over :
          (a : AttemptRow)
          → In a (update this finish t.attempts)
          → (a.id == id) ≡ true
          → terminal_status a.status ≡ true
      over a i e =
          let (x, ix, ex) = In-map (set this finish) a t.attempts i in
          rw ex (
            set-cases this finish (λ b. (b.id == id) ≡ true → terminal_status b.status ≡ true) x
              (λ q f. d) (λ q f. absurd (ground arith)) (rw (← ex) e))

  item_outcome :
      (t : Tables P) (x : AttemptRow)
      → After
          (λ _ u. (u.submissions ≡ t.submissions) × (u.attempts ≡ t.attempts))
          (finish_item ledgers input x t)
  unfolding finish_item
  item_outcome t x =
      if_After (is_null x.rejudge_batch_id) _ _ (λ e. kept (refl, refl))
        (λ e.
          put-After (ledgers.finish_rejudge_item x.id t.others) t (λ _ u. ok (true, u))
            (λ p. kept (refl, refl)))

  upsert_same :
      (t : Tables P) (r : ResultRow)
      → ((upsert_submission_result r t).submissions ≡ t.submissions)
        × ((upsert_submission_result r t).attempts ≡ t.attempts)
  unfolding upsert_submission_result
  upsert_same t r =
      elim (Bool-cases (any (λ row. row.submission_id == r.submission_id) t.results)) [
        | inl e ↦ rw e (refl, refl)
        | inr e ↦ rw e (refl, refl)
      ]

  write_outcome :
      (t : Tables P) (id : ℕ) (status : Status) (lock : L) (row : SubmissionRow)
      → terminal_status status ≡ true
      → After
          (λ _ u. (u.submissions ≡ t.submissions) × IsFinished id u)
          (write_result ledgers input id status lock row t)
  unfolding write_result
  write_outcome t id status lock row d =
      then_After (finish_judge_attempt ledgers input id status t) _ (
        After-imp _ _ (finish_judge_attempt ledgers input id status t)
          (λ x u k.
            let v =
              upsert_submission_result (result_params row.id id input.result status u.now) u in
            put-After (ledgers.rebuild_contest_problem_result v row lock) v
              (λ _ w. finish_item ledgers input x w)
              (λ p.
                After-imp _ _ (finish_item ledgers input x (record v { others = p }))
                  (λ b w m.
                    let same = upsert_same u _ in
                    (m.0 ∙ same.0 ∙ k.0, λ a i e. k.1 a (rw (← same.1, ← m.1) i) e))
                  (item_outcome (record v { others = p }) x)))
          (finish_outcome t id status d))

  -- The rest of `Outcome`, for an attempt of a submission that is open.
  pub open_outcome :
      (t : Tables P) (id : ℕ) (status : Status) (submission : ℕ) (row : SubmissionRow)
      → terminal_status status ≡ true
      → In row t.submissions
      → (row.id == submission) ≡ true
      → terminal_status row.status ≡ false
      → After (Outcome id t) (complete_open_submission ledgers input submission id status row t)
  unfolding complete_open_submission update_submission_status
  open_outcome t id status submission row d l e o =
      write-After (ledgers.lock_contest_problem_projection row t.others) t _ (λ lock p.
        update_or_After this judge t.submissions _ _ _
          (λ n. absurd (In-none this row t.submissions n l (ground arith)))
          (λ x j q.
            After-imp _ _ (write_result ledgers input id status lock (judge x) (after p))
              (λ b u k. (
                (λ s i f. rw k.0 (unselected_In this judge s t.submissions (ground arith) i)),
                λ c. k.1,
              ))
              (write_outcome (after p) id status lock (judge x) d)))
    where
      this : SubmissionRow → Bool
      this = submission_in submission is_open

      judge : SubmissionRow → SubmissionRow
      judge = judged_row (submission_params submission input.result status) t.now

      after : P → Tables P
      after p = record t { submissions = update this judge t.submissions; others = p }
