-- ===== src/Submission/Lifecycle/Steps.antt =====
-- The steps of histories of internal/submission as transitions of the state machine of a judge task.
use soj.Prelude.{ℕ, ◌≡◌, refl, ◌∙◌, List, [], ◌∷◌, arith, length}
use soj.Prelude.Sort.{sort}
use soj.AppError.{Result}
use soj.Contest.Types.{Time}
use soj.Submission.Status.{terminal_status}
use soj.Submission.Tables.{TaskState, SubmissionRow, Tables}
use soj.Submission.Tables.Tasks.{
  in_flight, task_in, moved_row, rejudgeable, prepared_row, prepare_judge_task_for_rejudge,
  mark_judge_task_done,
}
use soj.Submission.Tables.Submissions.{submission_in, rejudged_row, prepare_submission_for_rejudge}
use soj.Submission.Repository.{Ledgers}
use soj.Submission.Repository.Rejudge.{
  RejudgeTarget, Batches, prepare_target, prepare_targets, create_items, find_targets, lock_tasks,
  lock_submissions, rejudge_submissions, rejudge_problem, rejudge_contest, eligible_of_problem,
  eligible_of_contest, task_first, submission_first,
}
use soj.Submission.Lifecycle.Rules.{
  After, kept, rolled_back, then_After, After-imp, write-After, put-After, update_After,
  update_or_After, settle-After, put_last_After,
}
use soj.Submission.Lifecycle.Rejudge.{found_same, locked_same, checked_same}
use soj.Submission.Lifecycle.Machine.{
  Label, Edge, Traced, same-Traced, update_traced, statement-Traced,
}
use soj.Submission.Lifecycle.Traces.{label, perform-Traced}
use soj.Submission.Lifecycle.Histories.{Action, act}

-- A task that was put back for a rejudge is not settled, so it is not put back twice.
reopened_once :
    {a b c : TaskState}
    → Edge Label.rejudging a b
    → Edge Label.rejudging b c
    → Edge Label.rejudging a c
reopened_once Edge.stay f = f
reopened_once (Edge.reopen p) Edge.stay = Edge.reopen p
reopened_once (Edge.reopen p) (Edge.reopen q) = absurd (ground (arith, q))

Traced-trans :
    {P : Type 0} (t u v : Tables P)
    → Traced Label.rejudging t u
    → Traced Label.rejudging u v
    → Traced Label.rejudging t v
Traced-trans t u v first rest k i =
    let (x, ix, ex, ox) = rest k i in
    let (j, ij, ej, oj) = first x ix in (j, ij, ex ∙ ej, reopened_once oj ox)

abbrev Reopens : {P A : Type 0} → Tables P → Result (A × Tables P) → Type 0
Reopens t m = After (λ _ u. Traced Label.rejudging t u) m

module _ {P L : Type 0} (ledgers : Ledgers P L) (batches : Batches P) where
  target-Reopens :
      (t : Tables P) (batch : ℕ) (at : Time) (target : RejudgeTarget)
      → Reopens t (prepare_target ledgers batches batch at target t)
  unfolding prepare_target prepare_judge_task_for_rejudge prepare_submission_for_rejudge
  target-Reopens t batch at target =
      put-After (batches.create_item batch target.submission.id target.task.id t.others) t _ (λ p.
        write-After (ledgers.lock_contest_problem_projection target.submission p) _ _ (λ lock q.
          update_or_After (rejudgeable target.task.id target.submission.id) (prepared_row at t.now)
            t.tasks _ _ _ (λ n. rolled_back _)
            (λ x i e.
              update_After (submission_in target.submission.id terminal_status) (rejudged_row t.now)
                t.submissions _ _
                (λ s j f. put_last_After _ _ (λ r.
                  update_traced (rejudgeable target.task.id target.submission.id)
                    (prepared_row at t.now) t.tasks (λ z. refl)
                    (λ z g. Edge.reopen (ground arith)))))))

  targets-Reopens :
      (t : Tables P) (batch : ℕ) (at : Time) (targets : List RejudgeTarget)
      → Reopens t (prepare_targets ledgers batches batch at targets t)
  unfolding prepare_targets
  targets-Reopens t batch at [] = kept (same-Traced t)
  targets-Reopens t batch at (target ∷ rest) =
      then_After (prepare_target ledgers batches batch at target t) _ (
        After-imp _ _ (prepare_target ledgers batches batch at target t)
          (λ _ u k.
            After-imp _ _ (prepare_targets ledgers batches batch at rest u)
              (λ _ v. Traced-trans t u v k) (targets-Reopens u batch at rest))
          (target-Reopens t batch at target))

  items-Reopens :
      (t : Tables P) (at : Time) (targets : List RejudgeTarget)
      → Reopens t (create_items ledgers batches at targets t)
  unfolding create_items
  items-Reopens t at targets =
      write-After (batches.create_batch (length targets) t.others) t _ (λ batch p.
        then_After (prepare_targets ledgers batches batch at targets (record t { others = p })) _ (
          After-imp _ _ (prepare_targets ledgers batches batch at targets (record t { others = p }))
            (λ _ u k. kept k) (targets-Reopens (record t { others = p }) batch at targets)))

  rejudge-Reopens :
      (t : Tables P) (at : Time) (rows : List SubmissionRow)
      → Reopens t (rejudge_submissions ledgers batches at rows t)
  unfolding rejudge_submissions
  rejudge-Reopens t at [] = rolled_back _
  rejudge-Reopens t at (s ∷ rest) = then_After (find_targets (s ∷ rest) t) _ (
      After-imp _ _ (find_targets (s ∷ rest) t)
        (λ found u (same : u ≡ t). then_After (lock_tasks (sort task_first found) u) _ (
          After-imp _ _ (lock_tasks (sort task_first found) u)
            (λ locked v (same' : v ≡ u).
              then_After (lock_submissions (sort submission_first locked) v) _ (
                After-imp _ _ (lock_submissions (sort submission_first locked) v)
                  (λ targets w (same'' : w ≡ v).
                    rw (← same, ← same', ← same'') (items-Reopens w at targets))
                  (checked_same ledgers batches v (sort submission_first locked))))
            (locked_same ledgers batches u (sort task_first found))))
        (found_same ledgers batches t (s ∷ rest)))

  -- The transition that an action is for.
  abbrev pub action_label : Action → Label
  action_label (Action.request r) = label r
  action_label (Action.rejudge_of_problem id at) = Label.rejudging
  action_label (Action.rejudge_of_contest id at) = Label.rejudging
  action_label (Action.mark_done id) = Label.finishing

  -- The tables implement the state machine of a task, step by step: each task that a request, a rejudge
  -- or a mark as done leaves was there before, with the same id, and is in the state it was in, or has
  -- made the one transition that the action is for: a claim from pending to dispatching, the mark of a
  -- publication from dispatching to dispatched, a start, an end, a failure or a retry from a state in
  -- flight to running, done, dead or pending, a recovery from dead to pending, a rejudge from done or
  -- dead to pending.
  pub act-Traced : (a : Action) (t : Tables P) → Traced (action_label a) t (act ledgers batches a t)
  unfolding act rejudge_problem rejudge_contest mark_judge_task_done
  act-Traced (Action.request r) t = perform-Traced ledgers r t
  act-Traced (Action.rejudge_of_problem id at) t =
      settle-After (λ u. Traced Label.rejudging t u) _ t (same-Traced t)
        (rejudge-Reopens t at (eligible_of_problem id t))
  act-Traced (Action.rejudge_of_contest id at) t =
      settle-After (λ u. Traced Label.rejudging t u) _ t (same-Traced t)
        (rejudge-Reopens t at (eligible_of_contest id t))
  act-Traced (Action.mark_done id) t =
      settle-After (λ u. Traced Label.finishing t u) _ t (same-Traced t)
        (statement-Traced t (task_in id in_flight) (moved_row TaskState.done t.now) (λ j. refl)
          (λ j q. Edge.finish (ground arith)))
