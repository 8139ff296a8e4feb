-- ===== src/Submission/Lifecycle/Histories.antt =====
-- Requests, rejudges and tasks that are marked done alone, in any order, on the tables of
-- internal/submission. processMessage of worker.go marks a task done after it has read that the
-- submission is judged, or after it has stored a result; that this still holds when the task is
-- marked is a condition on the history.
use soj.Prelude.{ℕ, ◌≡◌, refl, sym, true, Bool, List, [], ◌∷◌, arith, ◌==◌}
use soj.Contest.Types.{Time}
use soj.Submission.Status.{terminal_status}
use soj.Submission.Tables.{TaskState, TaskRow, SubmissionRow, Tables, settle, refers, set}
use soj.Submission.Tables.Rows.{In, set-cases, set_keeps, map_id}
use soj.Submission.Tables.Tasks.{is_settled, in_flight, task_in, moved_row, mark_judge_task_done}
use soj.Submission.Repository.{Ledgers}
use soj.Submission.Repository.Rejudge.{Batches, rejudge_problem, rejudge_contest}
use soj.Submission.Lifecycle.{IsConsistent, Moves-IsConsistent}
use soj.Submission.Lifecycle.Rules.{last_After, settle-After}
use soj.Submission.Lifecycle.Transactions.{Kept}
use soj.Submission.Lifecycle.Rejudge.{rejudge-IsConsistent}
use soj.Submission.Lifecycle.Requests.{Request, perform, perform_kept}

pub data Action : Type 0 where
  request : Request → Action
  rejudge_of_problem rejudge_of_contest : ℕ → Time → Action
  mark_done : ℕ → Action

-- The submission of a task that is marked done alone is judged.
abbrev pub IsAllowed : {P : Type 0} → Action → Tables P → Type 0
IsAllowed (Action.mark_done id) t =
    (j : TaskRow) (s : SubmissionRow)
    → In j t.tasks
    → In s t.submissions
    → (j.id == id) ≡ true
    → refers j.submission_id s.id ≡ true
    → terminal_status s.status ≡ true
IsAllowed _ t = Unit

done-Kept :
    {P : Type 0} (t : Tables P) (id : ℕ)
    → IsConsistent t
    → IsAllowed (Action.mark_done id) t
    → Kept (mark_judge_task_done id t)
unfolding mark_judge_task_done
done-Kept t id h allowed = last_After chosen finish t.tasks _ (λ x i e.
    Moves-IsConsistent (set chosen finish) (λ s. s) t _
      (set_keeps chosen finish (λ j. j.id) (λ j. refl))
      (set_keeps chosen finish (λ j. j.submission_id) (λ j. refl)) (λ s. refl)
      (λ j s k l r.
        set-cases chosen finish (λ y. is_settled y.status ≡ true → terminal_status s.status ≡ true)
          j (λ q d. allowed j s k l (ground arith) r) (λ q d. h.settled j s k l r d))
      (record {
        tasks = refl;
        submissions = sym (map_id t.submissions);
        attempts = λ b k. (b, k, refl, refl, refl);
        attempt_key = h.attempt_key;
        judged = h.judged;
      })
      h)
  where
    chosen : TaskRow → Bool
    chosen = task_in id in_flight

    finish : TaskRow → TaskRow
    finish = moved_row TaskState.done t.now

module _ {P L : Type 0} (ledgers : Ledgers P L) (batches : Batches P) where
  -- The tables that an action leaves.
  unfoldable pub act : Action → Tables P → Tables P
  act (Action.request r) t = perform ledgers r t
  act (Action.rejudge_of_problem id at) t = (rejudge_problem ledgers batches id at t).1
  act (Action.rejudge_of_contest id at) t = (rejudge_contest ledgers batches id at t).1
  act (Action.mark_done id) t = (settle (mark_judge_task_done id t) t).1

  unfoldable pub act_all : List Action → Tables P → Tables P
  unfolding act
  act_all [] t = t
  act_all (a ∷ rest) t = act_all rest (act a t)

  -- Each action of a history is allowed on the tables that it finds.
  abbrev pub AllAllowed : List Action → Tables P → Type 0
  AllAllowed [] t = Unit
  AllAllowed (a ∷ rest) t = IsAllowed a t × AllAllowed rest (act a t)

  pub act_kept :
      (a : Action) (t : Tables P) → IsConsistent t → IsAllowed a t → IsConsistent (act a t)
  unfolding act
  act_kept (Action.request r) t h allowed = perform_kept ledgers r t h
  act_kept (Action.rejudge_of_problem id at) t h allowed =
      (rejudge-IsConsistent ledgers batches t id at h).0
  act_kept (Action.rejudge_of_contest id at) t h allowed =
      (rejudge-IsConsistent ledgers batches t id at h).1
  act_kept (Action.mark_done id) t h allowed =
      settle-After IsConsistent _ t h (done-Kept t id h allowed)

  -- Every history of requests, rejudges and tasks marked done alone, where a task is marked done
  -- alone only while its submission is judged, keeps the keys of the tables, stores results with
  -- terminal statuses only, and never leaves a task done or dead whose submission is open.
  -- Requests are the claims, the marks of dispatching, of publication and of running, retries,
  -- failures, recoveries, resets of stale tasks, ends of stale runs, starts and returns of
  -- submissions, and results of attempts. Canceled rejudges, new submissions, runs and attempts,
  -- and results that the in-process worker stores are not in histories.
  pub act_all-IsConsistent :
      (actions : List Action) (t : Tables P)
      → IsConsistent t
      → AllAllowed actions t
      → IsConsistent (act_all actions t)
  unfolding act_all
  act_all-IsConsistent [] t h allowed = h
  act_all-IsConsistent (a ∷ rest) t h allowed =
      act_all-IsConsistent rest (act a t) (act_kept a t h allowed.0) allowed.1
