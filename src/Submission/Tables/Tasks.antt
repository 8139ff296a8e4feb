-- ===== src/Submission/Tables/Tasks.antt =====
-- internal/postgres/db/submissions.sql.go: the statements that change the judge tasks.
use soj.Prelude.{
  ℕ, ◌+◌, Bool, true, false, ◌&&◌, not, Option, none, List, filter, any, take, String,
  if◌then◌else◌, ◌==◌, ltb, leb,
}
use soj.Prelude.Sort.{sort}
use soj.AppError.{ok, ◌>>=◌}
use soj.Contest.Types.{Time, before}
use soj.Submission.Tables.{TaskState, TaskRow, Tables, Tx, one, update, returned, refers, is_null}

abbrev pub is_pending : TaskState → Bool
is_pending TaskState.pending = true
is_pending _ = false

-- `IN ('done', 'dead')`
abbrev pub is_settled : TaskState → Bool
is_settled TaskState.done = true
is_settled TaskState.dead = true
is_settled _ = false

-- `IN ('dispatching', 'dispatched', 'running')`
abbrev pub in_flight : TaskState → Bool
in_flight TaskState.dispatching = true
in_flight TaskState.dispatched = true
in_flight TaskState.running = true
in_flight _ = false

-- `IN ('dispatching', 'running', 'done')`
abbrev pub dispatchable : TaskState → Bool
dispatchable TaskState.dispatching = true
dispatchable TaskState.running = true
dispatchable TaskState.done = true
dispatchable _ = false

-- `IN ('dispatching', 'running')`
abbrev pub can_stall : TaskState → Bool
can_stall TaskState.dispatching = true
can_stall TaskState.running = true
can_stall _ = false

abbrev pub is_dead : TaskState → Bool
is_dead TaskState.dead = true
is_dead _ = false

-- `CASE WHEN status = 'dispatching' THEN 'dispatched' ELSE status END`
abbrev pub once_dispatched : TaskState → TaskState
once_dispatched TaskState.dispatching = TaskState.dispatched
once_dispatched status = status

-- The task `id`, in a status that the statement admits.
abbrev pub task_in : ℕ → (TaskState → Bool) → TaskRow → Bool
task_in id admits row = (row.id == id) && admits row.status

-- A `:one` statement on the tasks.
abbrev pub update_task :
    {P : Type 0} → (TaskRow → Bool) → (TaskRow → TaskRow) → Tx (Tables P) TaskRow
update_task p f t =
    one (returned p f t.tasks) >>= λ row. ok (row, record t { tasks = update p f t.tasks })

abbrev pub lock_judge_task_by_id : {P : Type 0} → ℕ → Tx (Tables P) TaskRow
lock_judge_task_by_id id t = one (filter (λ row. row.id == id) t.tasks) >>= λ row. ok (row, t)

abbrev pub dispatching_row : Time → TaskRow → TaskRow
dispatching_row now row = record row { status = TaskState.dispatching; updated_at = now }

unfoldable pub update_judge_task_dispatching : {P : Type 0} → ℕ → Tx (Tables P) TaskRow
update_judge_task_dispatching id t = update_task (task_in id is_pending) (dispatching_row t.now) t

abbrev pub dispatched_row : Option String → Time → TaskRow → TaskRow
dispatched_row stream_id now row = record row {
  status = once_dispatched row.status;
  stream_id = stream_id;
  updated_at = now;
}

unfoldable pub mark_judge_task_dispatched : {P : Type 0} → ℕ → Option String → Tx (Tables P) TaskRow
mark_judge_task_dispatched id stream_id t =
    update_task (task_in id dispatchable) (dispatched_row stream_id t.now) t

abbrev pub moved_row : TaskState → Time → TaskRow → TaskRow
moved_row status now row = record row { status = status; updated_at = now }

unfoldable pub mark_judge_task_running : {P : Type 0} → ℕ → Tx (Tables P) TaskRow
mark_judge_task_running id t =
    update_task (task_in id in_flight) (moved_row TaskState.running t.now) t

unfoldable pub mark_judge_task_done : {P : Type 0} → ℕ → Tx (Tables P) TaskRow
mark_judge_task_done id t = update_task (task_in id in_flight) (moved_row TaskState.done t.now) t

abbrev pub dead_row : Option String → Time → TaskRow → TaskRow
dead_row reason now row = record row {
  status = TaskState.dead;
  last_error = reason;
  updated_at = now;
}

unfoldable pub mark_task_dead : {P : Type 0} → ℕ → Option String → Tx (Tables P) TaskRow
mark_task_dead id reason t = update_task (task_in id in_flight) (dead_row reason t.now) t

abbrev pub retried_row : Time → Option String → Time → TaskRow → TaskRow
retried_row next_run_at reason now row = record row {
  status = TaskState.pending;
  attempts = row.attempts + 1;
  next_run_at = next_run_at;
  last_error = reason;
  updated_at = now;
}

unfoldable pub retry_judge_task : {P : Type 0} → ℕ → Time → Option String → Tx (Tables P) TaskRow
retry_judge_task id next_run_at reason t =
    update_task (task_in id in_flight) (retried_row next_run_at reason t.now) t

abbrev pub prepared_row : Time → Time → TaskRow → TaskRow
prepared_row next_run_at now row = record row {
  status = TaskState.pending;
  stream_id = none;
  attempts = 0;
  next_run_at = next_run_at;
  last_error = none;
  updated_at = now;
}

abbrev pub rejudgeable : ℕ → ℕ → TaskRow → Bool
rejudgeable id submission_id row =
    task_in id is_settled row && refers row.submission_id submission_id

unfoldable pub prepare_judge_task_for_rejudge : {P : Type 0} → ℕ → ℕ → Time → Tx (Tables P) TaskRow
prepare_judge_task_for_rejudge id submission_id next_run_at t =
    update_task (rejudgeable id submission_id) (prepared_row next_run_at t.now) t

abbrev pub canceled_row : Option String → Time → TaskRow → TaskRow
canceled_row reason now row = record row {
  status = TaskState.done;
  stream_id = none;
  last_error = reason;
  updated_at = now;
}

unfoldable pub cancel_pending_judge_task_for_rejudge :
    {P : Type 0} → ℕ → Option String → Tx (Tables P) TaskRow
cancel_pending_judge_task_for_rejudge id reason t =
    update_task (task_in id is_pending) (canceled_row reason t.now) t

-- `ORDER BY next_run_at, id`
unfoldable pub runs_before : TaskRow → TaskRow → Bool
runs_before a b =
    if a.next_run_at == b.next_run_at then ltb a.id b.id else before a.next_run_at b.next_run_at

-- What the two claims select: pending tasks that are due, of submissions or of runs.
abbrev pub is_due : Time → TaskRow → Bool
is_due now row = is_pending row.status && leb row.next_run_at now

abbrev pub due_submission : Time → TaskRow → Bool
due_submission now row = is_due now row && not (is_null row.submission_id)

abbrev pub due_run : Time → TaskRow → Bool
due_run now row = is_due now row && not (is_null row.run_id)

-- The rows that `FOR UPDATE SKIP LOCKED` leaves, in order, up to the limit.
unfoldable pub claimed : (TaskRow → Bool) → (ℕ → Bool) → ℕ → List TaskRow → List TaskRow
unfolding runs_before
claimed due locked limit tasks =
    take limit (sort runs_before (filter (λ row. due row && not (locked row.id)) tasks))

-- `WHERE judge_tasks.id = claimed.id AND judge_tasks.status = 'pending'`
abbrev pub is_claimed : List TaskRow → TaskRow → Bool
is_claimed chosen row = any (λ c. row.id == c.id) chosen && is_pending row.status

module _ {P : Type 0} (locked : ℕ → Bool) where
  -- `locked` are the tasks that other transactions hold.
  unfoldable pub claim_tasks : (TaskRow → Bool) → ℕ → Tables P → List TaskRow × Tables P
  claim_tasks due limit t =
      let chosen = claimed due locked limit t.tasks in
      (
        returned (is_claimed chosen) (dispatching_row t.now) t.tasks,
        record t { tasks = update (is_claimed chosen) (dispatching_row t.now) t.tasks },
      )

  unfoldable pub claim_pending_judge_tasks : ℕ → Tables P → List TaskRow × Tables P
  claim_pending_judge_tasks limit t = claim_tasks (due_submission t.now) limit t

  unfoldable pub claim_pending_run_tasks : ℕ → Tables P → List TaskRow × Tables P
  claim_pending_run_tasks limit t = claim_tasks (due_run t.now) limit t
