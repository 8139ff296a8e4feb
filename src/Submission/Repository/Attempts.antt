-- ===== src/Submission/Repository/Attempts.antt =====
-- EnsureJudgeAttempt of internal/submission/judge_repository.go: the attempt that a task is judged
-- under, created or taken up again.
use soj.Prelude.{
  ℕ, ◌+◌, Bool, false, ◌&&◌, not, Option, none, some, List, [], ◌∷◌, ◌++◌, filter, if◌then◌else◌,
  ◌==◌, ltb,
}
use soj.AppError.{Result, ok, err, plain, ◌>>=◌}
use soj.Contest.Types.{Time}
use soj.Submission.Status.{Status, terminal_status}
use soj.Submission.Tables.{AttemptRow, Tables, Tx, ◌and_then◌, refers}
use soj.Submission.Tables.Attempts.{get_judge_attempt_by_id}
use soj.Submission.Repository.{rescue, put}

-- `attempt_id` is the text of the input as a number, if it is one.
pub record EnsureJudgeAttemptInput : Type 0 where
  pub attempt_id : Option ℕ
  pub submission_id : Option ℕ
  pub run_id : Option ℕ
  pub task_id : ℕ
  pub language_id : ℕ
  pub started_at : Time

pub record QueuedItem : Type 0 where
  pub id : ℕ
  pub batch_id : ℕ

-- The tables of rejudge batches, and the identity column of the attempts.
pub record ItemStore (P : Type 0) : Type 0 where
  pub queued_item : ℕ → P → Result (Option QueuedItem)
  pub start_item : ℕ → ℕ → P → Result P
  pub refresh_progress : ℕ → P → Result P
  pub next_id : List AttemptRow → ℕ

-- `ORDER BY attempt_no DESC, id DESC`
abbrev pub newer : AttemptRow → AttemptRow → Bool
newer a b = if a.attempt_no == b.attempt_no then ltb b.id a.id else ltb b.attempt_no a.attempt_no

abbrev pub newest : AttemptRow → List AttemptRow → AttemptRow
newest best [] = best
newest best (a ∷ rest) = newest (if newer a best then a else best) rest

-- `LIMIT 1`
abbrev pub first_of : List AttemptRow → Option AttemptRow
first_of [] = none
first_of (a ∷ rest) = some (newest a rest)

abbrev pub is_of : EnsureJudgeAttemptInput → AttemptRow → Bool
is_of input a = elim input.submission_id [
  | some submission ↦ refers a.submission_id submission
  | none ↦ elim input.run_id [ some run ↦ refers a.run_id run | none ↦ false ]
]

-- `latestAttemptForSubject`, where no row is `none`.
unfoldable pub latest_attempt_for_subject :
    EnsureJudgeAttemptInput → List AttemptRow → Result (Option AttemptRow)
latest_attempt_for_subject input attempts = elim input.submission_id [
  | some submission ↦ ok (first_of (filter (is_of input) attempts))
  | none ↦ elim input.run_id [
    | some run ↦ ok (first_of (filter (is_of input) attempts))
    | none ↦ err (plain "ensure judge attempt requires a submission or a run")
  ]
]

-- `pgtype.Int8{Int64: id, Valid: id > 0}`
abbrev pub positive : ℕ → Option ℕ
positive id = if id == 0 then none else some id

abbrev pub batch_of : Option QueuedItem → Option ℕ
batch_of none = none
batch_of (some item) = some item.batch_id

abbrev pub is_reusable : EnsureJudgeAttemptInput → AttemptRow → Bool
is_reusable input latest =
    refers latest.task_id input.task_id && not (terminal_status latest.status)

module _ {P : Type 0} (store : ItemStore P) (input : EnsureJudgeAttemptInput) where
  abbrev pub new_attempt : ℕ → Option QueuedItem → Tables P → AttemptRow
  new_attempt attempt_no item t = record {
    id = store.next_id t.attempts;
    submission_id = input.submission_id;
    run_id = input.run_id;
    task_id = positive input.task_id;
    rejudge_batch_id = batch_of item;
    attempt_no = attempt_no;
    language_id = input.language_id;
    status = Status.other "created";
    verdict = none;
    time_ms = none;
    memory_kb = none;
    error_message = none;
    started_at = some (if input.started_at == 0 then t.now else input.started_at);
    finished_at = none;
    updated_at = t.now;
  }

  -- The end of the function: an attempt and, where there is one, its item.
  unfoldable pub create_attempt : ℕ → Option QueuedItem → Tx (Tables P) AttemptRow
  create_attempt attempt_no item t =
      let row = new_attempt attempt_no item t in
      let u = record t { attempts = t.attempts ++ (row ∷ []) } in
      elim item [
        | none ↦ ok (row, u)
        | some i ↦ put (store.start_item i.id row.id u.others) u and_then λ _ u.
            put (store.refresh_progress i.batch_id u.others) u and_then λ _ u. ok (row, u)
      ]

  -- An open attempt of the same task: the item, if any, is started with it.
  unfoldable pub reuse_attempt : AttemptRow → Option QueuedItem → Tx (Tables P) AttemptRow
  reuse_attempt latest item t = elim item [
    | none ↦ ok (latest, t)
    | some i ↦
        rescue (put (store.start_item i.id latest.id t.others) t) (ok (latest, t))
          (λ _ t. ok (latest, t))
  ]

  unfoldable pub follow_attempt : Option AttemptRow → Option QueuedItem → Tx (Tables P) AttemptRow
  follow_attempt none item t = create_attempt 1 item t
  follow_attempt (some latest) item t =
      if is_reusable input latest
      then reuse_attempt latest item t
      else create_attempt (latest.attempt_no + 1) item t

  unfoldable pub ensure_for_task : Tx (Tables P) AttemptRow
  ensure_for_task t = store.queued_item input.task_id t.others >>= λ item.
      if input.language_id == 0
      then err (plain "language_id is required to create a judge attempt")
      else (latest_attempt_for_subject input t.attempts >>= λ latest. follow_attempt latest item t)

  unfoldable pub ensure_from : Option ℕ → Tx (Tables P) AttemptRow
  ensure_from none t = ensure_for_task t
  ensure_from (some id) t =
      rescue (get_judge_attempt_by_id id t) (ensure_for_task t) (λ row t. ok (row, t))

  unfoldable pub ensure_judge_attempt : Tx (Tables P) AttemptRow
  ensure_judge_attempt t = ensure_from input.attempt_id t
