-- ===== src/Submission/Tables.antt =====
-- internal/postgres/db/models.go and internal/postgres/tx.go: the tables of submissions, runs and
-- judge tasks as lists of rows, what the statements of SQL do to them, and transactions. A row keeps
-- the columns of its table, a column that may be NULL is an `Option`, and a status is one of the texts
-- that the CHECK constraint of its table admits. The attempts of a task are counted without the upper
-- limit of the column. `P` is what the transactions write beside these tables: the contest results and
-- the rejudge batches.
pub mod Rows
pub mod Tasks
pub mod Submissions
pub mod Attempts
use soj.Prelude.{
  ℕ, Bool, true, false, Option, none, some, List, [], ◌∷◌, map, filter, String, if◌then◌else◌, ◌==◌,
}
use soj.Prelude.Int.{ℤ}
use soj.AppError.{Result, ok, err, Error, plain}
use soj.AppError.Step.{Step}
use soj.Contest.Types.{Time}
use soj.Submission.Status.{Status}

pub data TaskState : Type 0 where
  pending dispatching dispatched running done dead : TaskState

pub record TaskRow : Type 0 where
  pub id : ℕ
  pub submission_id : Option ℕ
  pub stream_id : Option String
  pub status : TaskState
  pub attempts : ℕ
  pub next_run_at : Time
  pub last_error : Option String
  pub created_at : Time
  pub updated_at : Time
  pub run_id : Option ℕ

pub record SubmissionRow : Type 0 where
  pub id : ℕ
  pub user_id : ℕ
  pub problem_id : ℕ
  pub contest_id : Option ℕ
  pub language_id : ℕ
  pub testcase_set_id : ℕ
  pub status : Status
  pub source_artifact_id : Option ℕ
  pub time_ms : Option ℤ
  pub memory_kb : Option ℤ
  pub score : ℤ
  pub error_message : Option String
  pub submitted_at : Time
  pub judged_at : Option Time
  pub first_judged_at : Option Time
  pub updated_at : Time

pub record RunRow : Type 0 where
  pub id : ℕ
  pub user_id : ℕ
  pub problem_id : Option ℕ
  pub language_id : ℕ
  pub status : Status
  pub source_artifact_id : Option ℕ
  pub stdin : Option String
  pub stdout : Option String
  pub stderr : Option String
  pub compile_output : Option String
  pub time_ms : Option ℤ
  pub memory_kb : Option ℤ
  pub error_message : Option String
  pub created_at : Time
  pub finished_at : Option Time
  pub updated_at : Time

-- Of an attempt, its links, its verdict and the instants of its end; not the versions of the engine,
-- the summaries, the manifest and the trace.
pub record AttemptRow : Type 0 where
  pub id : ℕ
  pub submission_id : Option ℕ
  pub run_id : Option ℕ
  pub task_id : Option ℕ
  pub rejudge_batch_id : Option ℕ
  pub attempt_no : ℕ
  pub language_id : ℕ
  pub status : Status
  pub verdict : Option Status
  pub time_ms : Option ℤ
  pub memory_kb : Option ℤ
  pub error_message : Option String
  pub started_at : Option Time
  pub finished_at : Option Time
  pub updated_at : Time

-- Without the first failed case and the summary.
pub record ResultRow : Type 0 where
  pub submission_id : ℕ
  pub attempt_id : ℕ
  pub status : Status
  pub score : ℤ
  pub time_ms : Option ℤ
  pub memory_kb : Option ℤ
  pub updated_at : Time

pub record Tables (P : Type 0) : Type 0 where
  pub tasks : List TaskRow
  pub submissions : List SubmissionRow
  pub runs : List RunRow
  pub attempts : List AttemptRow
  pub results : List ResultRow
  pub others : P
  pub now : Time

-- `pgx.ErrNoRows`
abbrev pub no_rows : Error
no_rows = plain "no rows in result set"

-- The first row of a `:one` query.
abbrev pub one {ℓ} : {A : Type ℓ} → List A → Result A
one [] = err no_rows
one (row ∷ rows) = ok row

module _ {ℓ} {A : Type ℓ} where
  abbrev pub set : (A → Bool) → (A → A) → A → A
  set p f row = if p row then f row else row

  -- `UPDATE … SET f WHERE p`
  abbrev pub update : (A → Bool) → (A → A) → List A → List A
  update p f rows = map (set p f) rows

  -- Its `RETURNING` clause.
  abbrev pub returned : (A → Bool) → (A → A) → List A → List A
  returned p f rows = map f (filter p rows)

-- Calls within a transaction: an error is final, so no state goes with it.
abbrev pub Tx {ℓ κ} : Type ℓ → Type κ → Type (ℓ ⊔ κ)
Tx T A = T → Result (A × T)

infixl 5 ◌and_then◌
abbrev pub ◌and_then◌ {ℓ} : {T A B : Type ℓ} → Result (A × T) → (A → Tx T B) → Result (B × T)
err failure and_then next = err failure
ok (a, t) and_then next = next a t

-- `errors.Is(err, pgx.ErrNoRows)`: what follows where a query has no row, and where it has one.
abbrev pub or_no_row {ℓ κ} : {A : Type ℓ} {B : Type κ} → List A → B → (A → B) → B
or_no_row [] missing found = missing
or_no_row (row ∷ rows) missing found = found row

-- The end of `WithTx`: an error rolls back. That beginning and committing succeed is assumed.
abbrev pub settle : {T A : Type 0} → Result (A × T) → T → Result A × T
settle (err failure) before = (err failure, before)
settle (ok (a, after)) before = (ok a, after)

abbrev pub with_tx : {T A : Type 0} → Tx T A → Step T A
with_tx body t = settle (body t) t

-- What two columns that may be NULL name: equality of SQL, which NULL never satisfies.
abbrev pub refers : Option ℕ → ℕ → Bool
refers none k = false
refers (some n) k = n == k

abbrev pub is_null {ℓ} : {A : Type ℓ} → Option A → Bool
is_null none = true
is_null (some a) = false

-- `coalesce`
abbrev pub coalesce {ℓ} : {A : Type ℓ} → Option A → A → A
coalesce none a = a
coalesce (some b) a = b
