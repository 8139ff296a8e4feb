-- ===== src/Contest/Scoreboard/Board.antt =====
-- The boards that are built at once, for snapshots: `buildBoardFromSubmissions` and
-- `buildBoardFromResults` of scoreboard.go.
use soj.Prelude.{
  ℕ, Bool, not, ◌&&◌, ◌||◌, Option, some, List, [], ◌∷◌, ltb, if◌then◌else◌, ◌==◌, map,
}
use mathlib.Core.Option
use soj.Prelude.Int.{ℤ, pos, ◌+ℤ◌, ◌*ℤ◌, to_int32, ltb_ℤ}
use soj.Prelude.Sort.{sort}
use soj.Submission.Status
use soj.Contest.Types.{
  Time, before, after, minutes_between, ScoreboardView, is_frozen_view, CellStatus, is_accepted,
  ContestRecord, ContestProblem, ContestRegistration, ContestProblemResult, ContestSubmissionResult,
}
use soj.Contest.Scoreboard.Rows.{ScoreboardCell, ScoreboardRow, rows_for_registrations, rank_rows}
use soj.Contest.Scoreboard.Live.{ScoreboardResponse, find_result, apply_result_to_cell}

pub record SubmissionCellState : Type 0 where
  pub wrong_attempts : ℤ
  pub wrong_before_accepted : ℤ
  pub hidden_attempts : ℤ
  pub accepted_at : Option Time
  pub penalty_minutes : ℤ
  pub last_submission_id : Option ℕ

abbrev pub no_submissions : SubmissionCellState
no_submissions = record {
  wrong_attempts = pos 0;
  wrong_before_accepted = pos 0;
  hidden_attempts = pos 0;
  accepted_at = Option.none;
  penalty_minutes = pos 0;
  last_submission_id = Option.none;
}

-- The order in which submissions count: by time, and by id at the same time.
unfoldable pub submitted_before : ContestSubmissionResult → ContestSubmissionResult → Bool
submitted_before a b =
    if a.submitted_at == b.submitted_at then ltb a.id b.id else before a.submitted_at b.submitted_at

abbrev pub increment : ℤ → ℤ
increment n = to_int32 (n +ℤ pos 1)

abbrev pub penalty_for : Time → Time → ℤ → ℤ
penalty_for submitted start wrong =
    to_int32 (minutes_between submitted start +ℤ to_int32 (wrong *ℤ pos 20))

unfoldable pub apply_visible_submission :
    ContestRecord → SubmissionCellState → ContestSubmissionResult → SubmissionCellState
apply_visible_submission contest state sub = elim state.accepted_at [
  | some t ↦ state
  | Option.none ↦
      if Status.is_accepted sub.status
      then record state {
        accepted_at = some sub.submitted_at;
        wrong_before_accepted = state.wrong_attempts;
        penalty_minutes = penalty_for sub.submitted_at contest.start_at state.wrong_attempts;
        last_submission_id = some sub.id;
      }
      else record state { wrong_attempts = increment state.wrong_attempts }
]

-- A submission that a frozen board shows: it was sent before the freeze and first judged by then.
unfoldable pub visible : ContestRecord → ContestSubmissionResult → Bool
visible contest sub =
    let judged_at = Option.get_or sub.first_judged_at sub.judged_at in
    before sub.submitted_at contest.freeze_at && not (after judged_at contest.freeze_at)

unfoldable pub apply_submission :
    ContestRecord
    → ScoreboardView
    → SubmissionCellState
    → ContestSubmissionResult
    → SubmissionCellState
apply_submission contest view state sub =
    if not (is_frozen_view view) || visible contest sub
    then apply_visible_submission contest state sub
    else record state { hidden_attempts = increment state.hidden_attempts }

-- The map from user and problem to the state of their cell.
abbrev pub CellStates : Type 0
CellStates = ℕ → ℕ → Option SubmissionCellState

abbrev pub no_states : CellStates
no_states user problem = Option.none

unfoldable pub record_submission :
    ContestRecord → ScoreboardView → CellStates → ContestSubmissionResult → CellStates
record_submission contest view states sub user problem =
    if (sub.user_id == user) && (sub.problem_id == problem)
    then some
        (apply_submission contest view (Option.get_or (states user problem) no_submissions) sub)
    else states user problem

unfoldable pub collect_submissions :
    ContestRecord → ScoreboardView → CellStates → List ContestSubmissionResult → CellStates
collect_submissions contest view states [] = states
collect_submissions contest view states (sub ∷ subs) =
    collect_submissions contest view (record_submission contest view states sub) subs

-- What the cell shows of its state.
unfoldable pub show_state : ScoreboardCell → SubmissionCellState → ScoreboardCell
show_state cell state = elim state.accepted_at [
  | some t ↦ record cell {
    status = CellStatus.accepted;
    attempts = state.wrong_before_accepted;
    accepted_at = some t;
    penalty_minutes = state.penalty_minutes;
    last_submission_id = state.last_submission_id;
  }
  | Option.none ↦
      if ltb_ℤ (pos 0) state.hidden_attempts
      then record cell { status = CellStatus.frozen; frozen_attempts = state.hidden_attempts }
      else if ltb_ℤ (pos 0) state.wrong_attempts
      then record cell { status = CellStatus.attempted; attempts = state.wrong_attempts }
      else cell
]

unfoldable pub submission_cell : CellStates → ℕ → ScoreboardCell → ScoreboardCell
submission_cell states user cell = elim (states user cell.problem_id) [
  | Option.none ↦ cell
  | some state ↦ show_state cell state
]

-- An accepted problem of a row, with its penalty.
abbrev pub count_accepted : ScoreboardRow → ℤ → ScoreboardRow
count_accepted row penalty = record row {
  accepted_count = increment row.accepted_count;
  penalty_minutes = to_int32 (row.penalty_minutes +ℤ penalty);
}

-- What the loop over the cells of a row adds to the row at one cell.
unfoldable pub count_state : CellStates → ℕ → ScoreboardRow → ScoreboardCell → ScoreboardRow
count_state states user row cell = elim (states user cell.problem_id) [
  | Option.none ↦ row
  | some state ↦ elim state.accepted_at [
    | some t ↦ count_accepted row state.penalty_minutes
    | Option.none ↦ row
  ]
]

-- The loop over the cells of a row, as far as it changes the row; `add` is what it does at one cell.
unfoldable pub total_cells :
    (ScoreboardRow → ScoreboardCell → ScoreboardRow)
    → ScoreboardRow
    → List ScoreboardCell
    → ScoreboardRow
total_cells add row [] = row
total_cells add row (cell ∷ cells) = total_cells add (add row cell) cells

unfoldable pub submission_row : CellStates → ScoreboardRow → ScoreboardRow
submission_row states row = record (total_cells (count_state states row.user_id) row row.cells) {
  cells = map (submission_cell states row.user_id) row.cells;
}

unfoldable pub board_rows_from_submissions :
    ContestRecord
    → ScoreboardView
    → List ContestProblem
    → List ContestRegistration
    → List ContestSubmissionResult
    → List ScoreboardRow
board_rows_from_submissions contest view problems registrations submissions =
    let states = collect_submissions contest view no_states (sort submitted_before submissions) in
    rank_rows (map (submission_row states) (rows_for_registrations problems registrations))

unfoldable pub build_board_from_submissions :
    ContestRecord
    → ScoreboardView
    → List ContestProblem
    → List ContestRegistration
    → List ContestSubmissionResult
    → Time
    → ScoreboardResponse
build_board_from_submissions contest view problems registrations submissions now = record {
  contest_id = contest.id;
  view = view;
  generated_at = now;
  problems = problems;
  rows = board_rows_from_submissions contest view problems registrations submissions;
  next_cursor = Option.none;
}

-- `buildBoardFromResults`: a frozen board hides what was accepted after the freeze.
unfoldable pub result_cell :
    ContestRecord → ScoreboardView → List ContestProblemResult → ℕ → ScoreboardCell → ScoreboardCell
result_cell contest view results user cell = elim (find_result user cell.problem_id results) [
  | Option.none ↦ cell
  | some result ↦
      let shown = apply_result_to_cell cell result in
      elim result.accepted_at [
        | Option.none ↦ shown
        | some t ↦
            if is_frozen_view view && after t contest.freeze_at
            then record shown {
              status = CellStatus.frozen;
              attempts = pos 0;
              frozen_attempts = result.attempts;
              accepted_at = Option.none;
              penalty_minutes = pos 0;
              last_submission_id = Option.none;
            }
            else shown
      ]
]

abbrev pub count_result : ScoreboardRow → ContestProblemResult → ScoreboardRow
count_result row result =
    if is_accepted result.status then count_accepted row result.penalty_minutes else row

-- What the loop adds to the row at one cell; a cell that is frozen is passed over.
unfoldable pub count_listed :
    ContestRecord
    → ScoreboardView
    → List ContestProblemResult
    → ℕ
    → ScoreboardRow
    → ScoreboardCell
    → ScoreboardRow
count_listed contest view results user row cell = elim (find_result user cell.problem_id results) [
  | Option.none ↦ row
  | some result ↦ elim result.accepted_at [
    | Option.none ↦ count_result row result
    | some t ↦
        if is_frozen_view view && after t contest.freeze_at then row else count_result row result
  ]
]

unfoldable pub result_row :
    ContestRecord → ScoreboardView → List ContestProblemResult → ScoreboardRow → ScoreboardRow
result_row contest view results row =
    record (total_cells (count_listed contest view results row.user_id) row row.cells) {
      cells = map (result_cell contest view results row.user_id) row.cells;
    }

unfoldable pub build_board_from_results :
    ContestRecord
    → ScoreboardView
    → List ContestProblem
    → List ContestRegistration
    → List ContestProblemResult
    → Time
    → ScoreboardResponse
build_board_from_results contest view problems registrations results now = record {
  contest_id = contest.id;
  view = view;
  generated_at = now;
  problems = problems;
  rows =
      rank_rows
        (map (result_row contest view results) (rows_for_registrations problems registrations));
  next_cursor = Option.none;
}
