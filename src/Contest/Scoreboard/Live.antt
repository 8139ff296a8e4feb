-- ===== src/Contest/Scoreboard/Live.antt =====
-- The live board, page by page: `liveScoreboardPage` of scoreboard.go and what it calls.
use soj.Prelude.{
  ℕ, Bool, not, ◌&&◌, Option, some, List, [], ◌∷◌, map, String, if◌then◌else◌, ◌==◌, length, take,
}
use mathlib.Core.Option
use soj.Prelude.Int.{ℤ, pos, ◌+ℤ◌, ◌-ℤ◌, to_int32, ltb_ℤ, eqb_ℤ, pos_part}
use soj.AppError.{Result, ok, ◌>>=◌}
use soj.Contest.Types.{
  Time, ScoreboardView, is_accepted, ContestProblem, ContestRegistration, ContestProblemResult,
  ContestRecord,
}
use soj.Contest.Scoreboard.Rows.{ScoreboardCell, ScoreboardRow, empty_cell}
use soj.Contest.Scoreboard.Cursor.{
  ScoreboardCursor, CursorText, encode_scoreboard_cursor, apply_page_ranks,
}

pub record ScoreboardResponse : Type 0 where
  pub contest_id : ℕ
  pub view : ScoreboardView
  pub generated_at : Time
  pub problems : List ContestProblem
  pub rows : List ScoreboardRow
  pub next_cursor : Option CursorText

pub record ScoreboardRowsQuery : Type 0 where
  pub page_size : ℤ
  pub has_cursor : Bool
  pub after_accepted_count : ℤ
  pub after_penalty : ℤ
  pub after_display_name : String
  pub after_user_id : ℕ

-- What the live board reads of the database, and the clock.
pub record LiveStore : Type 0 where
  pub now : Time
  pub list_contest_problems : ℕ → Result (List ContestProblem)
  pub list_scoreboard_registrations : ℕ → ScoreboardRowsQuery → Result (List ContestRegistration)
  pub list_problem_results_for_users : ℕ → List ℕ → Result (List ContestProblemResult)

unfoldable pub apply_result_to_cell : ScoreboardCell → ContestProblemResult → ScoreboardCell
apply_result_to_cell cell result = record cell {
  status = result.status;
  attempts =
      (if is_accepted result.status && ltb_ℤ (pos 0) result.attempts
        then to_int32 (result.attempts -ℤ pos 1)
        else result.attempts);
  accepted_at = result.accepted_at;
  penalty_minutes = result.penalty_minutes;
  last_submission_id = result.last_submission_id;
}

-- `rowsForScoreboardRegistrations`: the counts come with the registration.
unfoldable pub rows_for_scoreboard_registrations :
    List ContestProblem → List ContestRegistration → List ScoreboardRow
rows_for_scoreboard_registrations problems [] = []
rows_for_scoreboard_registrations problems (registration ∷ registrations) =
    record {
      rank = pos 0;
      user_id = registration.user_id;
      display_name = registration.display_name;
      accepted_count = registration.accepted_count;
      penalty_minutes = registration.penalty_minutes;
      cells = map empty_cell problems;
    }
    ∷ rows_for_scoreboard_registrations problems registrations

-- The map from user and problem to the result that was listed last.
unfoldable pub find_result : ℕ → ℕ → List ContestProblemResult → Option ContestProblemResult
find_result user problem [] = Option.none
find_result user problem (result ∷ results) = elim (find_result user problem results) [
  | some later ↦ some later
  | Option.none ↦
      if (result.user_id == user) && (result.problem_id == problem)
      then some result
      else Option.none
]

unfoldable pub populate_cell : List ContestProblemResult → ℕ → ScoreboardCell → ScoreboardCell
populate_cell results user cell = elim (find_result user cell.problem_id results) [
  | Option.none ↦ cell
  | some result ↦ apply_result_to_cell cell result
]

populate_row : List ContestProblemResult → ScoreboardRow → ScoreboardRow
populate_row results row = record row { cells = map (populate_cell results row.user_id) row.cells }

-- `populateRowsWithResults`
unfoldable pub populate_rows_with_results :
    LiveStore → ℕ → List ScoreboardRow → Result (List ScoreboardRow)
unfolding populate_row
populate_rows_with_results store contest_id [] = ok []
populate_rows_with_results store contest_id rows = do
  results ← store.list_problem_results_for_users contest_id (map (λ row. row.user_id) rows)
  ok (map (populate_row results) rows)

-- The last of `previous` and the items after it.
abbrev pub last_from {ℓ} : {A : Type ℓ} → Option A → List A → Option A
last_from previous [] = previous
last_from previous (x ∷ xs) = last_from (some x) xs

abbrev pub get_last {ℓ} : {A : Type ℓ} → List A → Option A
get_last xs = last_from Option.none xs

-- The cursor behind a page whose last row is `last`.
unfoldable pub next_cursor :
    ℕ → ScoreboardView → ScoreboardCursor → List ScoreboardRow → ScoreboardRow → ScoreboardCursor
next_cursor contest_id view cursor rows last = record {
  contest_id = pos contest_id;
  view = view;
  snapshot_id = 0;
  after_ordinal = pos 0;
  after_accepted_count = last.accepted_count;
  after_penalty = last.penalty_minutes;
  after_display_name = last.display_name;
  after_user_id = last.user_id;
  rows_seen = to_int32 (cursor.rows_seen +ℤ to_int32 (pos (length rows)));
  last_rank = last.rank;
}

rows_query : ℤ → ScoreboardCursor → ScoreboardRowsQuery
rows_query page_size cursor = record {
  page_size = to_int32 (page_size +ℤ pos 1);
  has_cursor = not (eqb_ℤ cursor.contest_id (pos 0));
  after_accepted_count = cursor.after_accepted_count;
  after_penalty = cursor.after_penalty;
  after_display_name = cursor.after_display_name;
  after_user_id = cursor.after_user_id;
}

next_page :
    ContestRecord → ScoreboardView → ScoreboardCursor → List ScoreboardRow → Option CursorText
next_page contest view cursor rows =
    Option.map (λ last. encode_scoreboard_cursor (next_cursor contest.id view cursor rows last))
      (get_last rows)

-- `liveScoreboardPage`: one row more than the page shows that there is a next page. The last row
-- and the last registration of a page are of the same user.
unfoldable pub live_scoreboard_page :
    LiveStore → ContestRecord → ScoreboardView → ℤ → ScoreboardCursor → Result ScoreboardResponse
unfolding rows_query next_page
live_scoreboard_page store contest view page_size cursor = do
  problems ← store.list_contest_problems contest.id
  listed ← store.list_scoreboard_registrations contest.id (rows_query page_size cursor)
  let has_more = ltb_ℤ page_size (pos (length listed))
  let registrations = if has_more then take (pos_part page_size) listed else listed
  populated ←
      populate_rows_with_results store contest.id
        (rows_for_scoreboard_registrations problems registrations)
  let rows = apply_page_ranks cursor populated
  ok (record {
    contest_id = contest.id;
    view = view;
    generated_at = store.now;
    problems = problems;
    rows = rows;
    next_cursor = (if has_more then next_page contest view cursor rows else Option.none);
  })
