-- ===== src/Contest/Scoreboard/Service.antt =====
-- internal/contest/scoreboard.go: the reads of a scoreboard and the generation of snapshots.
pub mod Views
use soj.Prelude.{
  ℕ, ◌+◌, Bool, true, false, ◌&&◌, ◌||◌, not, Option, some, List, [], ◌∷◌, String, if◌then◌else◌,
  ◌==◌, ltb, length, take,
}
use mathlib.Core.Option
use soj.Prelude.Int.{ℤ, pos, ◌+ℤ◌, to_int32, ltb_ℤ, leb_ℤ, pos_part}
use soj.AppError.{Result, ok, err, Error, new, forbidden, bad_request, is_not_found, ◌>>=◌, ◌>>◌}
use soj.Auth.{Actor}
use soj.Contest.Types.{
  Time, before, ContestRecord, ContestProblem, ContestRegistration, ContestProblemResult,
  ContestSubmissionResult, ScoreboardView, is_frozen_view, is_unset,
}
use soj.Contest.Access.{
  ContestStore, can_view_contest_results, actor_with_contest_roles, can_read_contest_as,
}
use soj.Contest.Scoreboard.Rows.{ScoreboardRow}
use soj.Contest.Scoreboard.Cursor.{
  ScoreboardCursor, zero_cursor, CursorText, normalize_scoreboard_page_size,
  encode_scoreboard_cursor, decode_scoreboard_cursor, validate_scoreboard_cursor,
}
use soj.Contest.Scoreboard.Live.{
  ScoreboardResponse, ScoreboardRowsQuery, LiveStore, live_scoreboard_page,
}
use soj.Contest.Scoreboard.Board.{build_board_from_submissions, build_board_from_results}

-- `now` is what the clock shows when the function reads it; each of the two reads it for itself.
unfoldable pub default_scoreboard_view : Time → ContestRecord → ScoreboardView → ScoreboardView
default_scoreboard_view now contest requested =
    if not (is_unset requested)
    then requested
    else if not (before now contest.end_at)
    then ScoreboardView.final
    else if not (before now contest.freeze_at)
    then ScoreboardView.frozen
    else ScoreboardView.live

unfoldable pub can_view_scoreboard :
    Time → Actor → ContestRecord → ScoreboardView → Result (Unit {0})
can_view_scoreboard now actor contest ScoreboardView.live =
    if before now contest.freeze_at || can_view_contest_results actor contest
    then ok tt
    else err (forbidden "contest.scoreboard_hidden" "live scoreboard is hidden after freeze time")
can_view_scoreboard now actor contest ScoreboardView.frozen =
    if before now contest.freeze_at
    then err (bad_request "invalid_argument" "frozen view is not available before freeze time")
    else ok tt
can_view_scoreboard now actor contest ScoreboardView.final =
    if before now contest.end_at
    then err (forbidden "contest.scoreboard_hidden" "final scoreboard is hidden before contest end")
    else ok tt
can_view_scoreboard now actor contest _ =
    err (bad_request "invalid_argument" "scoreboard view is invalid")

pub record ScoreboardQuery : Type 0 where
  pub view : ScoreboardView
  pub page_size : ℤ
  pub cursor : CursorText

-- A stored snapshot, as far as a page shows it.
pub record ScoreboardSnapshot : Type 0 where
  pub id : ℕ
  pub problems : List ContestProblem
  pub generated_at : Time

pub record ScoreSnapshotPage : Type 0 where
  pub snapshot : ScoreboardSnapshot
  pub rows : List ScoreboardRow

-- The reads of the scoreboard service: the contest reader's, and those of `scoreboardStore`.
pub record ScoreboardStore : Type 0 where
  pub reader : ContestStore
  pub list_registrations : ℕ → Result (List ContestRegistration)
  pub list_problem_results : ℕ → Result (List ContestProblemResult)
  pub list_scoreboard_registrations : ℕ → ScoreboardRowsQuery → Result (List ContestRegistration)
  pub list_problem_results_for_users : ℕ → List ℕ → Result (List ContestProblemResult)
  pub list_terminal_submissions : ℕ → Result (List ContestSubmissionResult)
  pub read_score_snapshot_page : ℕ → ScoreboardView → ℤ → ℤ → Result ScoreSnapshotPage

abbrev pub live_store : ScoreboardStore → LiveStore
live_store store = record {
  now = store.reader.now;
  list_contest_problems = store.reader.list_contest_problems;
  list_scoreboard_registrations = store.list_scoreboard_registrations;
  list_problem_results_for_users = store.list_problem_results_for_users;
}

-- The error of a snapshot read: a missing snapshot is not ready yet.
unfoldable pub snapshot_error : Error → Error
snapshot_error e =
    if is_not_found e
    then new "contest.scoreboard_not_ready" "scoreboard snapshot is not ready" 503
    else e

unfoldable pub snapshot_cursor : ℕ → ScoreboardView → ℕ → ℤ → List ScoreboardRow → ScoreboardCursor
snapshot_cursor contest_id view snapshot_id after_ordinal rows = record zero_cursor {
  contest_id = pos contest_id;
  view = view;
  snapshot_id = snapshot_id;
  after_ordinal = to_int32 (to_int32 (pos (length rows)) +ℤ after_ordinal);
}

unfoldable pub shown_snapshot_page :
    ContestRecord
    → ScoreboardView
    → ℤ
    → ScoreboardCursor
    → ℤ
    → ScoreSnapshotPage
    → Result ScoreboardResponse
shown_snapshot_page contest view page_size cursor after_ordinal page =
    if not (cursor.snapshot_id == 0) && not (cursor.snapshot_id == page.snapshot.id)
    then err (bad_request "invalid_cursor" "scoreboard snapshot cursor is stale")
    else let has_more = ltb_ℤ page_size (pos (length page.rows)) in
      let rows = if has_more then take (pos_part page_size) page.rows else page.rows in
      ok (record {
        contest_id = contest.id;
        view = view;
        generated_at = page.snapshot.generated_at;
        problems = page.snapshot.problems;
        rows = rows;
        next_cursor =
            (if has_more && ltb 0 (length rows)
              then some (
                  encode_scoreboard_cursor
                    (snapshot_cursor contest.id view page.snapshot.id after_ordinal rows))
              else Option.none);
      })

unfoldable pub score_snapshot_page :
    ScoreboardStore
    → ContestRecord
    → ScoreboardView
    → ℤ
    → ScoreboardCursor
    → Result ScoreboardResponse
score_snapshot_page store contest view page_size cursor =
    let after_ordinal = if not (cursor.snapshot_id == 0) then cursor.after_ordinal else pos 0 in
    elim (store.read_score_snapshot_page contest.id view after_ordinal
      (to_int32 (page_size +ℤ pos 1))) [
        | ok page ↦ shown_snapshot_page contest view page_size cursor after_ordinal page
        | err e ↦ err (snapshot_error e)
      ]

abbrev pub is_snapshot_view : ScoreboardView → Bool
is_snapshot_view ScoreboardView.final = true
is_snapshot_view ScoreboardView.frozen = true
is_snapshot_view _ = false

-- `chosen_at` and `checked_at` are the readings of the clock by the two functions above.
unfoldable pub scoreboard :
    ScoreboardStore → Time → Time → Actor → ℕ → ScoreboardQuery → Result ScoreboardResponse
scoreboard store chosen_at checked_at actor contest_id query = do
  contest ← store.reader.get_contest contest_id
  scoped ← actor_with_contest_roles store.reader actor contest_id
  can_read_contest_as store.reader scoped contest
  let view = default_scoreboard_view chosen_at contest query.view
  can_view_scoreboard checked_at scoped contest view
  page_size ← normalize_scoreboard_page_size query.page_size
  cursor ← decode_scoreboard_cursor query.cursor
  validate_scoreboard_cursor cursor contest_id view
  if is_snapshot_view view
      then score_snapshot_page store contest view page_size cursor
      else live_scoreboard_page (live_store store) contest view page_size cursor

unfoldable pub build_from_results :
    ScoreboardStore
    → ContestRecord
    → ScoreboardView
    → List ContestProblem
    → List ContestRegistration
    → Time
    → Result (ScoreboardResponse × ℕ)
build_from_results store contest view problems registrations generated_at = do
  results ← store.list_problem_results contest.id
  ok (
    build_board_from_results contest view problems registrations results generated_at,
    contest.score_revision,
  )

-- `buildScoreboard`: the board of a snapshot, and the revision it is of.
unfoldable pub build_scoreboard :
    ScoreboardStore → ContestRecord → ScoreboardView → Time → Result (ScoreboardResponse × ℕ)
build_scoreboard store contest view generated_at = do
  problems ← store.reader.list_contest_problems contest.id
  registrations ← store.list_registrations contest.id
  if not (is_frozen_view view)
      then build_from_results store contest view problems registrations generated_at
      else do
        submissions ← store.list_terminal_submissions contest.id
        if ltb 0 (length submissions)
            then ok (
              build_board_from_submissions contest view problems registrations submissions
                  generated_at,
              contest.score_revision,
            )
            else build_from_results store contest view problems registrations generated_at
