-- ===== src/Contest/Scoreboard/Cursor.antt =====
-- Page sizes and cursors of the board: scoreboard_pagination.go, and `applyPageRanks`.
use soj.Prelude.{ℕ, suc, not, ◌&&◌, ◌||◌, Option, some, List, [], ◌∷◌, String, if◌then◌else◌, ◌==◌}
use soj.Prelude.Int.{ℤ, pos, ◌+ℤ◌, to_int32, ltb_ℤ, leb_ℤ, eqb_ℤ}
use soj.AppError.{Result, ok, err, bad_request}
use soj.Contest.Types.{ScoreboardView, same_view, is_unset}
use soj.Contest.Scoreboard.Rows.{ScoreboardRow, ties}

-- The contest id of a decoded cursor is any int64.
pub record ScoreboardCursor : Type 0 where
  pub contest_id : ℤ
  pub view : ScoreboardView
  pub snapshot_id : ℕ
  pub after_ordinal : ℤ
  pub after_accepted_count : ℤ
  pub after_penalty : ℤ
  pub after_display_name : String
  pub after_user_id : ℕ
  pub rows_seen : ℤ
  pub last_rank : ℤ

abbrev pub zero_cursor : ScoreboardCursor
zero_cursor = record {
  contest_id = pos 0;
  view = ScoreboardView.unset;
  snapshot_id = 0;
  after_ordinal = pos 0;
  after_accepted_count = pos 0;
  after_penalty = pos 0;
  after_display_name = "";
  after_user_id = 0;
  rows_seen = pos 0;
  last_rank = pos 0;
}

-- A cursor's text, by what it is: empty, the base64 of the JSON of a cursor, or neither.
pub data CursorText : Type 0 where
  empty malformed : CursorText
  payload : ScoreboardCursor → CursorText

abbrev pub max_scoreboard_page_size : ℤ
max_scoreboard_page_size = pos 100

pub normalize_scoreboard_page_size : ℤ → Result ℤ
normalize_scoreboard_page_size size =
    if ltb_ℤ size (pos 1) || ltb_ℤ max_scoreboard_page_size size
    then err (bad_request "invalid_argument" "scoreboard page_size must be between 1 and 100")
    else ok size

-- Marshalling a cursor does not fail.
unfoldable pub encode_scoreboard_cursor : ScoreboardCursor → CursorText
encode_scoreboard_cursor cursor = CursorText.payload cursor

unfoldable pub decode_scoreboard_cursor : CursorText → Result ScoreboardCursor
decode_scoreboard_cursor CursorText.empty = ok zero_cursor
decode_scoreboard_cursor CursorText.malformed =
    err (bad_request "invalid_cursor" "scoreboard cursor is invalid")
decode_scoreboard_cursor (CursorText.payload cursor) =
    if leb_ℤ cursor.contest_id (pos 0) || is_unset cursor.view
    then err (bad_request "invalid_cursor" "scoreboard cursor is invalid")
    else ok cursor

unfoldable pub validate_scoreboard_cursor :
    ScoreboardCursor → ℕ → ScoreboardView → Result (Unit {0})
validate_scoreboard_cursor cursor contest_id view =
    if eqb_ℤ cursor.contest_id (pos 0)
    then ok tt
    else if not (eqb_ℤ cursor.contest_id (pos contest_id)) || not (same_view cursor.view view)
    then err (bad_request "invalid_cursor" "scoreboard cursor does not belong to this contest view")
    else if not (cursor.snapshot_id == 0) && ltb_ℤ cursor.after_ordinal (pos 0)
    then err (bad_request "invalid_cursor" "scoreboard cursor is invalid")
    else ok tt

-- `applyPageRanks`: the rank of row `i` of a page, after the page's row `previous`.
unfoldable pub page_rank : ScoreboardCursor → ℕ → Option ScoreboardRow → ScoreboardRow → ℤ
page_rank cursor i Option.none row =
    if not (eqb_ℤ cursor.contest_id (pos 0))
      && eqb_ℤ row.accepted_count cursor.after_accepted_count
      && eqb_ℤ row.penalty_minutes cursor.after_penalty
    then cursor.last_rank
    else to_int32 (to_int32 (cursor.rows_seen +ℤ to_int32 (pos i)) +ℤ pos 1)
page_rank cursor i (some previous) row =
    if ties row previous
    then previous.rank
    else to_int32 (to_int32 (cursor.rows_seen +ℤ to_int32 (pos i)) +ℤ pos 1)

unfoldable pub page_ranks_from :
    ScoreboardCursor → ℕ → Option ScoreboardRow → List ScoreboardRow → List ScoreboardRow
page_ranks_from cursor i previous [] = []
page_ranks_from cursor i previous (row ∷ rows) =
    let ranked = record row { rank = page_rank cursor i previous row } in
    ranked ∷ page_ranks_from cursor (suc i) (some ranked) rows

unfoldable pub apply_page_ranks : ScoreboardCursor → List ScoreboardRow → List ScoreboardRow
apply_page_ranks cursor rows = page_ranks_from cursor 0 Option.none rows
