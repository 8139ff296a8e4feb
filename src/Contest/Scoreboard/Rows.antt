-- ===== src/Contest/Scoreboard/Rows.antt =====
-- The rows and cells of a board, and the ranks of its rows: `rowsForRegistrations`, `rankRows`.
use Prim.Native.String.{compare as compare_text}
use Prim.Native.Nat.{Ordering}
use soj.Prelude.{
  ℕ, suc, ◌+◌, Bool, true, false, not, ◌&&◌, Option, some, List, [], ◌∷◌, map, String,
  if◌then◌else◌,
}
use soj.Prelude.Int.{ℤ, pos, to_int32, ltb_ℤ, eqb_ℤ}
use soj.Prelude.Sort.{sort}
use soj.Contest.Types.{Time, CellStatus, ContestProblem, ContestRegistration, is_active}

pub record ScoreboardCell : Type 0 where
  pub problem_id : ℕ
  pub alias : String
  pub status : CellStatus
  pub attempts : ℤ
  pub frozen_attempts : ℤ
  pub accepted_at : Option Time
  pub penalty_minutes : ℤ
  pub last_submission_id : Option ℕ

pub record ScoreboardRow : Type 0 where
  pub rank : ℤ
  pub user_id : ℕ
  pub display_name : String
  pub accepted_count : ℤ
  pub penalty_minutes : ℤ
  pub cells : List ScoreboardCell

abbrev pub empty_cell : ContestProblem → ScoreboardCell
empty_cell problem = record {
  problem_id = problem.problem_id;
  alias = problem.alias;
  status = CellStatus.none;
  attempts = pos 0;
  frozen_attempts = pos 0;
  accepted_at = Option.none;
  penalty_minutes = pos 0;
  last_submission_id = Option.none;
}

-- `rowsForRegistrations`: a row for each active registration, with no result yet.
unfoldable pub rows_for_registrations :
    List ContestProblem → List ContestRegistration → List ScoreboardRow
rows_for_registrations problems [] = []
rows_for_registrations problems (registration ∷ registrations) =
    let rows = rows_for_registrations problems registrations in
    if is_active registration.status
    then record {
      rank = pos 0;
      user_id = registration.user_id;
      display_name = registration.display_name;
      accepted_count = pos 0;
      penalty_minutes = pos 0;
      cells = map empty_cell problems;
    }
      ∷ rows
    else rows

-- The comparison of `rankRows`: more accepted first, then less penalty, then by name.
unfoldable pub ranks_before : ScoreboardRow → ScoreboardRow → Bool
ranks_before a b =
    if not (eqb_ℤ a.accepted_count b.accepted_count)
    then ltb_ℤ b.accepted_count a.accepted_count
    else if not (eqb_ℤ a.penalty_minutes b.penalty_minutes)
    then ltb_ℤ a.penalty_minutes b.penalty_minutes
    else elim (compare_text a.display_name b.display_name) [ Ordering.lt ↦ true | _ ↦ false ]

-- Two rows share a rank.
abbrev pub ties : ScoreboardRow → ScoreboardRow → Bool
ties a b = eqb_ℤ a.accepted_count b.accepted_count && eqb_ℤ a.penalty_minutes b.penalty_minutes

unfoldable pub rank_of : ℕ → Option ScoreboardRow → ScoreboardRow → ℤ
rank_of i Option.none row = to_int32 (pos (i + 1))
rank_of i (some previous) row = if ties row previous then previous.rank else to_int32 (pos (i + 1))

-- The loop of `rankRows` from row `i` on, after `previous`.
unfoldable pub assign_ranks : ℕ → Option ScoreboardRow → List ScoreboardRow → List ScoreboardRow
assign_ranks i previous [] = []
assign_ranks i previous (row ∷ rows) =
    let ranked = record row { rank = rank_of i previous row } in
    ranked ∷ assign_ranks (suc i) (some ranked) rows

unfoldable pub rank_rows : List ScoreboardRow → List ScoreboardRow
rank_rows rows = assign_ranks 0 Option.none (sort ranks_before rows)
