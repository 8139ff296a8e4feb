-- ===== src/Examples/Boards.antt =====
-- Scoreboards of a small contest: internal/contest/scoreboard.go at concrete inputs.
use soj.Prelude.{
  ℕ, suc, ◌≡◌, refl, true, some, none, List, [], ◌∷◌, map, All, count, flatten, filter, arith,
}
use soj.Prelude.Int.{pos, to_int32, ltb_ℤ}
use soj.Prelude.Sort.{sort, IsOrdered}
use soj.Submission.Status.{Status}
use soj.Contest.Types.{
  Visibility, ContestStatus, RegistrationStatus, CellStatus, ScoreboardView, ContestProblem,
  ContestRecord, ContestRegistration, ContestProblemResult, ContestSubmissionResult,
}
use soj.Contest.Scoreboard.Rows.{ScoreboardRow, rank_rows, assign_ranks}
use soj.Contest.Scoreboard.Ranking.{beaten_by, NotBeaten, rank_rows-beaten_by, rank_rows_sorts}
use soj.Contest.Scoreboard.Cursor.{zero_cursor}
use soj.Contest.Scoreboard.Paging.{follow_pages, follow_pages-assign_ranks}
use soj.Contest.Scoreboard.Board.{
  build_board_from_submissions, build_board_from_results, collect_submissions, no_states,
  submitted_before,
}
use soj.Contest.Scoreboard.Cells.{
  censor, own_state, sent_by, collect_submissions_own, build_board_from_submissions-censor,
}
use soj.Contest.Scoreboard.Totals.{
  TotalsAgree, build_board_from_submissions-TotalsAgree, build_board_from_results-TotalsAgree,
}
use soj.Submission.Projection.{build_contest_problem_projection}
use soj.Contest.Scoreboard.Agreement.{
  CellsAgree, live_cell, final_cell, projected, projection-CellsAgree,
}

abbrev row : ℕ → ℕ → ℕ → ScoreboardRow
row user accepted penalty = record {
  rank = pos 0;
  user_id = user;
  display_name = "user";
  accepted_count = pos accepted;
  penalty_minutes = pos penalty;
  cells = [];
}

-- The second and third rows tie.
abbrev three_rows : List ScoreboardRow
three_rows = row 1 1 30 ∷ row 2 2 50 ∷ row 3 1 30 ∷ []

abbrev minute : ℕ
minute = 60000000000

abbrev problem : ContestProblem
problem = record { contest_id = 7; problem_id = 10; alias = "A"; sort_order = pos 1; title = "Sum" }

-- It starts at 0, freezes at 100 minutes and ends at 120.
abbrev contest : ContestRecord
contest = record {
  id = 7;
  owner_user_id = 9;
  title = "Round";
  description = none;
  visibility = Visibility.public;
  status = ContestStatus.running;
  start_at = 0;
  end_at = 7200000000000;
  freeze_at = 6000000000000;
  invite_code_hash = "";
  score_revision = 0;
  registered = true;
  problems = problem ∷ [];
}

abbrev registration : ℕ → ContestRegistration
registration user = record {
  id = user;
  contest_id = 7;
  user_id = user;
  display_name = "user";
  email = "user@example.org";
  status = RegistrationStatus.active;
  registered_at = 0;
  accepted_count = pos 0;
  penalty_minutes = pos 0;
}

abbrev sent : ℕ → ℕ → Status → ℕ → ContestSubmissionResult
sent id user status at = record {
  id = id;
  contest_id = 7;
  user_id = user;
  problem_id = 10;
  status = status;
  submitted_at = at;
  judged_at = at;
  first_judged_at = some at;
}

-- One wrong attempt and then a success of user 1, and a success of user 2 inside the freeze.
abbrev submissions : List ContestSubmissionResult
submissions =
    sent 3 2 Status.accepted 6060000000000
    ∷ sent 2 1 Status.accepted 1200000000000
    ∷ sent 1 1 Status.wrong_answer 600000000000
    ∷ []

abbrev result : ContestProblemResult
result = record {
  contest_id = 7;
  user_id = 1;
  problem_id = 10;
  status = CellStatus.accepted;
  attempts = pos 2;
  accepted_at = some 1200000000000;
  penalty_minutes = pos 40;
  last_submission_id = some 2;
}

rank_rows-beaten_by_example :
    All (λ r. r.rank ≡ to_int32 (pos (suc (beaten_by three_rows r)))) (rank_rows three_rows)
rank_rows-beaten_by_example = rank_rows-beaten_by three_rows

rank_rows_sorts_example :
    IsOrdered NotBeaten (rank_rows three_rows)
    × (count (λ r. ltb_ℤ (pos 1) r.accepted_count) (rank_rows three_rows)
        ≡ count (λ r. ltb_ℤ (pos 1) r.accepted_count) three_rows)
rank_rows_sorts_example =
    rank_rows_sorts three_rows (λ r. ltb_ℤ (pos 1) r.accepted_count) (λ r rank. refl)

abbrev two_pages : List (List ScoreboardRow)
two_pages = (row 2 2 50 ∷ row 1 1 30 ∷ []) ∷ (row 3 1 30 ∷ []) ∷ []

follow_pages-assign_ranks_example :
    follow_pages 7 ScoreboardView.live zero_cursor two_pages
    ≡ assign_ranks 0 none (flatten two_pages)
follow_pages-assign_ranks_example =
    follow_pages-assign_ranks 7 ScoreboardView.live (omega arith) two_pages (tt, (tt, tt))

collect_submissions_own_example :
    collect_submissions contest ScoreboardView.frozen no_states
      (sort submitted_before submissions)
      1
      10
    ≡ own_state contest ScoreboardView.frozen none
        (sort submitted_before (filter (sent_by 1 10) submissions))
collect_submissions_own_example =
    collect_submissions_own contest ScoreboardView.frozen submissions 1 10

build_board_from_submissions-censor_example :
    build_board_from_submissions contest ScoreboardView.frozen
      (problem ∷ [])
      (registration 1 ∷ registration 2 ∷ [])
      (map (censor contest) submissions)
      6600000000000
    ≡ build_board_from_submissions contest ScoreboardView.frozen
        (problem ∷ [])
        (registration 1 ∷ registration 2 ∷ [])
        submissions
        6600000000000
build_board_from_submissions-censor_example =
    build_board_from_submissions-censor contest (problem ∷ [])
      (registration 1 ∷ registration 2 ∷ []) submissions 6600000000000

build_board_from_submissions-TotalsAgree_example :
    All TotalsAgree
      (build_board_from_submissions contest ScoreboardView.final
        (problem ∷ [])
        (registration 1 ∷ registration 2 ∷ [])
        submissions
        7200000000000).rows
build_board_from_submissions-TotalsAgree_example =
    build_board_from_submissions-TotalsAgree contest ScoreboardView.final (problem ∷ [])
      (registration 1 ∷ registration 2 ∷ []) submissions 7200000000000

build_board_from_results-TotalsAgree_example :
    All TotalsAgree
      (build_board_from_results contest ScoreboardView.frozen
        (problem ∷ [])
        (registration 1 ∷ registration 2 ∷ [])
        (result ∷ [])
        6600000000000).rows
build_board_from_results-TotalsAgree_example =
    build_board_from_results-TotalsAgree contest ScoreboardView.frozen (problem ∷ [])
      (registration 1 ∷ registration 2 ∷ []) (result ∷ []) 6600000000000

abbrev own_submissions : List ContestSubmissionResult
own_submissions =
    sent 2 1 Status.accepted 1200000000000 ∷ sent 1 1 Status.wrong_answer 600000000000 ∷ []

projection-CellsAgree_example :
    CellsAgree
      (live_cell contest problem 1 (
        build_contest_problem_projection contest.start_at
          (map (projected (λ id. some id)) own_submissions)))
      (final_cell contest problem 1
        (own_state contest ScoreboardView.frozen none (sort submitted_before own_submissions)))
unfolding soj.Contest.Scoreboard.Board.visible
projection-CellsAgree_example =
    projection-CellsAgree contest problem 1 ScoreboardView.frozen (λ id. some id) own_submissions
      (refl, (refl, tt)) (omega arith)
