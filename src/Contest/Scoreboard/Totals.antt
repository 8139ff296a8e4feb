-- ===== src/Contest/Scoreboard/Totals.antt =====
-- The totals of a row against its cells.
use soj.Prelude.{
  ℕ, ◌≡◌, refl, sym, ap, ◌∙◌, Bool, false, List, [], ◌∷◌, arith, if◌then◌else◌, map, count, All,
  All-map, Bool-cases, inl, inr,
}
use soj.Prelude.Int.{
  ℤ, pos, ◌+ℤ◌, to_int32, to_int32-add, +ℤ_assoc, pos-add, +ℤ_zero, zero_+ℤ, to_int32_zero,
}
use soj.Contest.Types.{
  Time, ScoreboardView, is_accepted, is_active, ContestRecord, ContestProblem, ContestRegistration,
  ContestSubmissionResult, ContestProblemResult,
}
use soj.Contest.Scoreboard.Live.{apply_result_to_cell}
use soj.Contest.Scoreboard.Rows.{
  ScoreboardCell, ScoreboardRow, empty_cell, rows_for_registrations, rank_rows,
}
use soj.Contest.Scoreboard.Ranking.{All-rank_rows}
use soj.Contest.Scoreboard.Board.{
  CellStates, submission_cell, show_state, count_accepted, count_state, total_cells, submission_row,
  result_cell, count_listed, result_row, build_board_from_submissions, board_rows_from_submissions,
  build_board_from_results,
}

abbrev pub cell_accepted : ScoreboardCell → Bool
cell_accepted cell = is_accepted cell.status

-- The penalties of the accepted cells, with no wrap.
abbrev pub accepted_penalty : List ScoreboardCell → ℤ
accepted_penalty [] = pos 0
accepted_penalty (cell ∷ cells) =
    let rest = accepted_penalty cells in
    if cell_accepted cell then cell.penalty_minutes +ℤ rest else rest

-- What a row counts if it counts the cell that it shows.
abbrev count_shown : ScoreboardRow → ScoreboardCell → ScoreboardRow
count_shown row cell = if cell_accepted cell then count_accepted row cell.penalty_minutes else row

abbrev counted : ScoreboardCell → ℤ
counted cell = if cell_accepted cell then pos 1 else pos 0

abbrev charged : ScoreboardCell → ℤ
charged cell = if cell_accepted cell then cell.penalty_minutes else pos 0

count_shown_accepted :
    (row : ScoreboardRow) (cell : ScoreboardCell) (n : ℤ)
    → row.accepted_count ≡ to_int32 n
    → (count_shown row cell).accepted_count ≡ to_int32 (n +ℤ counted cell)
count_shown_accepted row cell n h = elim (Bool-cases (cell_accepted cell)) [
  | inl e ↦ rw (e, h) (to_int32-add n (pos 1))
  | inr e ↦ rw (e, h) (ap to_int32 (sym (+ℤ_zero n)))
]

count_shown_penalty :
    (row : ScoreboardRow) (cell : ScoreboardCell) (n : ℤ)
    → row.penalty_minutes ≡ to_int32 n
    → (count_shown row cell).penalty_minutes ≡ to_int32 (n +ℤ charged cell)
count_shown_penalty row cell n h = elim (Bool-cases (cell_accepted cell)) [
  | inl e ↦ rw (e, h) (to_int32-add n cell.penalty_minutes)
  | inr e ↦ rw (e, h) (ap to_int32 (sym (+ℤ_zero n)))
]

counted-count :
    (cell : ScoreboardCell) (cells : List ScoreboardCell)
    → counted cell +ℤ pos (count cell_accepted cells) ≡ pos (count cell_accepted (cell ∷ cells))
counted-count cell cells = elim (Bool-cases (cell_accepted cell)) [
  | inl e ↦ rw e (pos-add 1 (count cell_accepted cells) ∙ ap pos (omega arith))
  | inr e ↦ rw e (zero_+ℤ (pos (count cell_accepted cells)))
]

charged-accepted_penalty :
    (cell : ScoreboardCell) (cells : List ScoreboardCell)
    → charged cell +ℤ accepted_penalty cells ≡ accepted_penalty (cell ∷ cells)
charged-accepted_penalty cell cells = elim (Bool-cases (cell_accepted cell)) [
  | inl e ↦ rw e refl
  | inr e ↦ rw e (zero_+ℤ (accepted_penalty cells))
]

total_cells-count :
    (row : ScoreboardRow) (cells : List ScoreboardCell) (n : ℤ)
    → row.accepted_count ≡ to_int32 n
    → (total_cells count_shown row cells).accepted_count
      ≡ to_int32 (n +ℤ pos (count cell_accepted cells))
unfolding total_cells
total_cells-count row [] n h = h ∙ ap to_int32 (sym (+ℤ_zero n))
total_cells-count row (cell ∷ cells) n h =
    total_cells-count (count_shown row cell) cells (n +ℤ counted cell)
      (count_shown_accepted row cell n h)
    ∙ ap to_int32 (
        +ℤ_assoc n (counted cell) (pos (count cell_accepted cells))
        ∙ ap (λ z. n +ℤ z) (counted-count cell cells))

total_cells_penalty :
    (row : ScoreboardRow) (cells : List ScoreboardCell) (n : ℤ)
    → row.penalty_minutes ≡ to_int32 n
    → (total_cells count_shown row cells).penalty_minutes ≡ to_int32 (n +ℤ accepted_penalty cells)
unfolding total_cells
total_cells_penalty row [] n h = h ∙ ap to_int32 (sym (+ℤ_zero n))
total_cells_penalty row (cell ∷ cells) n h =
    total_cells_penalty (count_shown row cell) cells (n +ℤ charged cell)
      (count_shown_penalty row cell n h)
    ∙ ap to_int32 (
        +ℤ_assoc n (charged cell) (accepted_penalty cells)
        ∙ ap (λ z. n +ℤ z) (charged-accepted_penalty cell cells))

-- A row's totals are those of its cells, stored in an int32.
pub record TotalsAgree (row : ScoreboardRow) : Type 0 where
  pub accepted : row.accepted_count ≡ to_int32 (pos (count cell_accepted row.cells))
  pub penalty : row.penalty_minutes ≡ to_int32 (accepted_penalty row.cells)

-- A cell that shows no result yet.
abbrev IsEmpty : ScoreboardCell → Type 0
IsEmpty cell = cell_accepted cell ≡ false

-- A row that has counted nothing yet.
abbrev IsFresh : ScoreboardRow → Type 0
IsFresh row = (row.accepted_count ≡ pos 0) × (row.penalty_minutes ≡ pos 0) × All IsEmpty row.cells

-- A loop that counts at each cell what it then shows there, counts the cells that are shown.
total_cells-map :
    (add : ScoreboardRow → ScoreboardCell → ScoreboardRow) (fill : ScoreboardCell → ScoreboardCell)
    → ((row : ScoreboardRow) (cell : ScoreboardCell)
        → IsEmpty cell
        → add row cell ≡ count_shown row (fill cell))
    → (row : ScoreboardRow) (cells : List ScoreboardCell) → All IsEmpty cells
    → total_cells add row cells ≡ total_cells count_shown row (map fill cells)
unfolding total_cells
total_cells-map add fill same row [] h = refl
total_cells-map add fill same row (cell ∷ cells) h =
    ap (λ r. total_cells add r cells) (same row cell h.0)
    ∙ total_cells-map add fill same (count_shown row (fill cell)) cells h.1

count_state-shown :
    (states : CellStates) (user : ℕ) (row : ScoreboardRow) (cell : ScoreboardCell)
    → IsEmpty cell
    → count_state states user row cell ≡ count_shown row (submission_cell states user cell)
unfolding count_state submission_cell show_state
count_state-shown states user row cell h = ground arith

count_listed-shown :
    (contest : ContestRecord) (view : ScoreboardView) (results : List ContestProblemResult)
    (user : ℕ) (row : ScoreboardRow) (cell : ScoreboardCell)
    → IsEmpty cell
    → count_listed contest view results user row cell
      ≡ count_shown row (result_cell contest view results user cell)
unfolding count_listed result_cell apply_result_to_cell
count_listed-shown contest view results user row cell h = ground arith

totals_of_IsFresh :
    (add : ScoreboardRow → ScoreboardCell → ScoreboardRow) (fill : ScoreboardCell → ScoreboardCell)
    → ((row : ScoreboardRow) (cell : ScoreboardCell)
        → IsEmpty cell
        → add row cell ≡ count_shown row (fill cell))
    → (row : ScoreboardRow) → IsFresh row
    → TotalsAgree (record (total_cells add row row.cells) { cells = map fill row.cells })
totals_of_IsFresh add fill same row h =
    rw (total_cells-map add fill same row row.cells h.2) (record {
      accepted =
          total_cells-count row (map fill row.cells) (pos 0) (h.0 ∙ sym to_int32_zero)
          ∙ ap to_int32 (zero_+ℤ (pos (count cell_accepted (map fill row.cells))));
      penalty =
          total_cells_penalty row (map fill row.cells) (pos 0) (h.1 ∙ sym to_int32_zero)
          ∙ ap to_int32 (zero_+ℤ (accepted_penalty (map fill row.cells)));
    })

IsEmpty-cells : (problems : List ContestProblem) → All IsEmpty (map empty_cell problems)
IsEmpty-cells [] = tt
IsEmpty-cells (problem ∷ problems) = (refl, IsEmpty-cells problems)

rows_for_registrations-IsFresh :
    (problems : List ContestProblem) (registrations : List ContestRegistration)
    → All IsFresh (rows_for_registrations problems registrations)
unfolding rows_for_registrations
rows_for_registrations-IsFresh problems [] = tt
rows_for_registrations-IsFresh problems (registration ∷ registrations) =
    elim (Bool-cases (is_active registration.status)) [
      | inl e ↦ rw e (
        (refl, refl, IsEmpty-cells problems),
        rows_for_registrations-IsFresh problems registrations,
      )
      | inr e ↦ rw e (rows_for_registrations-IsFresh problems registrations)
    ]

totals_ranked :
    (fill : ScoreboardRow → ScoreboardRow)
    → ((row : ScoreboardRow) → IsFresh row → TotalsAgree (fill row))
    → (rows : List ScoreboardRow) → All IsFresh rows
    → All TotalsAgree (rank_rows (map fill rows))
totals_ranked fill good rows fresh =
    All-rank_rows TotalsAgree (λ row rank h. record { accepted = h.accepted; penalty = h.penalty })
      (map fill rows) (All-map IsFresh TotalsAgree fill good rows fresh)

-- Every row of a board built from submissions counts exactly its accepted cells and their penalties.
pub build_board_from_submissions-TotalsAgree :
    (contest : ContestRecord) (view : ScoreboardView) (problems : List ContestProblem)
    (registrations : List ContestRegistration) (submissions : List ContestSubmissionResult)
    (now : Time)
    → All TotalsAgree
        (build_board_from_submissions contest view problems registrations submissions now).rows
unfolding build_board_from_submissions board_rows_from_submissions submission_row
build_board_from_submissions-TotalsAgree contest view problems registrations submissions now =
    totals_ranked _ (λ row. totals_of_IsFresh _ _ (count_state-shown _ row.user_id) row)
      (rows_for_registrations problems registrations)
      (rows_for_registrations-IsFresh problems registrations)

-- The same of a board built from the stored problem results, frozen or not.
pub build_board_from_results-TotalsAgree :
    (contest : ContestRecord) (view : ScoreboardView) (problems : List ContestProblem)
    (registrations : List ContestRegistration) (results : List ContestProblemResult) (now : Time)
    → All TotalsAgree
        (build_board_from_results contest view problems registrations results now).rows
unfolding build_board_from_results result_row
build_board_from_results-TotalsAgree contest view problems registrations results now =
    totals_ranked _
      (λ row. totals_of_IsFresh _ _ (count_listed-shown contest view results row.user_id) row)
      (rows_for_registrations problems registrations)
      (rows_for_registrations-IsFresh problems registrations)
