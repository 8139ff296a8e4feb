-- ===== src/Contest/Scoreboard/Cells.antt =====
-- What the cells of a board built from submissions depend on.
use soj.Prelude.{
  ℕ, ◌≡◌, refl, ap, ◌∙◌, Bool, true, ◌&&◌, Option, some, List, [], ◌∷◌, arith, if◌then◌else◌, ◌==◌,
  map, filter, Bool-cases, inl, inr,
}
use mathlib.Core.Option
use mathlib.Core.Path.{fun_ext}
use soj.Prelude.Sort.{sort, sort-map, filter-sort, IsOrder}
use soj.Submission.Status.{Status}
use soj.Contest.Types.{
  Time, ScoreboardView, ContestRecord, ContestProblem, ContestRegistration, ContestSubmissionResult,
}
use soj.Contest.Scoreboard.Board.{
  SubmissionCellState, no_submissions, submitted_before, apply_submission, visible, CellStates,
  no_states, record_submission, collect_submissions, build_board_from_submissions,
  board_rows_from_submissions,
}

-- The submissions of one user to one problem.
abbrev pub sent_by : ℕ → ℕ → ContestSubmissionResult → Bool
sent_by user problem sub = (sub.user_id == user) && (sub.problem_id == problem)

-- The state of a cell after a list of its own submissions.
unfoldable pub own_state :
    ContestRecord
    → ScoreboardView
    → Option SubmissionCellState
    → List ContestSubmissionResult
    → Option SubmissionCellState
own_state contest view state [] = state
own_state contest view state (sub ∷ subs) =
    own_state contest view
      (some (apply_submission contest view (Option.get_or state no_submissions) sub)) subs

module _ (contest : ContestRecord) (view : ScoreboardView) where
  collect_submissions-own_state :
      (states : CellStates) (subs : List ContestSubmissionResult) (user problem : ℕ)
      → collect_submissions contest view states subs user problem
        ≡ own_state contest view (states user problem) (filter (sent_by user problem) subs)
  unfolding collect_submissions own_state record_submission
  collect_submissions-own_state states [] user problem = refl
  collect_submissions-own_state states (sub ∷ subs) user problem =
      elim (Bool-cases (sent_by user problem sub)) [
        | inl e ↦
            collect_submissions-own_state (record_submission contest view states sub) subs user
              problem
            ∙ rw (e) refl
        | inr e ↦
            collect_submissions-own_state (record_submission contest view states sub) subs user
              problem
            ∙ rw (e) refl
      ]

submitted_before-IsOrder : IsOrder submitted_before
unfolding submitted_before
submitted_before-IsOrder = record {
  asym = λ x y h. ground arith;
  trans = λ x y z h k. ground arith;
}

-- The cell of a user and a problem is that of the user's own submissions to the problem, taken in
-- order: nobody else's submissions and no other problem's bear on it.
pub collect_submissions_own :
    (contest : ContestRecord) (view : ScoreboardView) (subs : List ContestSubmissionResult)
    (user problem : ℕ)
    → collect_submissions contest view no_states (sort submitted_before subs) user problem
      ≡ own_state contest view Option.none
          (sort submitted_before (filter (sent_by user problem) subs))
collect_submissions_own contest view subs user problem =
    collect_submissions-own_state contest view no_states (sort submitted_before subs) user problem
    ∙ ap (own_state contest view Option.none)
        (filter-sort submitted_before submitted_before-IsOrder (sent_by user problem) subs)

-- A submission with its verdict hidden, if a frozen board hides it.
unfoldable pub censor : ContestRecord → ContestSubmissionResult → ContestSubmissionResult
censor contest sub = if visible contest sub then sub else record sub { status = Status.other "" }

censor-visible :
    (contest : ContestRecord) (sub : ContestSubmissionResult)
    → visible contest sub ≡ true
    → censor contest sub ≡ sub
unfolding censor
censor-visible contest sub e = rw e refl

visible-censor :
    (contest : ContestRecord) (sub : ContestSubmissionResult)
    → visible contest (censor contest sub) ≡ visible contest sub
unfolding visible censor
visible-censor contest sub = ground arith

apply_submission-censor :
    (contest : ContestRecord) (state : SubmissionCellState) (sub : ContestSubmissionResult)
    → apply_submission contest ScoreboardView.frozen state (censor contest sub)
      ≡ apply_submission contest ScoreboardView.frozen state sub
unfolding apply_submission
apply_submission-censor contest state sub = elim (Bool-cases (visible contest sub)) [
  | inl e ↦ ap (apply_submission contest ScoreboardView.frozen state) (censor-visible contest sub e)
  | inr e ↦ simp (visible-censor contest sub, e) refl
]

censor_user :
    (contest : ContestRecord) (sub : ContestSubmissionResult)
    → (censor contest sub).user_id ≡ sub.user_id
unfolding censor
censor_user contest sub = ground arith

censor_problem :
    (contest : ContestRecord) (sub : ContestSubmissionResult)
    → (censor contest sub).problem_id ≡ sub.problem_id
unfolding censor
censor_problem contest sub = ground arith

record_submission-censor :
    (contest : ContestRecord) (states : CellStates) (sub : ContestSubmissionResult)
    → record_submission contest ScoreboardView.frozen states (censor contest sub)
      ≡ record_submission contest ScoreboardView.frozen states sub
unfolding record_submission
record_submission-censor contest states sub = fun_ext λ user. fun_ext λ problem. simp (
  censor_user contest sub,
  censor_problem contest sub,
  apply_submission-censor contest (Option.get_or (states user problem) no_submissions) sub,
)

collect_submissions-censor :
    (contest : ContestRecord) (states : CellStates) (subs : List ContestSubmissionResult)
    → collect_submissions contest ScoreboardView.frozen states (map (censor contest) subs)
      ≡ collect_submissions contest ScoreboardView.frozen states subs
unfolding collect_submissions
collect_submissions-censor contest states [] = refl
collect_submissions-censor contest states (sub ∷ subs) =
    ap (λ s. collect_submissions contest ScoreboardView.frozen s (map (censor contest) subs))
      (record_submission-censor contest states sub)
    ∙ collect_submissions-censor contest
        (record_submission contest ScoreboardView.frozen states sub) subs

submitted_before-censor :
    (contest : ContestRecord) (a b : ContestSubmissionResult)
    → submitted_before (censor contest a) (censor contest b) ≡ submitted_before a b
unfolding submitted_before censor
submitted_before-censor contest a b = ground arith

-- A frozen board built from submissions tells nothing of the verdicts that it hides: it is the same
-- when the status of every submission sent or first judged too late for the freeze is blanked.
pub build_board_from_submissions-censor :
    (contest : ContestRecord) (problems : List ContestProblem)
    (registrations : List ContestRegistration) (submissions : List ContestSubmissionResult)
    (now : Time)
    → build_board_from_submissions contest ScoreboardView.frozen problems registrations
        (map (censor contest) submissions)
        now
      ≡ build_board_from_submissions contest ScoreboardView.frozen problems registrations
          submissions now
unfolding build_board_from_submissions board_rows_from_submissions
build_board_from_submissions-censor contest problems registrations submissions now =
    rw
      (sort-map (censor contest) submitted_before submitted_before (submitted_before-censor contest)
        submissions)
      (rw (collect_submissions-censor contest no_states (sort submitted_before submissions)) refl)
