-- ===== src/Contest/Scoreboard/Agreement.antt =====
-- The live board, which shows stored results, and the frozen one, which is built from submissions,
-- show the same cells where the freeze hides nothing.
use soj.Prelude.{
  ℕ, zero, suc, ◌+◌, ◌<◌, ◌≡◌, refl, ap, ◌∙◌, All, not, ◌||◌, true, false, Option, some, List, [],
  ◌∷◌, arith, if◌then◌else◌, ◌==◌, map, length, Bool-cases, inl, inr,
}
use soj.Prelude.Int.{pos, ◌+ℤ◌, ◌-ℤ◌, to_int32}
use soj.Prelude.Sort.{sort, sort-map, length-sort, All-sort}
use soj.Submission.Status
use soj.Contest.Types.{
  Time, ScoreboardView, is_frozen_view, is_accepted, CellStatus, ContestRecord, ContestProblem,
  ContestSubmissionResult,
}
use soj.Contest.Scoreboard.Rows.{ScoreboardCell, empty_cell}
use soj.Contest.Scoreboard.Live.{apply_result_to_cell}
use soj.Contest.Scoreboard.Board.{
  SubmissionCellState, no_submissions, submitted_before, increment, penalty_for, apply_submission,
  apply_visible_submission, visible, show_state,
}
use soj.Contest.Scoreboard.Cells.{own_state}
use soj.Submission.Projection.{
  ContestProjectionSubmission, ContestProblemProjection, no_projection, projected_before,
  count_attempt, accept_attempt, project_from, build_contest_problem_projection, stored_result,
}

-- A submission as the projection reads it; `attempt_of` gives the attempt of its stored result.
abbrev pub projected : (ℕ → Option ℕ) → ContestSubmissionResult → ContestProjectionSubmission
projected attempt_of sub = record {
  id = sub.id;
  status = sub.status;
  submitted_at = sub.submitted_at;
  attempt_id = attempt_of sub.id;
}

-- Two cells show the same, but for the last submission of a problem that is not accepted, which only
-- the live cell has.
pub record CellsAgree (live final : ScoreboardCell) : Type 0 where
  pub status : live.status ≡ final.status
  pub attempts : live.attempts ≡ final.attempts
  pub frozen_attempts : live.frozen_attempts ≡ final.frozen_attempts
  pub accepted_at : live.accepted_at ≡ final.accepted_at
  pub penalty_minutes : live.penalty_minutes ≡ final.penalty_minutes
  pub last_submission_id :
      is_accepted final.status ≡ true → live.last_submission_id ≡ final.last_submission_id

-- The two loops after `k` submissions, none of them accepted.
record Pending (p : ContestProblemProjection) (state : SubmissionCellState) (k : ℕ) : Type 0 where
  p_status : p.status ≡ (if k == 0 then CellStatus.none else CellStatus.attempted)
  p_attempts : p.attempts ≡ pos k
  p_accepted_at : p.accepted_at ≡ Option.none
  p_penalty : p.penalty_minutes ≡ pos 0
  s_wrong : state.wrong_attempts ≡ pos k
  s_hidden : state.hidden_attempts ≡ pos 0
  s_accepted_at : state.accepted_at ≡ Option.none

-- The board shows the submission: it is not frozen, or the submission was judged before the freeze.
abbrev pub IsShown : ContestRecord → ScoreboardView → ContestSubmissionResult → Type 0
IsShown contest view sub = (not (is_frozen_view view) || visible contest sub) ≡ true

increment_small : (k : ℕ) → suc k < 2147483648 → to_int32 (pos k +ℤ pos 1) ≡ pos (suc k)
unfolding to_int32 ◌+ℤ◌
increment_small k h = ground arith

decrement_small : (k : ℕ) → suc k < 2147483648 → to_int32 (pos (suc k) -ℤ pos 1) ≡ pos k
unfolding to_int32 ◌-ℤ◌
decrement_small k h = ground arith

module _ (contest : ContestRecord) (problem : ContestProblem) (user : ℕ) where
  abbrev pub live_cell : ContestProblemProjection → ScoreboardCell
  live_cell p =
      apply_result_to_cell (empty_cell problem) (stored_result contest.id user problem.problem_id p)

  abbrev pub final_cell : Option SubmissionCellState → ScoreboardCell
  final_cell state = elim state [
    | Option.none ↦ empty_cell problem
    | some s ↦ show_state (empty_cell problem) s
  ]

  Pending-cells :
      (p : ContestProblemProjection) (state : SubmissionCellState) (k : ℕ)
      → Pending p state k
      → CellsAgree (live_cell p) (show_state (empty_cell problem) state)
  unfolding apply_result_to_cell stored_result show_state
  Pending-cells p state zero h = ground arith
  Pending-cells p state (suc k) h = ground arith

  module _ (view : ScoreboardView) (attempt_of : ℕ → Option ℕ) where
    apply_settled :
        (state : SubmissionCellState) (t : Time) (sub : ContestSubmissionResult)
        → IsShown contest view sub
        → state.accepted_at ≡ some t
        → apply_submission contest view state sub ≡ state
    unfolding apply_submission apply_visible_submission
    apply_settled state t sub shown h = rw shown (ground arith)

    apply_wrong :
        (state : SubmissionCellState) (sub : ContestSubmissionResult)
        → IsShown contest view sub
        → Status.is_accepted sub.status ≡ false
        → state.accepted_at ≡ Option.none
        → apply_submission contest view state sub
          ≡ record state { wrong_attempts = increment state.wrong_attempts }
    unfolding apply_submission apply_visible_submission
    apply_wrong state sub shown wrong h = rw shown (ground arith)

    apply_accepted :
        (state : SubmissionCellState) (sub : ContestSubmissionResult)
        → IsShown contest view sub
        → Status.is_accepted sub.status ≡ true
        → state.accepted_at ≡ Option.none
        → apply_submission contest view state sub ≡ record state {
          accepted_at = some sub.submitted_at;
          wrong_before_accepted = state.wrong_attempts;
          penalty_minutes = penalty_for sub.submitted_at contest.start_at state.wrong_attempts;
          last_submission_id = some sub.id;
        }
    unfolding apply_submission apply_visible_submission
    apply_accepted state sub shown right h = rw shown (ground arith)

    wrong_step :
        (p : ContestProblemProjection) (state : SubmissionCellState) (k : ℕ)
        (sub : ContestSubmissionResult)
        → suc k < 2147483648
        → IsShown contest view sub
        → Status.is_accepted sub.status ≡ false
        → Pending p state k
        → Pending
            (count_attempt p (projected attempt_of sub))
            (apply_submission contest view state sub)
            (suc k)
    unfolding count_attempt
    wrong_step p state k sub small shown wrong h =
        rw (apply_wrong state sub shown wrong h.s_accepted_at) (record {
          p_status = ground arith;
          p_attempts = ap (λ z. to_int32 (z +ℤ pos 1)) h.p_attempts ∙ increment_small k small;
          p_accepted_at = h.p_accepted_at;
          p_penalty = h.p_penalty;
          s_wrong = ap (λ z. to_int32 (z +ℤ pos 1)) h.s_wrong ∙ increment_small k small;
          s_hidden = h.s_hidden;
          s_accepted_at = h.s_accepted_at;
        })

    own_state_settled :
        (state : SubmissionCellState) (t : Time) (subs : List ContestSubmissionResult)
        → All (IsShown contest view) subs
        → state.accepted_at ≡ some t
        → own_state contest view (some state) subs ≡ some state
    unfolding own_state
    own_state_settled state t [] seen h = refl
    own_state_settled state t (sub ∷ subs) seen h =
        ap (λ s. own_state contest view (some s) subs) (apply_settled state t sub seen.0 h)
        ∙ own_state_settled state t subs seen.1 h

    accept_step :
        (p : ContestProblemProjection) (state : SubmissionCellState) (k : ℕ)
        (sub : ContestSubmissionResult)
        → suc k < 2147483648
        → IsShown contest view sub
        → Status.is_accepted sub.status ≡ true
        → Pending p state k
        → let sub' = projected attempt_of sub in
          CellsAgree
            (live_cell (accept_attempt contest.start_at (count_attempt p sub') sub'))
            (show_state (empty_cell problem) (apply_submission contest view state sub))
    unfolding count_attempt accept_attempt apply_result_to_cell stored_result show_state
    accept_step p state k sub small shown right h =
        let more : to_int32 (p.attempts +ℤ pos 1) ≡ pos (suc k) =
          ap (λ z. to_int32 (z +ℤ pos 1)) h.p_attempts ∙ increment_small k small in
        let back = decrement_small k small in
        rw (apply_accepted state sub shown right h.s_accepted_at) (record {
          status = refl;
          attempts = simp (more, back, h.s_wrong) (ground arith);
          frozen_attempts = refl;
          accepted_at = refl;
          penalty_minutes = simp (more, back, h.s_wrong) refl;
          last_submission_id = λ e. refl;
        })

    agree_from :
        (p : ContestProblemProjection) (state : SubmissionCellState) (k : ℕ)
        (subs : List ContestSubmissionResult)
        → k + length subs < 2147483648
        → All (IsShown contest view) subs
        → Pending p state k
        → CellsAgree
            (live_cell (project_from contest.start_at p (map (projected attempt_of) subs)))
            (final_cell (own_state contest view (some state) subs))
    unfolding project_from own_state
    agree_from p state k [] small seen h = Pending-cells p state k h
    agree_from p state k (sub ∷ subs) small seen h =
        elim (Bool-cases (Status.is_accepted sub.status)) [
          | inl right ↦
              rw
                (
                  right,
                  own_state_settled (apply_submission contest view state sub) sub.submitted_at subs
                      seen.1
                      (ap (λ s. s.accepted_at)
                        (apply_accepted state sub seen.0 right h.s_accepted_at)),
                )
                (accept_step p state k sub (omega arith) seen.0 right h)
          | inr wrong ↦ rw wrong (
              agree_from (count_attempt p (projected attempt_of sub))
                (apply_submission contest view state sub) (suc k) subs (omega arith) seen.1
                (wrong_step p state k sub (omega arith) seen.0 wrong h))
        ]

    -- With no submission yet the state is the empty one.
    own_state_start :
        (subs : List ContestSubmissionResult)
        → CellsAgree
            (live_cell
              (project_from contest.start_at no_projection (map (projected attempt_of) subs)))
            (final_cell (own_state contest view (some no_submissions) subs))
        → CellsAgree
            (live_cell
              (project_from contest.start_at no_projection (map (projected attempt_of) subs)))
            (final_cell (own_state contest view Option.none subs))
    unfolding own_state show_state
    own_state_start [] h = h
    own_state_start (sub ∷ subs) h = h

no_projection-Pending : Pending no_projection no_submissions 0
no_projection-Pending = record {
  p_status = refl;
  p_attempts = refl;
  p_accepted_at = refl;
  p_penalty = refl;
  s_wrong = refl;
  s_hidden = refl;
  s_accepted_at = refl;
}

same_order :
    (attempt_of : ℕ → Option ℕ) (a b : ContestSubmissionResult)
    → projected_before (projected attempt_of a) (projected attempt_of b) ≡ submitted_before a b
unfolding projected_before submitted_before
same_order attempt_of a b = refl

-- From the same submissions of a user to a problem, fewer than 2^31 and all of them shown by the view
-- of a board built from submissions, which a frozen board does with what was sent before the freeze
-- and judged by then, the cell of the live board, which shows the stored projection, agrees with the
-- cell of that board: status, attempts, frozen attempts, time of acceptance, penalty and, where the
-- problem is accepted, the last submission.
pub projection-CellsAgree :
    (contest : ContestRecord) (problem : ContestProblem) (user : ℕ) (view : ScoreboardView)
    (attempt_of : ℕ → Option ℕ) (subs : List ContestSubmissionResult)
    → All (IsShown contest view) subs
    → length subs < 2147483648
    → CellsAgree
        (live_cell contest problem user
          (build_contest_problem_projection contest.start_at (map (projected attempt_of) subs)))
        (final_cell contest problem user
          (own_state contest view Option.none (sort submitted_before subs)))
unfolding build_contest_problem_projection
projection-CellsAgree contest problem user view attempt_of subs seen small =
    rw
      (sort-map (projected attempt_of) submitted_before projected_before (same_order attempt_of)
        subs)
      (own_state_start contest problem user view attempt_of (sort submitted_before subs) (
        agree_from contest problem user view attempt_of no_projection no_submissions 0
          (sort submitted_before subs) (omega (arith, length-sort submitted_before subs))
          (All-sort submitted_before (IsShown contest view) subs seen) no_projection-Pending))
