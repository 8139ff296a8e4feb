-- ===== src/Submission/Projection.antt =====
-- internal/submission/contest_projection_repository.go: the stored result of a contestant on a
-- problem, rebuilt from all their judged submissions to it, and the score that follows from it.
use soj.Prelude.{ℕ, Bool, Option, some, List, [], ◌∷◌, ltb, if◌then◌else◌, ◌==◌}
use soj.Prelude.Int.{ℤ, pos, ◌+ℤ◌, ◌-ℤ◌, ◌*ℤ◌, to_int32}
use soj.Prelude.Sort.{sort}
use soj.Submission.Status
use soj.Submission.Status.{Status}
use soj.Contest.Types.{Time, before, minutes_between, CellStatus, is_accepted, ContestProblemResult}

pub record ContestProjectionSubmission : Type 0 where
  pub id : ℕ
  pub status : Status
  pub submitted_at : Time
  pub attempt_id : Option ℕ

-- The status text "accepted" is that of a submission and of a cell alike.
pub record ContestProblemProjection : Type 0 where
  pub status : CellStatus
  pub attempts : ℤ
  pub accepted_at : Option Time
  pub penalty_minutes : ℤ
  pub last_submission_id : Option ℕ
  pub best_submission_id : Option ℕ
  pub best_attempt_id : Option ℕ
  pub last_attempt_id : Option ℕ

abbrev pub no_projection : ContestProblemProjection
no_projection = record {
  status = CellStatus.none;
  attempts = pos 0;
  accepted_at = Option.none;
  penalty_minutes = pos 0;
  last_submission_id = Option.none;
  best_submission_id = Option.none;
  best_attempt_id = Option.none;
  last_attempt_id = Option.none;
}

unfoldable pub projected_before : ContestProjectionSubmission → ContestProjectionSubmission → Bool
projected_before a b =
    if a.submitted_at == b.submitted_at then ltb a.id b.id else before a.submitted_at b.submitted_at

unfoldable pub count_attempt :
    ContestProblemProjection → ContestProjectionSubmission → ContestProblemProjection
count_attempt p sub = record p {
  status = CellStatus.attempted;
  attempts = to_int32 (p.attempts +ℤ pos 1);
  last_submission_id = some sub.id;
  last_attempt_id = sub.attempt_id;
}

unfoldable pub accept_attempt :
    Time → ContestProblemProjection → ContestProjectionSubmission → ContestProblemProjection
accept_attempt contest_start p sub = record p {
  status = CellStatus.accepted;
  accepted_at = some sub.submitted_at;
  penalty_minutes = to_int32 (
      minutes_between sub.submitted_at contest_start
      +ℤ to_int32 (to_int32 (p.attempts -ℤ pos 1) *ℤ pos 20));
  best_submission_id = some sub.id;
  best_attempt_id = sub.attempt_id;
}

-- The loop stops at the first accepted submission.
unfoldable pub project_from :
    Time → ContestProblemProjection → List ContestProjectionSubmission → ContestProblemProjection
project_from contest_start p [] = p
project_from contest_start p (sub ∷ subs) =
    let counted = count_attempt p sub in
    let rest = project_from contest_start counted subs in
    if Status.is_accepted sub.status then accept_attempt contest_start counted sub else rest

unfoldable pub build_contest_problem_projection :
    Time → List ContestProjectionSubmission → ContestProblemProjection
build_contest_problem_projection contest_start submissions =
    project_from contest_start no_projection (sort projected_before submissions)

-- The row that `rebuildContestProblemResult` stores, as the contest package reads it back.
unfoldable pub stored_result : ℕ → ℕ → ℕ → ContestProblemProjection → ContestProblemResult
stored_result contest user problem p = record {
  contest_id = contest;
  user_id = user;
  problem_id = problem;
  status = p.status;
  attempts = p.attempts;
  accepted_at = p.accepted_at;
  penalty_minutes = p.penalty_minutes;
  last_submission_id = p.last_submission_id;
}

-- The score of a registration: the accepted results of the user and their penalties.
unfoldable pub registration_score : ℤ → ℤ → List ContestProblemResult → ℤ × ℤ
registration_score accepted_count penalty_minutes [] = (accepted_count, penalty_minutes)
registration_score accepted_count penalty_minutes (result ∷ results) =
    if is_accepted result.status
    then registration_score (to_int32 (accepted_count +ℤ pos 1))
        (to_int32 (penalty_minutes +ℤ result.penalty_minutes)) results
    else registration_score accepted_count penalty_minutes results
