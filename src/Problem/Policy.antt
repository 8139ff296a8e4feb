-- ===== src/Problem/Policy.antt =====
-- internal/problem/rbac_policy.go, and the record that the rules read.
use soj.Prelude.{ℕ, Bool, ◌||◌, not, String, if◌then◌else◌, ◌==◌}
use soj.AppError.{Result, ok, err, Error, forbidden, ◌>>◌}
use soj.Auth.{Permission, Actor, may}

pub data ProblemStatus : Type 0 where
  draft in_review changes_requested published archived : ProblemStatus
  other : String → ProblemStatus

-- The fields of `ProblemRecord` that rules and review read or write.
pub record ProblemRecord : Type 0 where
  pub id : ℕ
  pub owner_user_id : ℕ
  pub status : ProblemStatus

abbrev pub problem_forbidden : String → Error
problem_forbidden message = forbidden "problem.forbidden" message

unfoldable pub require_problem_permission : Actor → Permission → Result (Unit {0})
require_problem_permission actor permission =
    if may actor permission
    then ok tt
    else err (problem_forbidden "required problem permission is missing")

abbrev pub has_problem_permission : Actor → Permission → Bool
has_problem_permission actor permission = may actor permission

unfoldable pub can_edit : Actor → ProblemRecord → Result (Unit {0})
can_edit actor problem =
    if has_problem_permission actor Permission.problem_manage_all
    then ok tt
    else if not (actor.user_id == problem.owner_user_id)
    then err (problem_forbidden "problem owner or problem.manage_all permission required")
    else require_problem_permission actor Permission.problem_edit_own

unfoldable pub can_rejudge : Actor → Result (Unit {0})
can_rejudge actor = require_problem_permission actor Permission.submission_rejudge

unfoldable pub can_submit_review : Actor → ProblemRecord → Result (Unit {0})
can_submit_review actor problem =
    if has_problem_permission actor Permission.problem_manage_all
    then ok tt
    else if not (actor.user_id == problem.owner_user_id)
    then err (problem_forbidden "problem owner or problem.manage_all permission required")
    else require_problem_permission actor Permission.problem_submit_review

unfoldable pub can_decide_review : Actor → ProblemRecord → Result (Unit {0})
can_decide_review actor problem =
    if has_problem_permission actor Permission.problem_manage_all
    then ok tt
    else if actor.user_id == problem.owner_user_id
    then err (
        forbidden "problem.self_review_forbidden"
          "problem authors cannot review their own problems")
    else do
      require_problem_permission actor Permission.problem_review
      require_problem_permission actor Permission.problem_publish

unfoldable pub can_view_review_events : Actor → ProblemRecord → Result (Unit {0})
can_view_review_events actor problem =
    if has_problem_permission actor Permission.problem_manage_all
      || has_problem_permission actor Permission.problem_review
    then ok tt
    else if actor.user_id == problem.owner_user_id
    then require_problem_permission actor Permission.problem_edit_own
    else err
        (problem_forbidden "problem owner, reviewer, or problem.manage_all permission required")

unfoldable pub can_restore : Actor → Result (Unit {0})
can_restore actor = require_problem_permission actor Permission.problem_manage_all
