-- ===== src/Examples/Contests.antt =====
-- Admission and visibility in a small contest: internal/contest/policy.go at concrete inputs.
use soj.Prelude.{◌≡◌, refl, true, false, ◌||◌, some, none, [], ◌∷◌, ◌↔◌, arith}
use soj.Prelude.Int.{pos}
use soj.AppError.{ok}
use soj.Auth.{Role, Permission, Actor, has}
use soj.Auth.Merge.{add_permissions, has-add_permissions}
use soj.Submission.Status.{Status}
use soj.Contest.Types.{
  Visibility, ContestStatus, RegistrationStatus, ScoreboardView, ContestProblem, ContestRecord,
  ContestRegistration, ContestSubmissionResult,
}
use soj.Contest.Access.{ContestAccess, ContestStore, can_read_contest, can_read_contest_as}
use soj.Contest.Policy.{
  SubmissionResultVisibility, validate_submission, submission_result_visibility,
  submission_result_visibilities,
}
use soj.Contest.Policy.Admission.{
  IsAdmitted, validate_submission_iff, can_read_contest-can_read_contest_as,
}
use soj.Contest.Policy.Results.{
  judged_view, each_visibility, submission_result_visibility-visible,
  submission_result_visibilities-each_visibility,
}
use soj.Contest.Scoreboard.Board.{visible}
use soj.Contest.Scoreboard.Service.{can_view_scoreboard, default_scoreboard_view}
use soj.Contest.Scoreboard.Service.Views.{can_view_scoreboard-default_scoreboard_view}

abbrev problem : ContestProblem
problem = record { contest_id = 7; problem_id = 10; alias = "A"; sort_order = pos 1; title = "Sum" }

abbrev contest : ContestRecord
contest = record {
  id = 7;
  owner_user_id = 9;
  title = "Round";
  description = none;
  visibility = Visibility.private;
  status = ContestStatus.running;
  start_at = 0;
  end_at = 120;
  freeze_at = 100;
  invite_code_hash = "hash";
  score_revision = 0;
  registered = true;
  problems = problem ∷ [];
}

abbrev registration : ContestRegistration
registration = record {
  id = 1;
  contest_id = 7;
  user_id = 1;
  display_name = "user";
  email = "user@example.org";
  status = RegistrationStatus.active;
  registered_at = 0;
  accepted_count = pos 0;
  penalty_minutes = pos 0;
}

-- User 1 is registered; each user has the role and the permission of contest staff.
abbrev store : ContestStore
store = record {
  now = 110;
  has_role_store = true;
  get_contest = λ id. ok contest;
  list_contest_problems = λ id. ok (problem ∷ []);
  get_registration = λ id user. ok registration;
  list_contest_access = λ id user.
      ok (record { roles = Role.contest_staff ∷ []; permissions = Permission.contest_read ∷ [] });
}

abbrev user : Actor
user = record { user_id = 1; roles = Role.user ∷ []; permissions = [] }

abbrev member : Actor
member = record {
  user_id = 1;
  roles = Role.user ∷ Role.contest_staff ∷ [];
  permissions = Permission.contest_read ∷ [];
}

abbrev late : ContestSubmissionResult
late = record {
  id = 3;
  contest_id = 7;
  user_id = 1;
  problem_id = 10;
  status = Status.accepted;
  submitted_at = 105;
  judged_at = 106;
  first_judged_at = some 106;
}

validate_submission_iff_example :
    (validate_submission store user 10 7 ≡ ok tt) ↔ IsAdmitted store user 10 7
validate_submission_iff_example = validate_submission_iff store user 10 7

can_read_contest-can_read_contest_as_example :
    can_read_contest store user contest ≡ can_read_contest_as store member contest
unfolding soj.Contest.Access.actor_with_contest_roles soj.Auth.Merge.add_roles add_permissions
    soj.Auth.same_role has mathlib.Core.Bool.decide
can_read_contest-can_read_contest_as_example =
    can_read_contest-can_read_contest_as store user member contest refl

has-add_permissions_example :
    has
      (add_permissions
        (Permission.contest_read ∷ [])
        (Permission.contest_read ∷ Permission.contest_judge ∷ []))
      Permission.contest_judge
    ≡ (has (Permission.contest_read ∷ []) Permission.contest_judge
        || has (Permission.contest_read ∷ Permission.contest_judge ∷ []) Permission.contest_judge)
has-add_permissions_example =
    has-add_permissions (Permission.contest_read ∷ [])
      (Permission.contest_read ∷ Permission.contest_judge ∷ []) Permission.contest_judge

submission_result_visibility-visible_example :
    (submission_result_visibility contest user (judged_view late) 110).show_result
    ≡ visible contest late
unfolding soj.Contest.Access.can_view_contest_results soj.Contest.Access.can_manage_contest
    soj.Auth.authorize has
submission_result_visibility-visible_example =
    submission_result_visibility-visible contest user late 110 refl (omega arith) (omega arith) refl

abbrev hidden : SubmissionResultVisibility
hidden = record {
  show_result = false;
  show_cases = false;
  show_admin_diagnostics = false;
  visibility = "frozen";
}

submission_result_visibilities-each_visibility_example :
    (submission_result_visibilities store user (judged_view late ∷ judged_view late ∷ [])
      ≡ ok ((3, hidden) ∷ (3, hidden) ∷ []))
    ↔ (each_visibility store user (judged_view late ∷ judged_view late ∷ [])
        ≡ ok ((3, hidden) ∷ (3, hidden) ∷ []))
submission_result_visibilities-each_visibility_example =
    submission_result_visibilities-each_visibility store user
      (judged_view late ∷ judged_view late ∷ []) ((3, hidden) ∷ (3, hidden) ∷ [])

can_view_scoreboard-default_scoreboard_view_example :
    can_view_scoreboard 110 user contest (default_scoreboard_view 104 contest ScoreboardView.unset)
    ≡ ok tt
can_view_scoreboard-default_scoreboard_view_example =
    can_view_scoreboard-default_scoreboard_view user contest 104 110 (omega arith) refl
