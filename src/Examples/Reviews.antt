-- ===== src/Examples/Reviews.antt =====
-- The review of a problem at concrete inputs: internal/problem/review.go.
use soj.Prelude.{◌≡◌, refl, true, some, none, [], ◌∷◌, ◌↔◌, if◌then◌else◌, ◌==◌}
use soj.AppError.{ok}
use soj.Auth.{Role, Permission, Actor}
use soj.Problem.Policy.{ProblemStatus, ProblemRecord}
use soj.Problem.Readiness.{PublishStore, IsPublishable, ensure_publishable, ensure_publishable_iff}
use soj.Problem.Review.{Tables, Decision, DecisionInput, get_problem, submit, decide}
use soj.Problem.Review.Transitions.{
  Submitted, Decided, MovesOrKeeps, submit-MovesOrKeeps, decide-MovesOrKeeps,
}
use soj.Problem.Review.Publication.{MayDecide, decide-IsPublishable}

abbrev problem : ProblemStatus → ProblemRecord
problem status = record { id = 4; owner_user_id = 1; status = status }

abbrev tables : ProblemStatus → Tables
tables status = record {
  problems = λ id. if id == 4 then some (problem status) else none;
  review_events = [];
}

abbrev author : Actor
author = record {
  user_id = 1;
  roles = Role.author ∷ [];
  permissions = Permission.problem_submit_review ∷ [];
}

abbrev reviewer : Actor
reviewer = record {
  user_id = 2;
  roles = Role.reviewer ∷ [];
  permissions = Permission.problem_review ∷ Permission.problem_publish ∷ [];
}

abbrev ready : PublishStore
ready = record {
  get_current_problem_statement = λ id. ok 11;
  get_current_testcase_set = λ id. ok 12;
  get_latest_completed_problem_check_run =
      λ id statement set. ok (record { id = 13; valid = true });
  list_problem_check_findings = λ id. ok [];
}

abbrev approval : DecisionInput
approval = record { decision = Decision.approve; comment = "" }

submit-MovesOrKeeps_example :
    MovesOrKeeps Submitted author 4
      (tables ProblemStatus.draft)
      (submit author 4 (tables ProblemStatus.draft) (tables ProblemStatus.draft))
submit-MovesOrKeeps_example =
    submit-MovesOrKeeps author 4 (tables ProblemStatus.draft) (tables ProblemStatus.draft)

decide-MovesOrKeeps_example :
    MovesOrKeeps (Decided Decision.approve) reviewer 4 (tables ProblemStatus.in_review) (
      decide ready reviewer 4 approval
        (tables ProblemStatus.in_review)
        (tables ProblemStatus.in_review))
decide-MovesOrKeeps_example =
    decide-MovesOrKeeps ready reviewer 4 approval (tables ProblemStatus.in_review)
      (tables ProblemStatus.in_review)

decide-IsPublishable_example :
    (Decision.approve ≡ Decision.approve)
    × IsPublishable ready 4
    × ((p : ProblemRecord) × (get_problem (tables ProblemStatus.in_review) 4 ≡ ok p)
        × MayDecide reviewer p)
unfolding decide soj.Problem.Review.decidable soj.Problem.Review.check_decision get_problem
    soj.Problem.Policy.can_decide_review soj.Problem.Policy.require_problem_permission
    soj.Problem.Review.decided_status ensure_publishable soj.Problem.Readiness.load_blockers
    soj.Problem.Readiness.set_blockers soj.Problem.Readiness.check_blockers
    soj.Problem.Review.transition soj.Problem.Review.transition_locked soj.Auth.authorize
    soj.Auth.has soj.Auth.same_permission soj.Auth.Permission-discrete mathlib.Core.Bool.decide
decide-IsPublishable_example =
    decide-IsPublishable ready reviewer 4 approval (tables ProblemStatus.in_review)
      (tables ProblemStatus.in_review) refl refl

ensure_publishable_iff_example : (ensure_publishable ready 4 ≡ ok tt) ↔ IsPublishable ready 4
ensure_publishable_iff_example = ensure_publishable_iff ready 4
