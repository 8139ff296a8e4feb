-- ===== src/Problem/Review.antt =====
-- internal/problem/review.go: the review of a problem as a state machine with a log.
pub mod Transitions
pub mod Publication
use soj.Prelude.{
  ℕ, ◌+◌, suc, Bool, true, false, ◌&&◌, ◌||◌, not, List, [], ◌∷◌, ◌++◌, map, length, Option, none,
  some, String, if◌then◌else◌, ◌==◌, str_eq,
}
use soj.AppError.{Result, ok, err, Error, conflict, bad_request, not_found, ◌>>=◌, ◌>>◌}
use soj.Auth.{Actor}
use soj.Problem.Policy.{
  ProblemStatus, ProblemRecord, can_submit_review, can_decide_review, can_view_review_events,
}
use soj.Problem.Readiness.{PublishStore, ensure_publishable}

pub record ReviewEvent : Type 0 where
  pub problem_id : ℕ
  pub actor_user_id : ℕ
  pub from_status : ProblemStatus
  pub to_status : ProblemStatus
  pub decision : String
  pub comment : String

-- The tables that the review reads and writes: the problems, and the log, oldest event first.
pub record Tables : Type 0 where
  pub problems : ℕ → Option ProblemRecord
  pub review_events : List ReviewEvent

pub data Decision : Type 0 where
  approve request_changes : Decision
  other : String → Decision

pub record DecisionInput : Type 0 where
  pub decision : Decision
  pub comment : String

abbrev pub same_status : ProblemStatus → ProblemStatus → Bool
same_status ProblemStatus.draft ProblemStatus.draft = true
same_status ProblemStatus.in_review ProblemStatus.in_review = true
same_status ProblemStatus.changes_requested ProblemStatus.changes_requested = true
same_status ProblemStatus.published ProblemStatus.published = true
same_status ProblemStatus.archived ProblemStatus.archived = true
same_status (ProblemStatus.other s) (ProblemStatus.other t) = str_eq s t
same_status _ _ = false

unfoldable pub get_problem : Tables → ℕ → Result ProblemRecord
get_problem tables id = elim (tables.problems id) [
  | none ↦ err (not_found "problem.not_found" "problem not found")
  | some problem ↦ ok problem
]

abbrev pub with_status : ProblemRecord → ProblemStatus → ProblemRecord
with_status problem status = record problem { status = status }

unfoldable pub set_problem_status : Tables → ℕ → ProblemRecord → Tables
set_problem_status tables id updated = record tables {
  problems = λ key. if key == id then some updated else tables.problems key;
}

unfoldable pub create_problem_review_event : Tables → ReviewEvent → Tables
create_problem_review_event tables event = record tables {
  review_events = tables.review_events ++ event ∷ [];
}

abbrev pub decision_text : Decision → String
decision_text Decision.approve = "approve"
decision_text Decision.request_changes = "request_changes"
decision_text (Decision.other s) = s

-- The transaction of `transition` on the row that it has locked.
unfoldable pub transition_locked :
    Actor
    → ℕ
    → ProblemStatus
    → ProblemStatus
    → String
    → String
    → ProblemRecord
    → Tables
    → Result ProblemRecord × Tables
transition_locked actor id from to decision comment current tables =
    if not (same_status current.status from)
    then (
      err (
          conflict "problem.review_invalid_state"
            "problem state changed before the review action completed"),
      tables,
    )
    else (
      ok (with_status current to),
      create_problem_review_event (set_problem_status tables id (with_status current to)) (record {
        problem_id = id;
        actor_user_id = actor.user_id;
        from_status = current.status;
        to_status = to;
        decision = decision;
        comment = comment;
      }),
    )

-- Go on with a value, or leave the tables as they are.
abbrev pub on_tables :
    {A : Type 0}
    → Result A
    → (A → Tables → Result ProblemRecord × Tables)
    → Tables
    → Result ProblemRecord × Tables
on_tables (ok a) f tables = f a tables
on_tables (err e) f tables = (err e, tables)

-- `transition`; an error rolls the transaction back.
unfoldable pub transition :
    Actor
    → ℕ
    → ProblemStatus
    → ProblemStatus
    → String
    → String
    → Tables
    → Result ProblemRecord × Tables
transition actor id from to decision comment tables =
    on_tables (get_problem tables id) (transition_locked actor id from to decision comment) tables

-- Whether `Submit` takes the problem it has read.
unfoldable pub submittable : Actor → ProblemRecord → Result (Unit {0})
submittable actor problem = do
  can_submit_review actor problem
  if not (same_status problem.status ProblemStatus.draft)
        && not (same_status problem.status ProblemStatus.changes_requested)
      then err (
          conflict "problem.review_invalid_state"
            "only draft or changes-requested problems can be submitted for review")
      else ok tt

-- The problem that `Submit` reads and takes.
unfoldable pub submittable_problem : Actor → ℕ → Tables → Result ProblemRecord
submittable_problem actor id seen = do
  problem ← get_problem seen id
  submittable actor problem
  ok problem

-- `Submit`: the problem is read first, in `seen`, and its row is locked later, in `tables`; others may
-- have changed it in between.
unfoldable pub submit : Actor → ℕ → Tables → Tables → Result ProblemRecord × Tables
submit actor id seen tables =
    on_tables (submittable_problem actor id seen)
      (λ problem. transition actor id problem.status ProblemStatus.in_review "submit" "") tables

-- What `Decide` makes of its input, with the texts trimmed.
unfoldable pub check_decision : DecisionInput → Result (Unit {0})
check_decision input = elim input.decision [
  | Decision.approve ↦ ok tt
  | Decision.request_changes ↦
      if str_eq input.comment ""
      then err (
          bad_request "problem.review_comment_required"
            "comment is required when requesting changes")
      else ok tt
  | Decision.other s ↦
      err (
        bad_request "problem.review_decision_invalid" "decision must be approve or request_changes")
]

-- The status that a decision leads to, with what approval asks for.
unfoldable pub decided_status : PublishStore → ℕ → Decision → Result ProblemStatus
decided_status readiness id Decision.approve = do
  ensure_publishable readiness id
  ok ProblemStatus.published
decided_status readiness id _ = ok ProblemStatus.changes_requested

-- `Decide` up to its transaction; the refresh of the cached statistics is left out.
unfoldable pub decidable :
    PublishStore → Actor → ℕ → DecisionInput → Tables → Result (ProblemRecord × ProblemStatus)
decidable readiness actor id input seen = do
  check_decision input
  problem ← get_problem seen id
  can_decide_review actor problem
  if same_status problem.status ProblemStatus.in_review
      then ok tt
      else err (conflict "problem.review_invalid_state" "only problems in review can be decided")
  to ← decided_status readiness id input.decision
  ok (problem, to)

unfoldable pub decide :
    PublishStore → Actor → ℕ → DecisionInput → Tables → Tables → Result ProblemRecord × Tables
decide readiness actor id input seen tables =
    on_tables (decidable readiness actor id input seen)
      (λ decided.
        transition actor id decided.0.status decided.1 (decision_text input.decision) input.comment)
      tables

abbrev pub events_of : ℕ → List ReviewEvent → List ReviewEvent
events_of id [] = []
events_of id (event ∷ log) =
    if event.problem_id == id then event ∷ events_of id log else events_of id log

-- `Events`
unfoldable pub events : Actor → ℕ → Tables → Result (List ReviewEvent)
events actor id tables = do
  problem ← get_problem tables id
  can_view_review_events actor problem
  ok (events_of id tables.review_events)
