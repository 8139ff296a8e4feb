-- ===== src/Problem/Review/Transitions.antt =====
-- internal/problem/review.go: the changes that a review makes to a problem and to its log.
use soj.Prelude.{
  ℕ, ◌≡◌, refl, sym, Bool, true, false, not, ◌&&◌, ◌⊎◌, inl, inr, [], ◌∷◌, ◌++◌, some, arith,
  Bool-cases, if◌then◌else◌, ◌==◌, String,
}
use soj.AppError.{Result, ok, err, conflict}
use soj.AppError.Bind.{bind_ok, ok_injective, ok_under_iff, ok_past_iff}
use soj.Auth.{Actor}
use soj.Problem.Policy.{ProblemStatus, ProblemRecord, can_decide_review, can_submit_review}
use soj.Problem.Readiness.{PublishStore, ensure_publishable}
use soj.Problem.Review.{
  ReviewEvent, Tables, Decision, DecisionInput, same_status, get_problem, with_status,
  set_problem_status, create_problem_review_event, decision_text, transition_locked, transition,
  submittable, submittable_problem, on_tables, submit, check_decision, decided_status, decidable,
  decide,
}

-- The moves of a problem that is submitted for review.
pub data Submitted : ProblemStatus → ProblemStatus → Type 0 where
  first : Submitted ProblemStatus.draft ProblemStatus.in_review
  again : Submitted ProblemStatus.changes_requested ProblemStatus.in_review

-- Where a decision moves a problem that is in review.
pub data Decided : Decision → ProblemStatus → ProblemStatus → Type 0 where
  approved : Decided Decision.approve ProblemStatus.in_review ProblemStatus.published
  sent_back :
      Decided Decision.request_changes ProblemStatus.in_review ProblemStatus.changes_requested

abbrev pub Moving : Type 1
Moving = ProblemStatus → ProblemStatus → Type 0

-- Tables that differ from others by one move of one problem, and by its event in the log.
pub record Moved (Move : Moving) (actor : Actor) (id : ℕ) (before after : Tables) : Type 0 where
  pub old : ProblemRecord
  pub to : ProblemStatus
  pub event : ReviewEvent
  pub locked : before.problems id ≡ some old
  pub move : Move old.status to
  pub written :
      after.problems ≡ (λ key. if key == id then some (with_status old to) else before.problems key)
  pub logged : after.review_events ≡ before.review_events ++ event ∷ []
  pub log_problem : event.problem_id ≡ id
  pub log_actor : event.actor_user_id ≡ actor.user_id
  pub log_from : event.from_status ≡ old.status
  pub log_to : event.to_status ≡ to

-- What a review action does: it fails and leaves the tables as they are, or it makes one move.
abbrev pub MovesOrKeeps : Moving → Actor → ℕ → Tables → Result ProblemRecord × Tables → Type 0
MovesOrKeeps Move actor id before (err e, after) = after ≡ before
MovesOrKeeps Move actor id before (ok updated, after) =
    Moved Move actor id before after × (after.problems id ≡ some updated)

is_draft : (a : ProblemStatus) → same_status a ProblemStatus.draft ≡ true → a ≡ ProblemStatus.draft
is_draft a h = ground arith

is_in_review :
    (a : ProblemStatus) → same_status a ProblemStatus.in_review ≡ true → a ≡ ProblemStatus.in_review
is_in_review a h = ground arith

is_changes_requested :
    (a : ProblemStatus)
    → same_status a ProblemStatus.changes_requested ≡ true
    → a ≡ ProblemStatus.changes_requested
is_changes_requested a h = ground arith

same_key : (n : ℕ) → (n == n) ≡ true
same_key n = ground arith

transition_locked-MovesOrKeeps :
    (Move : Moving) (actor : Actor) (id : ℕ) (from to : ProblemStatus) (decision comment : String)
    (current : ProblemRecord) (tables : Tables)
    → tables.problems id ≡ some current
    → (same_status current.status from ≡ true → Move current.status to)
    → MovesOrKeeps Move actor id tables
        (transition_locked actor id from to decision comment current tables)
unfolding transition_locked set_problem_status create_problem_review_event
transition_locked-MovesOrKeeps Move actor id from to decision comment current tables locked
      allowed =
    elim (Bool-cases (same_status current.status from)) [
      | inr e ↦ rw e refl
      | inl e ↦ rw e (moved (allowed e), rw (same_key id) refl)
    ]
  where
    moved :
        Move current.status to
        → Moved Move actor id tables (
            create_problem_review_event
              (set_problem_status tables id (with_status current to))
              (record {
                problem_id = id;
                actor_user_id = actor.user_id;
                from_status = current.status;
                to_status = to;
                decision = decision;
                comment = comment;
              }))
    moved move = record {
      old = current;
      to = to;
      event = _;
      locked = locked;
      move = move;
      written = refl;
      logged = refl;
      log_problem = refl;
      log_actor = refl;
      log_from = refl;
      log_to = refl;
    }

on_tables-MovesOrKeeps :
    {A : Type 0} (Move : Moving) (actor : Actor) (id : ℕ) (r : Result A)
    (f : A → Tables → Result ProblemRecord × Tables) (tables : Tables)
    → ((a : A) → r ≡ ok a → MovesOrKeeps Move actor id tables (f a tables))
    → MovesOrKeeps Move actor id tables (on_tables r f tables)
on_tables-MovesOrKeeps Move actor id (ok a) f tables moves = moves a refl
on_tables-MovesOrKeeps Move actor id (err e) f tables moves = refl

get_problem-some :
    (tables : Tables) (id : ℕ) {problem : ProblemRecord}
    → get_problem tables id ≡ ok problem
    → tables.problems id ≡ some problem
unfolding get_problem
get_problem-some tables id h = ground arith

transition-MovesOrKeeps :
    (Move : Moving) (actor : Actor) (id : ℕ) (from to : ProblemStatus) (decision comment : String)
    (tables : Tables)
    → ((status : ProblemStatus) → same_status status from ≡ true → Move status to)
    → MovesOrKeeps Move actor id tables (transition actor id from to decision comment tables)
unfolding transition
transition-MovesOrKeeps Move actor id from to decision comment tables allowed =
    on_tables-MovesOrKeeps Move actor id (get_problem tables id) _ tables λ current locked.
      transition_locked-MovesOrKeeps Move actor id from to decision comment current tables
        (get_problem-some tables id locked) (allowed current.status)

submits_from :
    (from status : ProblemStatus)
    → (same_status from ProblemStatus.draft ≡ true)
      ⊎ (same_status from ProblemStatus.changes_requested ≡ true)
    → same_status status from ≡ true
    → Submitted status ProblemStatus.in_review
submits_from from status (inl draft) same =
    rw (is_draft status (rw (is_draft from draft) at same)) Submitted.first
submits_from from status (inr changes) same =
    rw (is_changes_requested status (rw (is_changes_requested from changes) at same))
      Submitted.again

submittable-status :
    (actor : Actor) (problem : ProblemRecord)
    → submittable actor problem ≡ ok tt
    → (same_status problem.status ProblemStatus.draft ≡ true)
      ⊎ (same_status problem.status ProblemStatus.changes_requested ≡ true)
unfolding submittable
submittable-status actor problem h =
    let permitted = bind_ok (can_submit_review actor problem) _ h in
    either (same_status problem.status ProblemStatus.draft)
      (same_status problem.status ProblemStatus.changes_requested)
      ((ok_past_iff
          (not (same_status problem.status ProblemStatus.draft)
            && not (same_status problem.status ProblemStatus.changes_requested))
          (ok tt) _).0
        permitted.2).0
  where
    either : (a b : Bool) → (not a && not b) ≡ false → (a ≡ true) ⊎ (b ≡ true)
    either a b h = ground arith

-- Submitting a problem for review either fails and changes nothing, or moves it from draft or from
-- changes requested to in review and logs just that, whatever others have done to it since it was
-- first read.
pub submit-MovesOrKeeps :
    (actor : Actor) (id : ℕ) (seen tables : Tables)
    → MovesOrKeeps Submitted actor id tables (submit actor id seen tables)
unfolding submit submittable_problem
submit-MovesOrKeeps actor id seen tables =
    on_tables-MovesOrKeeps Submitted actor id (submittable_problem actor id seen) _ tables
      λ problem read.
        let found = bind_ok (get_problem seen id) _ read in
        let taken = bind_ok (submittable actor found.0) _ found.2 in
        let same = ok_injective taken.2 in
        transition-MovesOrKeeps Submitted actor id problem.status ProblemStatus.in_review "submit"
          "" tables
          (λ status.
            submits_from problem.status status
              (rw (sym same) (submittable-status actor found.0 taken.1)))

decides_from :
    (readiness : PublishStore) (id : ℕ) (input : DecisionInput) (from to status : ProblemStatus)
    → check_decision input ≡ ok tt
    → same_status from ProblemStatus.in_review ≡ true
    → decided_status readiness id input.decision ≡ ok to
    → same_status status from ≡ true
    → Decided input.decision status to
unfolding check_decision decided_status
decides_from readiness id input from to status valid reviewed decided same =
    by_decision input.decision refl
  where
    reviewed_now : status ≡ ProblemStatus.in_review
    reviewed_now = is_in_review status (rw (is_in_review from reviewed) at same)

    by_decision : (d : Decision) → input.decision ≡ d → Decided input.decision status to
    by_decision Decision.approve e =
        let cleared = bind_ok (ensure_publishable readiness id) _ (rw e at decided) in
        rw (e, sym (ok_injective cleared.2), reviewed_now) Decided.approved
    by_decision Decision.request_changes e =
        rw (e, sym (ok_injective (rw e at decided)), reviewed_now) Decided.sent_back
    by_decision (Decision.other s) e = absurd (ground (arith, rw e at valid))

-- What a decision that goes through was checked for.
abbrev pub WasDecidable :
    PublishStore → Actor → ℕ → DecisionInput → Tables → ProblemRecord → ProblemStatus → Type 0
WasDecidable readiness actor id input seen problem to =
    (check_decision input ≡ ok tt)
    × (get_problem seen id ≡ ok problem)
    × (can_decide_review actor problem ≡ ok tt)
    × (same_status problem.status ProblemStatus.in_review ≡ true)
    × (decided_status readiness id input.decision ≡ ok to)

pub decidable-WasDecidable :
    (readiness : PublishStore) (actor : Actor) (id : ℕ) (input : DecisionInput) (seen : Tables)
    {decided : ProblemRecord × ProblemStatus}
    → decidable readiness actor id input seen ≡ ok decided
    → WasDecidable readiness actor id input seen decided.0 decided.1
unfolding decidable
decidable-WasDecidable readiness actor id input seen h =
    let valid = bind_ok (check_decision input) _ h in
    let found = bind_ok (get_problem seen id) _ valid.2 in
    let permitted = bind_ok (can_decide_review actor found.0) _ found.2 in
    let reviewed =
      bind_ok
        (if same_status found.0.status ProblemStatus.in_review
          then ok tt
          else err
              (conflict "problem.review_invalid_state" "only problems in review can be decided"))
        _ permitted.2 in
    let to = bind_ok (decided_status readiness id input.decision) _ reviewed.2 in
    rw (sym (ok_injective to.2)) (
      valid.1,
      found.1,
      permitted.1,
      ((ok_under_iff (same_status found.0.status ProblemStatus.in_review) (ok tt) _).0
          reviewed.1).0,
      to.1,
    )

-- Deciding a review either fails and changes nothing, or moves the problem from in review, to published
-- if the decision is to approve and to changes requested if it is to request changes, and logs just
-- that, whatever others have done to it since it was first read.
pub decide-MovesOrKeeps :
    (readiness : PublishStore) (actor : Actor) (id : ℕ) (input : DecisionInput)
    (seen tables : Tables)
    → MovesOrKeeps
        (Decided input.decision)
        actor
        id
        tables
        (decide readiness actor id input seen tables)
unfolding decide
decide-MovesOrKeeps readiness actor id input seen tables =
    on_tables-MovesOrKeeps (Decided input.decision) actor id
      (decidable readiness actor id input seen) _ tables
      λ decided passed.
        let checked = decidable-WasDecidable readiness actor id input seen passed in
        transition-MovesOrKeeps (Decided input.decision) actor id decided.0.status decided.1
          (decision_text input.decision) input.comment tables
          (λ status.
            decides_from readiness id input decided.0.status decided.1 status checked.0 checked.3
              checked.4)
