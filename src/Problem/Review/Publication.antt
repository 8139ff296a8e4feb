-- ===== src/Problem/Review/Publication.antt =====
-- internal/problem/review.go: what was checked of a problem that a review publishes.
use soj.Prelude.{
  ℕ, ◌≡◌, refl, ap, ◌∙◌, Bool, true, false, ◌⊎◌, inl, inr, arith, Bool-cases, ◌==◌, String,
}
use soj.AppError.{Result, ok, err}
use soj.AppError.Bind.{bind_ok, ok_injective}
use soj.Auth.{Actor, Permission, may}
use soj.Problem.Policy.{ProblemStatus, ProblemRecord, can_decide_review, require_problem_permission}
use soj.Problem.Readiness.{PublishStore, ensure_publishable, IsPublishable, ensure_publishable_iff}
use soj.Problem.Review.{
  Tables, Decision, DecisionInput, same_status, get_problem, with_status, decision_text,
  transition_locked, transition, on_tables, decided_status, decidable, decide,
}
use soj.Problem.Review.Transitions.{decidable-WasDecidable}

abbrev is_published : ProblemStatus → Bool
is_published status = same_status status ProblemStatus.published

-- Who may decide: a manager of all problems, or a reviewer and publisher who is not the author.
abbrev pub MayDecide : Actor → ProblemRecord → Type 0
MayDecide actor problem =
    (may actor Permission.problem_manage_all ≡ true)
    ⊎ (((actor.user_id == problem.owner_user_id) ≡ false)
        × (may actor Permission.problem_review ≡ true)
        × (may actor Permission.problem_publish ≡ true))

can_decide_review-MayDecide :
    (actor : Actor) (problem : ProblemRecord)
    → can_decide_review actor problem ≡ ok tt
    → MayDecide actor problem
unfolding can_decide_review require_problem_permission
can_decide_review-MayDecide actor problem h = ground arith

on_tables_ok :
    {A : Type 0} (r : Result A) (f : A → Tables → Result ProblemRecord × Tables) (tables : Tables)
    {updated : ProblemRecord}
    → (on_tables r f tables).0 ≡ ok updated
    → (a : A) × (r ≡ ok a) × ((f a tables).0 ≡ ok updated)
on_tables_ok (ok a) f tables h = (a, refl, h)
on_tables_ok (err e) f tables h = ground arith

transition_locked-status :
    (actor : Actor) (id : ℕ) (from to : ProblemStatus) (decision comment : String)
    (current : ProblemRecord) (tables : Tables) {updated : ProblemRecord}
    → (transition_locked actor id from to decision comment current tables).0 ≡ ok updated
    → to ≡ updated.status
unfolding transition_locked
transition_locked-status actor id from to decision comment current tables {updated = updated} h =
    elim (Bool-cases (same_status current.status from)) [
      | inr e ↦ absurd (ground (arith, rw e at h))
      | inl e ↦
          let done : with_status current to ≡ updated = ok_injective (rw e at h) in
          ap (λ (p : ProblemRecord). p.status) done
    ]

-- Only an approval that was cleared leads to published.
published_only :
    (readiness : PublishStore) (id : ℕ) (decision : Decision)
    → decided_status readiness id decision ≡ ok ProblemStatus.published
    → (decision ≡ Decision.approve) × IsPublishable readiness id
unfolding decided_status
published_only readiness id Decision.approve h = (
  refl,
  (ensure_publishable_iff readiness id).0 (bind_ok (ensure_publishable readiness id) _ h).1,
)
published_only readiness id Decision.request_changes h =
    absurd (ground (arith, ap is_published (ok_injective h)))
published_only readiness id (Decision.other s) h =
    absurd (ground (arith, ap is_published (ok_injective h)))

-- A problem that a decision of a review leaves published is publishable, the decision was to approve,
-- and whoever took it manages all problems or is a reviewer and publisher other than its author.
pub decide-IsPublishable :
    (readiness : PublishStore) (actor : Actor) (id : ℕ) (input : DecisionInput)
    (seen tables : Tables) {updated : ProblemRecord}
    → (decide readiness actor id input seen tables).0 ≡ ok updated
    → updated.status ≡ ProblemStatus.published
    → (input.decision ≡ Decision.approve)
      × IsPublishable readiness id
      × ((problem : ProblemRecord) × (get_problem seen id ≡ ok problem) × MayDecide actor problem)
unfolding decide transition
decide-IsPublishable readiness actor id input seen tables h published =
    let decided = on_tables_ok (decidable readiness actor id input seen) _ tables h in
    let checked = decidable-WasDecidable readiness actor id input seen decided.1 in
    let locked = on_tables_ok (get_problem tables id) _ tables decided.2 in
    let to =
      transition_locked-status actor id decided.0.0.status decided.0.1
        (decision_text input.decision) input.comment locked.0 tables locked.2
      ∙ published in
    let cleared = published_only readiness id input.decision (checked.4 ∙ ap ok to) in
    (
      cleared.0,
      cleared.1,
      (decided.0.0, checked.1, can_decide_review-MayDecide actor decided.0.0 checked.2),
    )
