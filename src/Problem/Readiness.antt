-- ===== src/Problem/Readiness.antt =====
-- internal/problem/problem_readiness.go: what a problem still lacks before it can be published.
use soj.Prelude.{
  ℕ, ◌≡◌, refl, sym, Bool, true, not, List, [], ◌∷◌, ◌++◌, Option, none, some, String,
  if◌then◌else◌, ◌↔◌, arith,
}
use soj.AppError.{Result, ok, err, is_not_found, unprocessable, ◌>>=◌}
use soj.AppError.Bind.{bind_ok, ok_injective}

pub data AuthoringStep : Type 0 where
  statement testcase check : AuthoringStep

pub record Blocker : Type 0 where
  pub code : String
  pub message : String
  pub step : AuthoringStep

-- A completed check: its id, and whether its summary is valid.
pub record CheckRun : Type 0 where
  pub id : ℕ
  pub valid : Bool

-- The reads of `problemPublishReadStore`: statements and testcase sets by their ids.
pub record PublishStore : Type 0 where
  pub get_current_problem_statement : ℕ → Result ℕ
  pub get_current_testcase_set : ℕ → Result ℕ
  pub get_latest_completed_problem_check_run : ℕ → ℕ → ℕ → Result CheckRun
  pub list_problem_check_findings : ℕ → Result (List String)

-- A read whose absence is no failure.
abbrev pub optional : {A : Type 0} → Result A → Result (Option A)
optional (ok a) = ok (some a)
optional (err e) = if not (is_not_found e) then err e else ok none

abbrev pub statement_blockers : Option ℕ → List Blocker
statement_blockers (some id) = []
statement_blockers none =
    record {
      code = "problem.statement_required";
      message = "current statement is required before publishing";
      step = AuthoringStep.statement;
    }
    ∷ []

abbrev pub check_failed : CheckRun → List Blocker
check_failed run =
    if not run.valid
    then record {
      code = "problem.check_failed";
      message = "the current testcase set has validation errors";
      step = AuthoringStep.check;
    }
      ∷ []
    else []

-- The blockers of the check, with a statement and a testcase set there.
unfoldable pub check_blockers : PublishStore → ℕ → ℕ → ℕ → Result (List Blocker)
check_blockers store problem_id statement_id set_id = do
  found ← optional (store.get_latest_completed_problem_check_run problem_id statement_id set_id)
  elim found [
    | none ↦ ok (
        record {
          code = "problem.check_required";
          message = "run a problem check for the current testcase set before publishing";
          step = AuthoringStep.check;
        }
        ∷ [])
    | some run ↦ do findings ← store.list_problem_check_findings run.id; ok (check_failed run)
  ]

-- The blockers of `loadProblemAuthoringReadiness` after the statement was looked up.
unfoldable pub set_blockers : PublishStore → ℕ → Option ℕ → Option ℕ → Result (List Blocker)
set_blockers store problem_id found none = ok (
    statement_blockers found
    ++ record {
      code = "problem.testcase_required";
      message = "current testcase set is required before publishing";
      step = AuthoringStep.testcase;
    }
      ∷ [])
set_blockers store problem_id none (some set_id) = ok (statement_blockers none)
set_blockers store problem_id (some statement_id) (some set_id) =
    check_blockers store problem_id statement_id set_id

unfoldable pub load_blockers : PublishStore → ℕ → Result (List Blocker)
load_blockers store problem_id = do
  found ← optional (store.get_current_problem_statement problem_id)
  set ← optional (store.get_current_testcase_set problem_id)
  set_blockers store problem_id found set

abbrev pub refuse_first : List Blocker → Result (Unit {0})
refuse_first [] = ok tt
refuse_first (blocker ∷ blockers) = err (unprocessable blocker.code blocker.message)

unfoldable pub ensure_publishable : PublishStore → ℕ → Result (Unit {0})
ensure_publishable store problem_id = do
  blockers ← load_blockers store problem_id
  refuse_first blockers

-- A statement, a testcase set, and a valid check of the two, with findings that can be read.
abbrev pub IsPublishable : PublishStore → ℕ → Type 0
IsPublishable store problem_id =
    (statement_id : ℕ) × (set_id : ℕ) × (run : CheckRun) × (findings : List String)
    × (store.get_current_problem_statement problem_id ≡ ok statement_id)
    × (store.get_current_testcase_set problem_id ≡ ok set_id)
    × (store.get_latest_completed_problem_check_run problem_id statement_id set_id ≡ ok run)
    × (store.list_problem_check_findings run.id ≡ ok findings)
    × (run.valid ≡ true)

check_failed_iff : (run : CheckRun) → (refuse_first (check_failed run) ≡ ok tt) ↔ (run.valid ≡ true)
check_failed_iff run = ground arith

optional-some : {A : Type 0} (r : Result A) {a : A} → optional r ≡ ok (some a) → r ≡ ok a
optional-some r h = ground arith

refused :
    {P : Type 0} (b : Blocker) (rest blockers : List Blocker)
    → b ∷ rest ≡ blockers
    → refuse_first blockers ≡ ok tt
    → P
refused b rest [] h clear = ground arith
refused b rest (c ∷ blockers) h clear = ground arith

set_blockers-empty :
    (store : PublishStore) (problem_id : ℕ) (found set : Option ℕ) {blockers : List Blocker}
    → set_blockers store problem_id found set ≡ ok blockers
    → refuse_first blockers ≡ ok tt
    → (statement_id : ℕ) × (set_id : ℕ) × (found ≡ some statement_id)
      × (set ≡ some set_id)
      × (check_blockers store problem_id statement_id set_id ≡ ok blockers)
unfolding set_blockers
set_blockers-empty store problem_id (some statement_id) (some set_id) h clear =
    (statement_id, set_id, refl, refl, h)
set_blockers-empty store problem_id none (some set_id) h clear =
    refused _ _ _ (ok_injective h) clear
set_blockers-empty store problem_id none none h clear = refused _ _ _ (ok_injective h) clear
set_blockers-empty store problem_id (some statement_id) none h clear =
    refused _ _ _ (ok_injective h) clear

abbrev IsChecked : PublishStore → ℕ → ℕ → ℕ → Type 0
IsChecked store problem_id statement_id set_id =
    (run : CheckRun) × (findings : List String) × (store.get_latest_completed_problem_check_run
        problem_id statement_id set_id
      ≡ ok run)
    × (store.list_problem_check_findings run.id ≡ ok findings)
    × (run.valid ≡ true)

after_check :
    (store : PublishStore) (found : Option CheckRun) {blockers : List Blocker}
    → elim found [
      | none ↦ ok (
          record {
            code = "problem.check_required";
            message = "run a problem check for the current testcase set before publishing";
            step = AuthoringStep.check;
          }
          ∷ [])
      | some run ↦ do findings ← store.list_problem_check_findings run.id; ok (check_failed run)
    ]
      ≡ ok blockers
    → refuse_first blockers ≡ ok tt
    → (run : CheckRun) × (findings : List String) × (found ≡ some run)
      × (store.list_problem_check_findings run.id ≡ ok findings)
      × (run.valid ≡ true)
after_check store none h clear = refused _ _ _ (ok_injective h) clear
after_check store (some run) h clear =
    let findings = bind_ok (store.list_problem_check_findings run.id) _ h in
    (
      run,
      findings.0,
      refl,
      findings.1,
      (check_failed_iff run).0 (rw (sym (ok_injective findings.2)) at clear),
    )

check_blockers-IsChecked :
    (store : PublishStore) (problem_id statement_id set_id : ℕ) {blockers : List Blocker}
    → check_blockers store problem_id statement_id set_id ≡ ok blockers
    → refuse_first blockers ≡ ok tt
    → IsChecked store problem_id statement_id set_id
unfolding check_blockers
check_blockers-IsChecked store problem_id statement_id set_id h clear =
    let read = store.get_latest_completed_problem_check_run problem_id statement_id set_id in
    let found = bind_ok (optional read) _ h in
    let checked = after_check store found.0 found.2 clear in
    (checked.0, checked.1, optional-some read (rw checked.2 at found.1), checked.3, checked.4)

ensure_publishable-IsPublishable :
    (store : PublishStore) (problem_id : ℕ)
    → ensure_publishable store problem_id ≡ ok tt
    → IsPublishable store problem_id
unfolding ensure_publishable load_blockers
ensure_publishable-IsPublishable store problem_id h =
    let blockers = bind_ok (load_blockers store problem_id) _ h in
    let found = bind_ok (optional (store.get_current_problem_statement problem_id)) _ blockers.1 in
    let set = bind_ok (optional (store.get_current_testcase_set problem_id)) _ found.2 in
    let both = set_blockers-empty store problem_id found.0 set.0 set.2 blockers.2 in
    let checked = check_blockers-IsChecked store problem_id both.0 both.1 both.4 blockers.2 in
    (
      both.0,
      both.1,
      checked.0,
      checked.1,
      optional-some (store.get_current_problem_statement problem_id) (rw both.2 at found.1),
      optional-some (store.get_current_testcase_set problem_id) (rw both.3 at set.1),
      checked.2,
      checked.3,
      checked.4,
    )

ensure_publishable_of_IsPublishable :
    (store : PublishStore) (problem_id : ℕ)
    → IsPublishable store problem_id
    → ensure_publishable store problem_id ≡ ok tt
unfolding ensure_publishable load_blockers set_blockers check_blockers
ensure_publishable_of_IsPublishable store problem_id
      (statement_id, set_id, run, findings, h0, h1, h2, h3, valid) =
    rw h0 (rw h1 (rw h2 (rw h3 (rw valid refl))))

-- A problem may be published exactly when it has a current statement and a current testcase set, and
-- the latest completed check of the two is valid and has findings that can be read.
pub ensure_publishable_iff :
    (store : PublishStore) (problem_id : ℕ)
    → (ensure_publishable store problem_id ≡ ok tt) ↔ IsPublishable store problem_id
ensure_publishable_iff store problem_id = (
  ensure_publishable-IsPublishable store problem_id,
  ensure_publishable_of_IsPublishable store problem_id,
)
