-- ===== src/Contest/Policy.antt =====
-- internal/contest/policy.go: registration, admission of submissions, and who sees which result.
-- The reads of the database go through `ContestStore`.
pub mod Admission
pub mod Results
use soj.Prelude.{
  ℕ, Bool, true, false, ◌&&◌, ◌||◌, not, Option, none, some, List, [], ◌∷◌, String, if◌then◌else◌,
  ◌==◌, any, str_eq,
}
use soj.Prelude.Int.{pos}
use soj.AppError.{
  Result, ok, err, Error, is_ok, unauthorized, forbidden, bad_request, conflict, not_found, ◌>>=◌,
  ◌>>◌,
}
use soj.Auth.{Permission, Actor, authenticated, may}
use soj.Contest.Types.{
  Time, before, after, ContestStatus, RegistrationStatus, ContestRecord, ContestProblem,
  ContestRegistration,
}
use soj.Contest.Access.{
  ContestStore, is_private, owns, registered, require_contest_judge, can_view_contest_results,
  actor_with_contest_roles, can_read_contest_as,
}

pub record RegistrationInput : Type 0 where
  pub invite_code : String
  pub display_name : String
  pub email : String

pub record ContestSubmissionVisibility : Type 0 where
  pub id : ℕ
  pub user_id : ℕ
  pub problem_id : ℕ
  pub contest_id : ℕ
  pub submitted_at : Time
  pub judged_at : Option Time

pub record SubmissionResultVisibility : Type 0 where
  pub show_result : Bool
  pub show_cases : Bool
  pub show_admin_diagnostics : Bool
  pub visibility : String

abbrev pub accepts_submissions : ContestStatus → Bool
accepts_submissions ContestStatus.published = true
accepts_submissions ContestStatus.running = true
accepts_submissions _ = false

abbrev pub is_ended : ContestStatus → Bool
is_ended ContestStatus.ended = true
is_ended _ = false

unfoldable pub authorize_contest_rejudge : ContestStore → Actor → ℕ → Result (Unit {0})
authorize_contest_rejudge store actor id = do
  contest ← store.get_contest id
  scoped ← actor_with_contest_roles store actor contest.id
  require_contest_judge scoped contest

unfoldable pub validate_contest_rejudge_target : ContestStore → ℕ → Result (Unit {0})
validate_contest_rejudge_target store id = do
  contest ← store.get_contest id
  if is_ended contest.status
      then ok tt
      else err (conflict "rejudge.contest_not_ended" "contest must be ended before rejudge")

-- `strings.TrimSpace`, SHA-256 with its hex text, and the insert of a row are not of this repository.
module _ (trim_space : String → String) (sha256_hex : String → String)
    (create_registration : ContestRegistration → Result ContestRegistration) where
  unfoldable pub hash_invite_code : String → String
  hash_invite_code code = if str_eq (trim_space code) "" then "" else sha256_hex (trim_space code)

  -- What `CreateRegistration` is given; the fields the code leaves out are the zero values.
  unfoldable pub new_registration : Actor → ℕ → RegistrationInput → ContestRegistration
  new_registration actor contest_id input = record {
    id = 0;
    contest_id = contest_id;
    user_id = actor.user_id;
    display_name = trim_space input.display_name;
    email = trim_space input.email;
    status = RegistrationStatus.active;
    registered_at = 0;
    accepted_count = pos 0;
    penalty_minutes = pos 0;
  }

  unfoldable pub register :
      ContestStore → Actor → ℕ → RegistrationInput → Result ContestRegistration
  register store actor contest_id input =
      if not (authenticated actor)
      then err (unauthorized "auth_required" "authentication required")
      else do
        contest ← store.get_contest contest_id
        scoped ← actor_with_contest_roles store actor contest.id
        if is_private contest.visibility && str_eq contest.invite_code_hash ""
            then err (forbidden "contest.invite_code_required" "invite code is required")
            else if is_private contest.visibility
                && not (str_eq contest.invite_code_hash (hash_invite_code input.invite_code))
            then err (forbidden "contest.invite_code_invalid" "invite code is invalid")
            else if str_eq (trim_space input.display_name) "" || str_eq (trim_space input.email) ""
            then err (bad_request "request.invalid" "display_name and email are required")
            else create_registration (new_registration scoped contest_id input)

unfoldable pub contains_problem : List ContestProblem → ℕ → Bool
contains_problem problems problem_id = any (λ problem. problem.problem_id == problem_id) problems

-- The last part of `ValidateSubmission`: the owner and a manager need no registration.
unfoldable pub admit : ContestStore → Actor → ContestRecord → ℕ → Result (Unit {0})
admit store actor contest contest_id =
    if owns actor contest || may actor Permission.contest_manage
    then ok tt
    else if registered (store.get_registration contest_id actor.user_id)
    then ok tt
    else err (forbidden "contest.registration_required" "contest registration required")

-- Its part on the clock and the problem list.
unfoldable pub admit_open : ContestStore → Actor → ContestRecord → ℕ → ℕ → Result (Unit {0})
admit_open store actor contest problem_id contest_id =
    if not (accepts_submissions contest.status)
    then err (forbidden "contest.not_started" "contest is not accepting submissions")
    else if before store.now contest.start_at
    then err (forbidden "contest.not_started" "contest has not started")
    else if not (before store.now contest.end_at)
    then err (forbidden "contest.ended" "contest has ended")
    else do
      problems ← store.list_contest_problems contest_id
      if contains_problem problems problem_id
          then admit store actor contest contest_id
          else err (not_found "contest.problem_not_found" "problem is not in contest")

unfoldable pub validate_submission : ContestStore → Actor → ℕ → ℕ → Result (Unit {0})
validate_submission store actor problem_id contest_id =
    if not (authenticated actor)
    then err (unauthorized "auth_required" "authentication required")
    else do
      contest ← store.get_contest contest_id
      scoped ← actor_with_contest_roles store actor contest.id
      admit_open store scoped contest problem_id contest_id

unfoldable pub submission_visible_in_frozen_window :
    ContestRecord → ContestSubmissionVisibility → Time → Bool
submission_visible_in_frozen_window contest sub now =
    if before now contest.freeze_at || not (before now contest.end_at)
    then true
    else elim sub.judged_at [
      | none ↦ before sub.submitted_at contest.freeze_at
      | some judged_at ↦
          before sub.submitted_at contest.freeze_at && not (after judged_at contest.freeze_at)
    ]

unfoldable pub submission_result_visibility :
    ContestRecord → Actor → ContestSubmissionVisibility → Time → SubmissionResultVisibility
submission_result_visibility contest actor sub now =
    if can_view_contest_results actor contest
    then record {
      show_result = true;
      show_cases = true;
      show_admin_diagnostics = true;
      visibility = "visible";
    }
    else if not (submission_visible_in_frozen_window contest sub now)
    then record {
      show_result = false;
      show_cases = false;
      show_admin_diagnostics = false;
      visibility = "frozen";
    }
    else record {
      show_result = true;
      show_cases = true;
      show_admin_diagnostics = false;
      visibility = "visible";
    }

-- `SubmissionResultVisibility`, the method.
unfoldable pub read_submission_result_visibility :
    ContestStore → Actor → ContestSubmissionVisibility → Result SubmissionResultVisibility
read_submission_result_visibility store actor sub = do
  contest ← store.get_contest sub.contest_id
  scoped ← actor_with_contest_roles store actor sub.contest_id
  can_read_contest_as store scoped contest
  ok (submission_result_visibility contest scoped sub store.now)

unfoldable pub can_read_submission_source :
    ContestStore → Actor → ContestSubmissionVisibility → Result Bool
can_read_submission_source store actor sub = do
  contest ← store.get_contest sub.contest_id
  scoped ← actor_with_contest_roles store actor sub.contest_id
  ok (is_ok (can_read_contest_as store scoped contest) && can_view_contest_results scoped contest)

-- The contests and scoped actors that a batch has read so far: the maps `contests` and `actors`,
-- which the code writes together.
pub record ScopedContest : Type 0 where
  pub contest : ContestRecord
  pub actor : Actor

abbrev pub ContestCache : Type 0
ContestCache = List (ℕ × ScopedContest)

unfoldable pub cached : ℕ → ContestCache → Option ScopedContest
cached contest_id [] = none
cached contest_id ((key, entry) ∷ rest) =
    if key == contest_id then some entry else cached contest_id rest

abbrev pub entry_of : ContestRecord → Actor → ScopedContest
entry_of contest actor = record { contest = contest; actor = actor }

-- The entry of the cache, or a fresh read, which the cache keeps.
unfoldable pub load_contest :
    ContestStore → Actor → ℕ → ContestCache → Result (ScopedContest × ContestCache)
load_contest store actor contest_id cache = elim (cached contest_id cache) [
  | some entry ↦ ok (entry, cache)
  | none ↦ do
    scoped ← actor_with_contest_roles store actor contest_id
    contest ← store.get_contest contest_id
    can_read_contest_as store scoped contest
    ok (entry_of contest scoped, (contest_id, entry_of contest scoped) ∷ cache)
]

-- The loop of `SubmissionResultVisibilities`; the map it fills is the list of its writes in order.
unfoldable pub visibilities_from :
    ContestStore
    → Actor
    → ContestCache
    → List ContestSubmissionVisibility
    → Result (List (ℕ × SubmissionResultVisibility))
visibilities_from store actor cache [] = ok []
visibilities_from store actor cache (sub ∷ subs) = do
  loaded ← load_contest store actor sub.contest_id cache
  rest ← visibilities_from store actor loaded.1 subs
  ok ((sub.id, submission_result_visibility loaded.0.contest loaded.0.actor sub store.now) ∷ rest)

unfoldable pub submission_result_visibilities :
    ContestStore
    → Actor
    → List ContestSubmissionVisibility
    → Result (List (ℕ × SubmissionResultVisibility))
submission_result_visibilities store actor submissions =
    visibilities_from store actor [] submissions
