-- ===== src/Contest/Access.antt =====
-- internal/contest/reader.go and service.go: who may read and manage a contest.
use soj.Prelude.{ℕ, Bool, true, false, ◌||◌, not, List, if◌then◌else◌, ◌==◌}
use soj.AppError.{Result, ok, err, unauthorized, forbidden, ◌>>=◌}
use soj.Auth.{Role, Permission, Actor, authenticated, may}
use soj.Auth.Merge.{add_roles, add_permissions}
use soj.Contest.Types.{
  Time, Visibility, ContestRecord, ContestProblem, ContestRegistration, is_active,
}

pub record ContestAccess : Type 0 where
  pub roles : List Role
  pub permissions : List Permission

-- What the contest rules read of the database, the clock, and whether there is a role store.
pub record ContestStore : Type 0 where
  pub now : Time
  pub has_role_store : Bool
  pub get_contest : ℕ → Result ContestRecord
  pub list_contest_problems : ℕ → Result (List ContestProblem)
  pub get_registration : ℕ → ℕ → Result ContestRegistration
  pub list_contest_access : ℕ → ℕ → Result ContestAccess

abbrev pub is_public : Visibility → Bool
is_public Visibility.public = true
is_public _ = false

abbrev pub is_private : Visibility → Bool
is_private Visibility.private = true
is_private _ = false

abbrev pub owns : Actor → ContestRecord → Bool
owns actor contest = actor.user_id == contest.owner_user_id

unfoldable pub can_manage_all_contests : Actor → Bool
can_manage_all_contests actor = may actor Permission.contest_manage_all

unfoldable pub can_manage_contest : Actor → ContestRecord → Bool
can_manage_contest actor contest = owns actor contest || may actor Permission.contest_manage

unfoldable pub can_view_contest_results : Actor → ContestRecord → Bool
can_view_contest_results actor contest =
    can_manage_contest actor contest || may actor Permission.contest_judge

unfoldable pub require_contest_manager : Actor → ContestRecord → Result (Unit {0})
require_contest_manager actor contest =
    if not (authenticated actor)
    then err (unauthorized "auth_required" "authentication required")
    else if can_manage_contest actor contest
    then ok tt
    else err (forbidden "contest.not_allowed" "contest access denied")

unfoldable pub require_contest_judge : Actor → ContestRecord → Result (Unit {0})
require_contest_judge actor contest =
    if not (authenticated actor)
    then err (unauthorized "auth_required" "authentication required")
    else if can_manage_contest actor contest || may actor Permission.contest_judge
    then ok tt
    else err (forbidden "contest.not_allowed" "contest judge permission required")

unfoldable pub require_contest_creator : Actor → Result (Unit {0})
require_contest_creator actor =
    if not (authenticated actor)
    then err (unauthorized "auth_required" "authentication required")
    else if may actor Permission.contest_create
    then ok tt
    else if may actor Permission.contest_manage_all
    then ok tt
    else err (forbidden "contest.not_allowed" "contest management permission required")

-- `err == nil && registration.Status == RegistrationActive`
abbrev pub registered : Result ContestRegistration → Bool
registered (ok registration) = is_active registration.status
registered (err e) = false

unfoldable pub can_read_contest_as : ContestStore → Actor → ContestRecord → Result (Unit {0})
can_read_contest_as store actor contest =
    if is_public contest.visibility
      || can_manage_all_contests actor
      || owns actor contest
      || may actor Permission.contest_read
    then ok tt
    else if not (authenticated actor)
    then err (unauthorized "auth_required" "authentication required")
    else if registered (store.get_registration contest.id actor.user_id)
    then ok tt
    else err (forbidden "contest.not_allowed" "contest access denied")

-- The actor with the roles and permissions that they hold inside one contest.
unfoldable pub actor_with_contest_roles : ContestStore → Actor → ℕ → Result Actor
actor_with_contest_roles store actor contest_id =
    if not store.has_role_store || not (authenticated actor) || (contest_id == 0)
    then ok actor
    else do
      access ← store.list_contest_access contest_id actor.user_id
      ok (record actor {
        roles = add_roles actor.roles access.roles;
        permissions = add_permissions actor.permissions access.permissions;
      })

unfoldable pub can_read_contest : ContestStore → Actor → ContestRecord → Result (Unit {0})
can_read_contest store actor contest =
    if is_public contest.visibility || can_manage_all_contests actor || owns actor contest
    then ok tt
    else do
      scoped ← actor_with_contest_roles store actor contest.id
      can_read_contest_as store scoped contest
