-- ===== src/Auth.antt =====
-- internal/auth/actor.go and internal/authz: actors, roles and permissions.
pub mod Merge
use soj.Prelude.{
  ℕ, ◌≡◌, Bool, true, false, ◌&&◌, ◌||◌, not, List, [], ◌∷◌, ◌++◌, ltb, if◌then◌else◌, any, String,
  arith,
}
use mathlib.Core.Bool.{decide}
use soj.AppError.{Result, ok, err, plain, is_ok}

pub data Role : Type 0 where
  user author reviewer operator admin root contest_staff contest_manager contest_judge : Role

-- The permission directory of internal/authz/permissions.go. A code outside it is refused by every
-- read of the database, so an actor never carries one.
pub data Permission : Type 0 where
  audit_read problem_create problem_edit_own problem_submit_review problem_review : Permission
  problem_publish problem_manage_all submission_rejudge contest_create contest_read : Permission
  contest_manage contest_judge contest_manage_all judge_inspect user_manage role_grant : Permission
  role_revoke role_permission_manage system_manage : Permission

unfoldable pub Role-discrete : Discrete Role
Role-discrete = hlevel

unfoldable pub Permission-discrete : Discrete Permission
Permission-discrete = hlevel

unfoldable pub same_role : Role → Role → Bool
unfolding Role-discrete
same_role a b = decide (Role-discrete a b)

unfoldable pub same_permission : Permission → Permission → Bool
unfolding Permission-discrete
same_permission a b = decide (Permission-discrete a b)

-- `Role`, the single-role view, is the empty text for most actors; the device and the request id
-- bear on no decision.
pub record Actor : Type 0 where
  pub user_id : ℕ
  pub roles : List Role
  pub permissions : List Permission

unfoldable pub is_global_role : Role → Bool
is_global_role Role.contest_staff = false
is_global_role Role.contest_manager = false
is_global_role Role.contest_judge = false
is_global_role _ = true

unfoldable pub is_contest_role : Role → Bool
is_contest_role Role.contest_staff = true
is_contest_role Role.contest_manager = true
is_contest_role Role.contest_judge = true
is_contest_role _ = false

-- Every role is a global one or a contest one, and none is both.
pub is_contest_role-not : (role : Role) → is_contest_role role ≡ not (is_global_role role)
unfolding is_contest_role is_global_role
is_contest_role-not role = ground arith

abbrev pub authenticated : Actor → Bool
authenticated actor = ltb 0 actor.user_id

-- `Subject.Has`
unfoldable pub has : List Permission → Permission → Bool
has granted permission = any (same_permission permission) granted

-- `authz.Authorize` of the actor's subject.
unfoldable pub authorize : Actor → Permission → Result (Unit {0})
authorize actor permission =
    if not (authenticated actor) || not (has actor.permissions permission)
    then err (plain "permission denied")
    else ok tt

-- `authz.Authorize(...) == nil`
abbrev pub may : Actor → Permission → Bool
may actor permission = is_ok (authorize actor permission)

unfoldable pub is_full_access_role : Role → Bool
is_full_access_role Role.admin = true
is_full_access_role Role.root = true
is_full_access_role _ = false

abbrev pub all_permissions : List Permission
all_permissions =
    Permission.audit_read ∷ Permission.contest_create ∷ Permission.contest_judge
    ∷ Permission.contest_manage ∷ Permission.contest_manage_all ∷ Permission.contest_read
    ∷ Permission.judge_inspect ∷ Permission.problem_create ∷ Permission.problem_edit_own
    ∷ Permission.problem_manage_all ∷ Permission.problem_publish ∷ Permission.problem_review
    ∷ Permission.problem_submit_review ∷ Permission.role_grant ∷ Permission.role_permission_manage
    ∷ Permission.role_revoke ∷ Permission.submission_rejudge ∷ Permission.system_manage
    ∷ Permission.user_manage ∷ []

pub data PermissionScope : Type 0 where
  global contest : PermissionScope

unfoldable pub permission_scope : Permission → PermissionScope
permission_scope Permission.contest_read = PermissionScope.contest
permission_scope Permission.contest_manage = PermissionScope.contest
permission_scope Permission.contest_judge = PermissionScope.contest
permission_scope _ = PermissionScope.global

-- What the role matrix may hand to a role: all but the `nonDelegablePermissions`.
unfoldable pub delegable : Permission → Bool
delegable Permission.audit_read = false
delegable Permission.role_grant = false
delegable Permission.role_permission_manage = false
delegable Permission.role_revoke = false
delegable Permission.system_manage = false
delegable Permission.user_manage = false
delegable _ = true
