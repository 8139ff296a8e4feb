-- ===== src/Contest/Policy/Admission.antt =====
-- internal/contest/policy.go and reader.go: when the contest rules let a submission in.
use soj.Prelude.{
  ℕ, ◌≤◌, ◌<◌, ◌≡◌, refl, sym, ap, Bool, true, false, ◌||◌, not, ◌⊎◌, ◌↔◌, inl, inr, List,
  Bool-cases, arith, ◌==◌,
}
use soj.AppError.{ok}
use soj.AppError.Bind.{bind_ok, ok_injective, ok_under_iff, ok_past_iff}
use soj.Auth.{Role, Permission, Actor, authenticated, may, authorize, has}
use soj.Auth.Merge.{add_roles, add_permissions, has-add_permissions}
use soj.Contest.Types.{ContestRecord, ContestProblem, before}
use soj.Contest.Access.{
  ContestStore, is_public, owns, registered, can_manage_all_contests, actor_with_contest_roles,
  can_read_contest, can_read_contest_as,
}
use soj.Contest.Policy.{
  accepts_submissions, contains_problem, admit, admit_open, validate_submission,
}

-- Who may submit: the owner, a manager, and whoever has an active registration.
abbrev pub MaySubmit : ContestStore → Actor → ContestRecord → ℕ → Type 0
MaySubmit store actor contest contest_id =
    (owns actor contest ≡ true)
    ⊎ (may actor Permission.contest_manage ≡ true)
    ⊎ (registered (store.get_registration contest_id actor.user_id) ≡ true)

-- What the contest asks of the moment and the problem.
abbrev pub IsOpen : ContestStore → ContestRecord → ℕ → ℕ → Type 0
IsOpen store contest problem_id contest_id =
    (accepts_submissions contest.status ≡ true)
    × (contest.start_at ≤ store.now)
    × (store.now < contest.end_at)
    × ((problems : List ContestProblem) × (store.list_contest_problems contest_id ≡ ok problems)
        × (contains_problem problems problem_id ≡ true))

abbrev pub IsAdmitted : ContestStore → Actor → ℕ → ℕ → Type 0
IsAdmitted store actor problem_id contest_id =
    (authenticated actor ≡ true)
    × ((contest : ContestRecord) × (store.get_contest contest_id ≡ ok contest)
        × ((scoped : Actor) × (actor_with_contest_roles store actor contest.id ≡ ok scoped)
            × IsOpen store contest problem_id contest_id
            × MaySubmit store scoped contest contest_id))

admit_iff :
    (store : ContestStore) (actor : Actor) (contest : ContestRecord) (contest_id : ℕ)
    → (admit store actor contest contest_id ≡ ok tt) ↔ MaySubmit store actor contest contest_id
unfolding admit
admit_iff store actor contest contest_id = ground arith

admit_open-IsOpen :
    (store : ContestStore) (actor : Actor) (contest : ContestRecord) (problem_id contest_id : ℕ)
    → admit_open store actor contest problem_id contest_id ≡ ok tt
    → IsOpen store contest problem_id contest_id × MaySubmit store actor contest contest_id
unfolding admit_open
admit_open-IsOpen store actor contest problem_id contest_id h =
    let status = (ok_past_iff (not (accepts_submissions contest.status)) _ _).0 h in
    let started = (ok_past_iff (before store.now contest.start_at) _ _).0 status.1 in
    let running = (ok_past_iff (not (before store.now contest.end_at)) _ _).0 started.1 in
    let listed = bind_ok (store.list_contest_problems contest_id) _ running.1 in
    let found = (ok_under_iff (contains_problem listed.0 problem_id) _ _).0 listed.2 in
    (
      (ground arith, ground arith, ground arith, (listed.0, listed.1, found.0)),
      (admit_iff store actor contest contest_id).0 found.1,
    )

admit_open_of_IsOpen :
    (store : ContestStore) (actor : Actor) (contest : ContestRecord) (problem_id contest_id : ℕ)
    → IsOpen store contest problem_id contest_id
    → MaySubmit store actor contest contest_id
    → admit_open store actor contest problem_id contest_id ≡ ok tt
unfolding admit_open
admit_open_of_IsOpen store actor contest problem_id contest_id (status, started, running, listed)
      may =
    let not_early : before store.now contest.start_at ≡ false = ground arith in
    let not_late : before store.now contest.end_at ≡ true = ground arith in
    rw status (
      rw not_early (
        rw not_late (rw listed.1 (rw listed.2 ((admit_iff store actor contest contest_id).1 may)))))

-- A submission to a contest is let in exactly when its author is signed in, the contest is there and
-- published or running, the clock stands from its start to before its end, the problem is one of its
-- problems, and the author, with the roles they hold in the contest, owns or manages it or has an
-- active registration.
pub validate_submission_iff :
    (store : ContestStore) (actor : Actor) (problem_id contest_id : ℕ)
    → (validate_submission store actor problem_id contest_id ≡ ok tt)
      ↔ IsAdmitted store actor problem_id contest_id
unfolding validate_submission
validate_submission_iff store actor problem_id contest_id = (admitted, admits)
  where
    admitted :
        validate_submission store actor problem_id contest_id ≡ ok tt
        → IsAdmitted store actor problem_id contest_id
    admitted h =
        let signed_in = (ok_past_iff (not (authenticated actor)) _ _).0 h in
        let contest = bind_ok (store.get_contest contest_id) _ signed_in.1 in
        let scoped = bind_ok (actor_with_contest_roles store actor contest.0.id) _ contest.2 in
        let opened = admit_open-IsOpen store scoped.0 contest.0 problem_id contest_id scoped.2 in
        (ground arith, (contest.0, contest.1, (scoped.0, scoped.1, opened.0, opened.1)))

    admits :
        IsAdmitted store actor problem_id contest_id
        → validate_submission store actor problem_id contest_id ≡ ok tt
    admits (signed_in, (contest, found, (scoped, roles, opened, may))) = rw signed_in (
        rw found
          (rw roles (admit_open_of_IsOpen store scoped contest problem_id contest_id opened may)))

may-record :
    (actor : Actor) (roles : List Role) (held : List Permission) (permission : Permission)
    → has held permission ≡ true
    → may actor permission ≡ true
    → may (record actor { roles = roles; permissions = held }) permission ≡ true
unfolding authorize
may-record actor roles held permission h allowed = ground (arith)

has-more :
    (actor : Actor) (granted : List Permission) (permission : Permission)
    → may actor permission ≡ true
    → has (add_permissions actor.permissions granted) permission ≡ true
unfolding authorize
has-more actor granted permission h =
    rw (has-add_permissions actor.permissions granted permission) (ground arith)

-- What an actor may do they may also do as a member of a contest.
pub may-scoped :
    (store : ContestStore) (actor scoped : Actor) (contest_id : ℕ) (permission : Permission)
    → actor_with_contest_roles store actor contest_id ≡ ok scoped
    → may actor permission ≡ true
    → may scoped permission ≡ true
unfolding actor_with_contest_roles
may-scoped store actor scoped contest_id permission h allowed =
    elim (Bool-cases (not store.has_role_store || not (authenticated actor) || (contest_id == 0))) [
      | inl unchanged ↦
          let same : ok actor ≡ ok scoped = rw unchanged at h in
          let same_actor : actor ≡ scoped = cc in rw (sym same_actor) allowed
      | inr joined ↦
          let granted =
            bind_ok (store.list_contest_access contest_id actor.user_id) _ (rw joined at h) in
          let same_actor = ok_injective granted.2 in
          rw (sym same_actor) (
            may-record actor (add_roles actor.roles granted.0.roles)
              (add_permissions actor.permissions granted.0.permissions) permission
              (has-more actor granted.0.permissions permission allowed) allowed)
    ]

scoped-user_id :
    (store : ContestStore) (actor scoped : Actor) (contest_id : ℕ)
    → actor_with_contest_roles store actor contest_id ≡ ok scoped
    → actor.user_id ≡ scoped.user_id
unfolding actor_with_contest_roles
scoped-user_id store actor scoped contest_id h =
    elim (Bool-cases (not store.has_role_store || not (authenticated actor) || (contest_id == 0))) [
      | inl unchanged ↦ ap (λ a. a.user_id) (ok_injective (rw unchanged at h))
      | inr joined ↦
          let granted =
            bind_ok (store.list_contest_access contest_id actor.user_id) _ (rw joined at h) in
          ap (λ a. a.user_id) (ok_injective granted.2)
    ]

or_true : (a b c d : Bool) → ((a ≡ true) ⊎ (b ≡ true) ⊎ (c ≡ true)) → (a || b || c || d) ≡ true
or_true a b c d h = ground arith

or_cases : (a b c : Bool) → (a || b || c) ≡ true → (a ≡ true) ⊎ (b ≡ true) ⊎ (c ≡ true)
or_cases a b c h = ground arith

-- Reading a contest by the short cut, or by the roles that the actor holds in it, comes to the same.
pub can_read_contest-can_read_contest_as :
    (store : ContestStore) (actor scoped : Actor) (contest : ContestRecord)
    → actor_with_contest_roles store actor contest.id ≡ ok scoped
    → can_read_contest store actor contest ≡ can_read_contest_as store scoped contest
unfolding can_read_contest can_read_contest_as can_manage_all_contests
can_read_contest-can_read_contest_as store actor scoped contest h =
    let short_cut =
      is_public contest.visibility
      || may actor Permission.contest_manage_all
      || owns actor contest in
    elim (Bool-cases short_cut) [
      | inr e ↦ rw e (rw h refl)
      | inl e ↦ rw e (rw (or_true _ _ _ _ (granted (or_cases _ _ _ e))) refl)
    ]
  where
    granted :
        (is_public contest.visibility ≡ true)
          ⊎ (may actor Permission.contest_manage_all ≡ true)
          ⊎ (owns actor contest ≡ true)
        → (is_public contest.visibility ≡ true)
          ⊎ (may scoped Permission.contest_manage_all ≡ true)
          ⊎ (owns scoped contest ≡ true)
    granted (inl open_to_all) = inl open_to_all
    granted (inr (inl manages)) =
        inr (inl (may-scoped store actor scoped contest.id Permission.contest_manage_all h manages))
    granted (inr (inr owned)) =
        inr (inr (rw (sym (scoped-user_id store actor scoped contest.id h)) owned))
