-- ===== src/Contest/Policy/Results.antt =====
-- internal/contest/policy.go: who sees which result while the board is frozen.
use soj.Prelude.{
  some_injective, ℕ, ◌≤◌, ◌<◌, ◌≡◌, refl, sym, ap, ◌∙◌, ◌↔◌, true, false, ◌&&◌, not, inl, inr, List,
  [], ◌∷◌, Bool-cases, arith, some, Option-cases, ◌==◌, ==_iff,
}
use mathlib.Core.Option
use soj.AppError.{Result, ok, ◌>>=◌}
use soj.AppError.Bind.{bind_ok, ok_injective}
use soj.Auth.{Actor}
use soj.Contest.Types.{ContestRecord, ContestSubmissionResult, Time, before, after}
use soj.Contest.Access.{
  ContestStore, can_view_contest_results, can_read_contest_as, actor_with_contest_roles,
}
use soj.Contest.Policy.{
  ContestSubmissionVisibility, SubmissionResultVisibility, submission_visible_in_frozen_window,
  submission_result_visibility, submission_result_visibilities, visibilities_from,
  read_submission_result_visibility, cached, load_contest, ContestCache, ScopedContest, entry_of,
}
use soj.Contest.Scoreboard.Board.{visible}

-- What the result page is told of a submission that the board reads as `sub`.
abbrev pub judged_view : ContestSubmissionResult → ContestSubmissionVisibility
judged_view sub = record {
  id = sub.id;
  user_id = sub.user_id;
  problem_id = sub.problem_id;
  contest_id = sub.contest_id;
  submitted_at = sub.submitted_at;
  judged_at = some sub.judged_at;
}

-- Before the end of a frozen window, whoever is not staff of the contest sees the result of a
-- submission exactly when the frozen board shows it, if the submission was not judged again.
pub submission_result_visibility-visible :
    (contest : ContestRecord) (actor : Actor) (sub : ContestSubmissionResult) (now : Time)
    → can_view_contest_results actor contest ≡ false
    → contest.freeze_at ≤ now
    → now < contest.end_at
    → Option.get_or sub.first_judged_at sub.judged_at ≡ sub.judged_at
    → (submission_result_visibility contest actor (judged_view sub) now).show_result
      ≡ visible contest sub
unfolding submission_result_visibility submission_visible_in_frozen_window visible
submission_result_visibility-visible contest actor sub now outsider frozen running first =
    let started : before now contest.freeze_at ≡ false = ground arith in
    let not_over : before now contest.end_at ≡ true = ground arith in
    rw outsider (
      rw first (
        rw started (
          rw not_over
            (elim (Bool-cases (
              before sub.submitted_at contest.freeze_at
              && not (after sub.judged_at contest.freeze_at))) [
                | inl shown ↦ rw shown refl
                | inr hidden ↦ rw hidden refl
              ]))))

-- The results of each submission, read one at a time.
pub each_visibility :
    ContestStore
    → Actor
    → List ContestSubmissionVisibility
    → Result (List (ℕ × SubmissionResultVisibility))
each_visibility store actor [] = ok []
each_visibility store actor (sub ∷ subs) = do
  visibility ← read_submission_result_visibility store actor sub
  rest ← each_visibility store actor subs
  ok ((sub.id, visibility) ∷ rest)

-- The cache holds what a fresh read of the contest would return.
abbrev pub IsFresh : ContestStore → Actor → ℕ → ScopedContest → Type 0
IsFresh store actor contest_id entry =
    (store.get_contest contest_id ≡ ok entry.contest)
    × (actor_with_contest_roles store actor contest_id ≡ ok entry.actor)
    × (can_read_contest_as store entry.actor entry.contest ≡ ok tt)

abbrev pub IsCoherent : ContestStore → Actor → ContestCache → Type 0
IsCoherent store actor [] = Unit
IsCoherent store actor ((contest_id, entry) ∷ cache) =
    IsFresh store actor contest_id entry × IsCoherent store actor cache

cached-IsFresh :
    (store : ContestStore) (actor : Actor) (contest_id : ℕ) (cache : ContestCache)
    {entry : ScopedContest}
    → IsCoherent store actor cache
    → cached contest_id cache ≡ some entry
    → IsFresh store actor contest_id entry
unfolding cached
cached-IsFresh store actor contest_id [] coherent h = ground arith
cached-IsFresh store actor contest_id ((key, kept) ∷ cache) {entry = entry} coherent h =
    elim (Bool-cases (key == contest_id)) [
      | inl e ↦
          let same : kept ≡ entry = some_injective (rw e at h) in
          let here : key ≡ contest_id = (==_iff key contest_id).0 e in
          rw (sym here) (rw (sym same) coherent.0)
      | inr e ↦ cached-IsFresh store actor contest_id cache coherent.1 (rw e at h)
    ]

load_contest-IsCoherent :
    (store : ContestStore) (actor : Actor) (contest_id : ℕ) (cache : ContestCache)
    {loaded : ScopedContest × ContestCache}
    → IsCoherent store actor cache
    → load_contest store actor contest_id cache ≡ ok loaded
    → IsFresh store actor contest_id loaded.0 × IsCoherent store actor loaded.1
unfolding load_contest
load_contest-IsCoherent store actor contest_id cache {loaded = loaded} coherent h =
    elim (Option-cases (cached contest_id cache)) [
      | inr (entry, found) ↦
          let same : (entry, cache) ≡ loaded = ok_injective (rw (found, load_contest) at h) in
          rw (sym same) (cached-IsFresh store actor contest_id cache coherent found, coherent)
      | inl missing ↦
          let scoped =
            bind_ok (actor_with_contest_roles store actor contest_id) _
              (rw (missing, load_contest) at h) in
          let contest = bind_ok (store.get_contest contest_id) _ scoped.2 in
          let readable = bind_ok (can_read_contest_as store scoped.0 contest.0) _ contest.2 in
          let same = ok_injective readable.2 in
          let fresh : IsFresh store actor contest_id (entry_of contest.0 scoped.0) =
            (contest.1, scoped.1, readable.1) in
          rw (sym same) (fresh, (fresh, coherent))
    ]

visibilities_from-each_visibility :
    (store : ContestStore) (actor : Actor) (cache : ContestCache)
    (subs : List ContestSubmissionVisibility) {listed : List (ℕ × SubmissionResultVisibility)}
    → IsCoherent store actor cache
    → visibilities_from store actor cache subs ≡ ok listed
    → each_visibility store actor subs ≡ ok listed
unfolding visibilities_from each_visibility read_submission_result_visibility
visibilities_from-each_visibility store actor cache [] coherent h = h
visibilities_from-each_visibility store actor cache (sub ∷ subs) coherent h =
    let loaded = bind_ok (load_contest store actor sub.contest_id cache) _ h in
    let rest = bind_ok (visibilities_from store actor loaded.0.1 subs) _ loaded.2 in
    let kept = load_contest-IsCoherent store actor sub.contest_id cache coherent loaded.1 in
    rw kept.0.0 (
      rw kept.0.1 (
        rw kept.0.2 (
          rw (visibilities_from-each_visibility store actor loaded.0.1 subs kept.1 rest.1) rest.2)))

-- The entry of the cache or the one that a read puts there, whichever is used, is what a read returns.
load_contest-found :
    (store : ContestStore) (actor : Actor) (contest_id : ℕ) (cache : ContestCache)
    (contest : ContestRecord) (scoped : Actor)
    → IsCoherent store actor cache
    → IsFresh store actor contest_id (entry_of contest scoped)
    → (kept : ContestCache) × (load_contest store actor contest_id cache
        ≡ ok (entry_of contest scoped, kept))
      × IsCoherent store actor kept
unfolding load_contest
load_contest-found store actor contest_id cache contest scoped coherent fresh =
    elim (Option-cases (cached contest_id cache)) [
      | inr (entry, found) ↦
          let held = cached-IsFresh store actor contest_id cache coherent found in
          let same_contest : entry.contest ≡ contest = ok_injective (sym held.0 ∙ fresh.0) in
          let same_actor : entry.actor ≡ scoped = ok_injective (sym held.1 ∙ fresh.1) in
          (cache, rw (found, load_contest) (rw (← same_contest, ← same_actor) refl), coherent)
      | inl missing ↦ (
        (contest_id, entry_of contest scoped) ∷ cache,
        rw (missing, load_contest) (rw fresh.1 (rw fresh.0 (rw fresh.2 refl))),
        (fresh, coherent),
      )
    ]

each_visibility-visibilities_from :
    (store : ContestStore) (actor : Actor) (cache : ContestCache)
    (subs : List ContestSubmissionVisibility) {listed : List (ℕ × SubmissionResultVisibility)}
    → IsCoherent store actor cache
    → each_visibility store actor subs ≡ ok listed
    → visibilities_from store actor cache subs ≡ ok listed
unfolding visibilities_from each_visibility read_submission_result_visibility
each_visibility-visibilities_from store actor cache [] coherent h = h
each_visibility-visibilities_from store actor cache (sub ∷ subs) coherent h =
    let shown = bind_ok (read_submission_result_visibility store actor sub) _ h in
    let contest = bind_ok (store.get_contest sub.contest_id) _ shown.1 in
    let scoped = bind_ok (actor_with_contest_roles store actor sub.contest_id) _ contest.2 in
    let readable = bind_ok (can_read_contest_as store scoped.0 contest.0) _ scoped.2 in
    let loaded =
      load_contest-found store actor sub.contest_id cache contest.0 scoped.0 coherent
        (contest.1, scoped.1, readable.1) in
    let rest = bind_ok (each_visibility store actor subs) _ shown.2 in
    rw loaded.1 (
      rw (each_visibility-visibilities_from store actor loaded.0 subs loaded.2 rest.1)
        (ap (λ v. ok ((sub.id, v) ∷ rest.0)) (ok_injective readable.2) ∙ rest.2))

-- Reading many results at once, with each contest read once, returns a list of results exactly when
-- reading each submission alone succeeds for all of them with these results, if all reads see the
-- same store and clock. Which error is returned where a read fails is left open.
pub submission_result_visibilities-each_visibility :
    (store : ContestStore) (actor : Actor) (subs : List ContestSubmissionVisibility)
    (listed : List (ℕ × SubmissionResultVisibility))
    → (submission_result_visibilities store actor subs ≡ ok listed)
      ↔ (each_visibility store actor subs ≡ ok listed)
unfolding submission_result_visibilities
submission_result_visibilities-each_visibility store actor subs listed = (
  λ h. visibilities_from-each_visibility store actor [] subs tt h,
  λ h. each_visibility-visibilities_from store actor [] subs tt h,
)
