-- ===== src/Judge/Core/Workspace.antt =====
-- internal/judgecore/core.go: the workspaces that judging and running take and give to `Cleanup`.
use soj.Prelude.{
  ℕ, suc, ◌+◌, ◌-◌, ◌≡◌, refl, ◌∙◌, List, [], ◌∷◌, String, arith, Bool-cases, inl, inr,
}
use soj.AppError.{Result, ok, err}
use soj.Judge.Verdict.{is_accepted}
use soj.Judge.Result.{JudgeResult}
use soj.AppError.Step.{Step, resume, ◌then_do◌}
use soj.Judge.Core.{
  Backend, Profile, Limits, Policy, Request, RunRequest, RunResult, Case, Progress,
  validate_request, validate_run_request, check_case, run_case, judge_cases, judged_cases,
  judge_compiled, run_compiled, compile_failed, compile_and, with_workspace, judge, run,
}

-- A step that leaves the count `opened` as it is.
abbrev pub Keeps : {S A : Type 0} → (S → ℕ) → Step S A → Type 0
Keeps {S = S} opened m = (s : S) → opened (m s).1 ≡ opened s

-- How many workspaces a preparation that returned `r` has added.
abbrev pub added {ℓ} : {A : Type ℓ} → Result A → ℕ
added (ok a) = 1
added (err e) = 0

-- `opened` counts the workspaces that `Prepare` has returned and that were not given to `Cleanup`
-- since: a call of `Cleanup` takes one, whether it succeeds or fails, and no other call changes the
-- count.
pub record CountsWorkspaces {S W : Type 0} (backend : Backend S W) (opened : S → ℕ) : Type 0 where
  pub prepare_opens :
      (profile : Profile) (source : String) (run_limits : Limits) (s : S)
      → opened (backend.prepare profile source run_limits s).1
        ≡ opened s + added (backend.prepare profile source run_limits s).0
  pub cleanup_takes :
      (workspace : W) (s : S) → opened (backend.cleanup workspace s).1 ≡ opened s - 1
  pub compile_keeps :
      (workspace : W) (profile : Profile) → Keeps opened (backend.compile workspace profile)
  pub run_keeps :
      (workspace : W) (profile : Profile) (stdin : String) (run_limits : Limits)
      → Keeps opened (backend.run workspace profile stdin run_limits)
  pub check_keeps :
      (expected actual : String) (policy : Policy)
      → Keeps opened (backend.check expected actual policy)
  pub now_keeps : Keeps opened backend.now

resume-Keeps :
    {S A B : Type 0} (opened : S → ℕ) (r : Result A) (s : S) (f : A → Step S B)
    → ((a : A) → Keeps opened (f a))
    → opened (resume r s f).1 ≡ opened s
resume-Keeps opened (ok a) s f keeps = keeps a s
resume-Keeps opened (err e) s f keeps = refl

then_do-Keeps :
    {S A B : Type 0} (opened : S → ℕ) (m : Step S A) (f : A → Step S B)
    → Keeps opened m
    → ((a : A) → Keeps opened (f a))
    → Keeps opened (m then_do f)
then_do-Keeps opened m f first rest s = resume-Keeps opened (m s).0 (m s).1 f rest ∙ first s

module _ {S W : Type 0} (backend : Backend S W) (opened : S → ℕ)
    (laws : CountsWorkspaces backend opened) where
  check_case-Keeps :
      (request : Request) (item : Case) (r : RunResult)
      → Keeps opened (check_case backend request item r)
  unfolding check_case
  check_case-Keeps request item r s = elim (Bool-cases (is_accepted r.verdict)) [
    | inl e ↦ rw e (
        then_do-Keeps opened (backend.check item.expected_output r.stdout request.policy) _
          (laws.check_keeps item.expected_output r.stdout request.policy) (λ checked t. refl) s)
    | inr e ↦ rw e refl
  ]

  judge_cases-Keeps :
      (request : Request) (workspace : W) (i : ℕ) (progress : Progress) (items : List Case)
      → Keeps opened (judge_cases backend request workspace i progress items)
  unfolding judge_cases run_case
  judge_cases-Keeps request workspace i progress [] s = refl
  judge_cases-Keeps request workspace i progress (item ∷ items) s =
      then_do-Keeps opened (run_case backend request workspace item) _
        (laws.run_keeps workspace request.language item.input _)
        (λ r.
          then_do-Keeps opened (check_case backend request item r) _
            (check_case-Keeps request item r)
            (λ outcome. judge_cases-Keeps request workspace (suc i) _ items))
        s

  judge_compiled-Keeps :
      (request : Request) (workspace : W) → Keeps opened (judge_compiled backend request workspace)
  unfolding judge_compiled judged_cases
  judge_compiled-Keeps request workspace =
      then_do-Keeps opened (judge_cases backend request workspace 0 _ request.cases) _
        (judge_cases-Keeps request workspace 0 _ request.cases)
        (λ progress. then_do-Keeps opened backend.now _ laws.now_keeps (λ judged_at t. refl))

  run_compiled-Keeps :
      (request : RunRequest) (workspace : W) → Keeps opened (run_compiled backend request workspace)
  unfolding run_compiled
  run_compiled-Keeps request workspace =
      then_do-Keeps opened (backend.run workspace request.language request.stdin _) _
        (laws.run_keeps workspace request.language request.stdin _)
        (λ r. then_do-Keeps opened backend.now _ laws.now_keeps (λ judged_at t. refl))

  compile_and-Keeps :
      (profile : Profile) (workspace : W) (go_on : W → Step S JudgeResult)
      → Keeps opened (go_on workspace)
      → Keeps opened (compile_and backend profile workspace go_on)
  unfolding compile_and compile_failed
  compile_and-Keeps profile workspace go_on keeps =
      then_do-Keeps opened (backend.compile workspace profile) _
        (laws.compile_keeps workspace profile)
        (λ compiled t. elim (Bool-cases (is_accepted compiled.verdict)) [
          | inl e ↦ rw e (keeps t)
          | inr e ↦ rw e (then_do-Keeps opened backend.now _ laws.now_keeps (λ judged_at u. refl) t)
        ])

  after_prepare :
      (r : Result W) (s t : S) (body : W → Step S JudgeResult)
      → opened t ≡ opened s + added r
      → ((workspace : W) → Keeps opened (body workspace))
      → opened
          (resume r t (λ workspace u.
            ((body workspace u).0, (backend.cleanup workspace (body workspace u).1).1))).1
        ≡ opened s
  after_prepare (ok workspace) s t body prepared keeps =
      omega (arith, prepared, laws.cleanup_takes workspace (body workspace t).1, keeps workspace t)
  after_prepare (err e) s t body prepared keeps = omega (arith, prepared)

  with_workspace-Keeps :
      (profile : Profile) (source : String) (run_limits : Limits) (body : W → Step S JudgeResult)
      → ((workspace : W) → Keeps opened (body workspace))
      → Keeps opened (with_workspace backend profile source run_limits body)
  unfolding with_workspace
  with_workspace-Keeps profile source run_limits body keeps s =
      after_prepare (backend.prepare profile source run_limits s).0 s _ body
        (laws.prepare_opens profile source run_limits s) keeps

  -- Judging gives every workspace that it prepares to the clean-up, whatever fails on the way; the
  -- clean-up may itself fail.
  pub judge-opened : (request : Request) (s : S) → opened (judge backend request s).1 ≡ opened s
  unfolding judge
  judge-opened request s = resume-Keeps opened (validate_request request) s _ (λ u.
      with_workspace-Keeps request.language request.source _ _ (λ workspace.
        compile_and-Keeps request.language workspace (judge_compiled backend request)
          (judge_compiled-Keeps request workspace)))

  -- Running a source once gives every workspace that it prepares to the clean-up, whatever fails on
  -- the way; the clean-up may itself fail.
  pub run-opened : (request : RunRequest) (s : S) → opened (run backend request s).1 ≡ opened s
  unfolding run
  run-opened request s = resume-Keeps opened (validate_run_request request) s _ (λ u.
      with_workspace-Keeps request.language request.source _ _ (λ workspace.
        compile_and-Keeps request.language workspace (run_compiled backend request)
          (run_compiled-Keeps request workspace)))
