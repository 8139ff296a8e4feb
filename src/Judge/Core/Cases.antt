-- ===== src/Judge/Core/Cases.antt =====
-- internal/judgecore/core.go: what the cases of a judged source have to do with its verdict.
use soj.Prelude.{
  ℕ, suc, ◌+◌, ◌≡◌, refl, sym, ap, Bool, true, false, ◌&&◌, not, List, [], ◌∷◌, ◌++◌, if◌then◌else◌,
  length, All, arith, Bool-cases, inl, inr, ◌↔◌,
}
use soj.Prelude.Int.{ℤ, pos, ltb_ℤ}
use soj.Prelude.{◌==◌}
use soj.AppError.{Error, Result, ok, err}
use soj.Judge.Verdict.{Verdict, is_accepted}
use soj.Judge.Result.{JudgeResult, CaseResult}
use soj.AppError.Step.{Step, resume, ◌then_do◌}
use soj.Judge.Core.{
  Backend, Request, Case, Progress, no_progress, judged_cases, compile_failed, compile_and,
  with_workspace, CompileResult, result, limits, validate_request, judge_cases, judge_compiled,
  run_case, check_case, advance, case_index, judge, case_result, case_score, Outcome, RunResult,
}

-- The verdict of a list of cases: that of the first one that is not accepted.
abbrev pub overall : List CaseResult → Verdict
overall [] = Verdict.accepted
overall (c ∷ cases) = if is_accepted c.verdict then overall cases else c.verdict

-- A case scores something exactly when it is accepted.
abbrev pub IsScored : CaseResult → Type 0
IsScored c = ltb_ℤ (pos 0) c.score ≡ is_accepted c.verdict

-- What holds of every error and of whatever the rest may return, holds of the two in sequence.
resume-from :
    {S A B : Type 0} (Q : Result A → Type 0) (P : Result B → Type 0) (r : Result A)
    (f : A → Step S B) (s : S)
    → Q r
    → ((e : Error) → P (err e))
    → ((a : A) → Q (ok a) → P (f a s).0)
    → P (resume r s f).0
resume-from Q P (ok a) f s h failed returned = returned a h
resume-from Q P (err e) f s h failed returned = failed e

resume-All :
    {S A B : Type 0} (P : Result B → Type 0) (r : Result A) (f : A → Step S B) (s : S)
    → ((e : Error) → P (err e))
    → ((a : A) → P (f a s).0)
    → P (resume r s f).0
resume-All P (ok a) f s failed returned = returned a
resume-All P (err e) f s failed returned = failed e

overall-snoc :
    (cases : List CaseResult) (c : CaseResult)
    → overall (cases ++ c ∷ []) ≡ (
        if is_accepted (overall cases) && not (is_accepted c.verdict)
        then c.verdict
        else overall cases)
overall-snoc [] c = elim (Bool-cases (is_accepted c.verdict)) [
  | inl e ↦ rw e refl
  | inr e ↦ rw e refl
]
overall-snoc (d ∷ cases) c = elim (Bool-cases (is_accepted d.verdict)) [
  | inl e ↦ rw e (overall-snoc cases c)
  | inr e ↦ rw e (rw e refl)
]

All-snoc :
    (cases : List CaseResult) (c : CaseResult)
    → All IsScored cases
    → IsScored c
    → All IsScored (cases ++ c ∷ [])
All-snoc [] c h scored = (scored, tt)
All-snoc (d ∷ cases) c h scored = (h.0, All-snoc cases c h.1 scored)

length-snoc :
    (cases : List CaseResult) (c : CaseResult) → length (cases ++ c ∷ []) ≡ suc (length cases)
length-snoc [] c = refl
length-snoc (d ∷ cases) c = ap suc (length-snoc cases c)

case_score-IsScored :
    (verdict : Verdict) (score : ℤ) → ltb_ℤ (pos 0) (case_score verdict score) ≡ is_accepted verdict
unfolding case_score
case_score-IsScored verdict score = elim (Bool-cases (is_accepted verdict)) [
  | inr e ↦ rw e refl
  | inl e ↦ elim (Bool-cases (ltb_ℤ (pos 0) score)) [
    | inl p ↦ rw e (rw p p)
    | inr p ↦ rw e (rw p refl)
  ]
]

-- What the loop keeps: the verdict so far is that of the first failed case, and scores are right.
abbrev IsConsistent : Progress → Type 0
IsConsistent progress =
    (progress.verdict ≡ overall progress.results) × All IsScored progress.results

advance-IsConsistent :
    (progress : Progress) (index : ℤ) (item : Case) (run : RunResult) (outcome : Outcome)
    → IsConsistent progress
    → IsConsistent (advance progress index item run outcome)
unfolding advance case_result
advance-IsConsistent progress index item run outcome h =
    let added = case_result index item run outcome in
    (
      rw h.0 (sym (overall-snoc progress.results added)),
      All-snoc progress.results added h.1 (case_score-IsScored outcome.verdict item.score),
    )

counted_on :
    (progress : Progress) (index : ℤ) (item : Case) (run : RunResult) (outcome : Outcome)
    (items : List Case) {count : ℕ}
    → length progress.results + length (item ∷ items) ≡ count
    → length (advance progress index item run outcome).results + length items ≡ count
unfolding advance
counted_on progress index item run outcome items counted =
    omega (arith, counted, length-snoc progress.results (case_result index item run outcome))

-- A finished loop.
abbrev Ends : ℕ → Result Progress → Type 0
Ends count (err e) = Unit
Ends count (ok final) = IsConsistent final × (length final.results ≡ count)

abbrev pub IsAccepted : CaseResult → Type 0
IsAccepted c = is_accepted c.verdict ≡ true

-- What a run of the cases of a request returns.
abbrev Agrees : Request → Result JudgeResult → Type 0
Agrees request (err e) = Unit
Agrees request (ok r) =
    (r.verdict ≡ overall r.cases) × All IsScored r.cases × (length r.cases ≡ length request.cases)

-- A result that is accepted exactly when each case of the request is there and accepted.
abbrev Judged : Request → Result JudgeResult → Type 0
Judged request (err e) = Unit
Judged request (ok r) =
    (is_accepted r.verdict ≡ true)
    ↔ ((length r.cases ≡ length request.cases) × All IsAccepted r.cases)

mixed {ℓ} : {A : Type ℓ} {b : Bool} → b ≡ true → b ≡ false → A
mixed h k = ground arith

none_left :
    (cases : List Case) → length {A = CaseResult} [] ≡ length cases → (length cases == 0) ≡ true
none_left cases h = ground arith

overall_iff :
    (cases : List CaseResult) → (is_accepted (overall cases) ≡ true) ↔ All IsAccepted cases
overall_iff [] = ((λ h. tt), λ h. refl)
overall_iff (c ∷ cases) = elim (Bool-cases (is_accepted c.verdict)) [
  | inl e ↦ rw e ((λ h. (refl, (overall_iff cases).0 h)), λ h. (overall_iff cases).1 h.1)
  | inr e ↦ ((λ h. mixed (rw e at h) e), λ h. mixed h.0 e)
]

Agrees-Judged : (request : Request) (r : Result JudgeResult) → Agrees request r → Judged request r
Agrees-Judged request (err e) h = tt
Agrees-Judged request (ok r) h =
    rw h.0
      ((λ accepted. (h.2, (overall_iff r.cases).0 accepted)), λ all. (overall_iff r.cases).1 all.1)

abbrev IsNonemptyIfOk : Request → Result (Unit {0}) → Type 0
IsNonemptyIfOk request (err e) = Unit
IsNonemptyIfOk request (ok u) = (length request.cases == 0) ≡ false

validate_request-nonempty : (request : Request) → IsNonemptyIfOk request (validate_request request)
unfolding validate_request
validate_request-nonempty request = ground arith

module _ {S W : Type 0} (backend : Backend S W) where
  judge_cases-Ends :
      (request : Request) (workspace : W) (i : ℕ) (progress : Progress) (items : List Case) (s : S)
      (count : ℕ)
      → IsConsistent progress
      → length progress.results + length items ≡ count
      → Ends count (judge_cases backend request workspace i progress items s).0
  unfolding judge_cases
  judge_cases-Ends request workspace i progress [] s count consistent counted =
      (consistent, omega (arith, counted))
  judge_cases-Ends request workspace i progress (item ∷ items) s count consistent counted =
      let next : RunResult → Outcome → Progress =
        λ run outcome. advance progress (case_index item i) item run outcome in
      let judge_rest : RunResult → Outcome → Step S Progress =
        λ run outcome. judge_cases backend request workspace (suc i) (next run outcome) items in
      let check_rest : RunResult → Step S Progress =
        λ run. check_case backend request item run then_do judge_rest run in
      let s1 = (run_case backend request workspace item s).1 in
      resume-All (Ends count) (run_case backend request workspace item s).0 check_rest s1 (λ e. tt)
        (λ run.
          let checked = check_case backend request item run s1 in
          resume-All (Ends count) checked.0 (judge_rest run) checked.1 (λ e. tt)
            (λ outcome.
              judge_cases-Ends request workspace (suc i) (next run outcome) items checked.1 count
                (advance-IsConsistent progress (case_index item i) item run outcome consistent)
                (counted_on progress (case_index item i) item run outcome items counted)))

  judged_cases-Agrees :
      (request : Request) (progress : Progress) (s : S)
      → IsConsistent progress
      → length progress.results ≡ length request.cases
      → Agrees request (judged_cases backend request progress s).0
  unfolding judged_cases result
  judged_cases-Agrees request progress s consistent counted =
      resume-All (Agrees request) (backend.now s).0 _ _ (λ e. tt)
        (λ judged_at. (consistent.0, consistent.1, counted))

  judge_compiled-Agrees :
      (request : Request) (workspace : W) (s : S)
      → Agrees request (judge_compiled backend request workspace s).0
  unfolding judge_compiled
  judge_compiled-Agrees request workspace s =
      let looped = judge_cases backend request workspace 0 no_progress request.cases s in
      let ended : Ends (length request.cases) looped.0 =
        judge_cases-Ends request workspace 0 no_progress request.cases s (length request.cases)
          (refl, tt) (omega arith) in
      resume-from (Ends (length request.cases)) (Agrees request) looped.0
        (judged_cases backend request) looped.1 ended (λ e. tt)
        (λ progress end. judged_cases-Agrees request progress looped.1 end.0 end.1)

  compile_failed-Judged :
      (request : Request) (compiled : CompileResult) (s : S)
      → is_accepted compiled.verdict ≡ false
      → (length request.cases == 0) ≡ false
      → Judged request (compile_failed backend request.language compiled s).0
  unfolding compile_failed result
  compile_failed-Judged request compiled s rejected nonempty =
      resume-All (Judged request) (backend.now s).0 _ _ (λ e. tt)
        (λ judged_at. (
          (λ accepted. mixed accepted rejected),
          λ all. mixed (none_left request.cases all.0) nonempty,
        ))

  compile_and-Judged :
      (request : Request) (workspace : W) (s : S)
      → (length request.cases == 0) ≡ false
      → Judged request
          (compile_and backend request.language workspace (judge_compiled backend request) s).0
  unfolding compile_and
  compile_and-Judged request workspace s nonempty =
      let compiled = backend.compile workspace request.language s in
      resume-All (Judged request) compiled.0 _ compiled.1 (λ e. tt)
        (λ c. elim (Bool-cases (is_accepted c.verdict)) [
          | inl e ↦
              rw e (Agrees-Judged request _ (judge_compiled-Agrees request workspace compiled.1))
          | inr e ↦ rw e (compile_failed-Judged request c compiled.1 e nonempty)
        ])

  judge-All :
      (P : Result JudgeResult → Type 0) (request : Request) (s : S)
      → ((e : Error) → P (err e))
      → ((length request.cases == 0) ≡ false
          → (workspace : W) (t : S)
          → P (compile_and backend request.language workspace (judge_compiled backend request) t).0)
      → P (judge backend request s).0
  unfolding judge with_workspace
  judge-All P request s failed returned =
      let run_limits = limits request.timeout request.memory_kb request.output_limit_bytes in
      let prepared = backend.prepare request.language request.source run_limits s in
      resume-from (IsNonemptyIfOk request) P (validate_request request) _ s
        (validate_request-nonempty request) failed
        (λ u nonempty.
          resume-All P prepared.0 _ prepared.1 failed
            (λ workspace. returned nonempty workspace prepared.1))

  -- A source is judged accepted exactly when the result holds one accepted case for each case of the
  -- request: a source that does not compile, or a request without cases, is never accepted.
  pub judge_iff :
      (request : Request) (s : S) {verdict : JudgeResult}
      → (judge backend request s).0 ≡ ok verdict
      → (is_accepted verdict.verdict ≡ true)
        ↔ ((length verdict.cases ≡ length request.cases) × All IsAccepted verdict.cases)
  judge_iff request s h = rw h at (
      judge-All (Judged request) request s (λ e. tt)
        (λ nonempty workspace t. compile_and-Judged request workspace t nonempty))
