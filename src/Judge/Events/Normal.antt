-- ===== src/Judge/Events/Normal.antt =====
-- internal/judge/events/events.go: the verdicts that a normalized result carries.
use soj.Prelude.{◌≡◌, refl, sym, List, [], ◌∷◌, All}
use soj.AppError.{ok}
use soj.AppError.Bind.{bind_ok, ok_injective}
use soj.Judge.Verdict.{
  normalize_verdict, IsNormal, normalize_verdict-IsNormal, normalize_verdict_of_IsNormal,
}
use soj.Judge.Result.{JudgeResult, CaseResult}
use soj.Judge.Events.{normalize_cases, normalize_result}

abbrev IsNormalCase : CaseResult → Type 0
IsNormalCase c = IsNormal c.verdict

-- Every verdict of the result is one of those that are stored.
abbrev pub IsNormalResult : JudgeResult → Type 0
IsNormalResult result = IsNormal result.verdict × All IsNormalCase result.cases

normalize_cases-IsNormal :
    (cases : List CaseResult) {normal : List CaseResult}
    → normalize_cases cases ≡ ok normal
    → All IsNormalCase normal
unfolding normalize_cases
normalize_cases-IsNormal [] h = rw (sym (ok_injective h)) tt
normalize_cases-IsNormal (c ∷ cases) h =
    let verdict = bind_ok (normalize_verdict c.verdict) _ h in
    let rest = bind_ok (normalize_cases cases) _ verdict.2 in
    rw (sym (ok_injective rest.2))
      (normalize_verdict-IsNormal c.verdict verdict.1, normalize_cases-IsNormal cases rest.1)

normalize_cases_of_IsNormal :
    (cases : List CaseResult) → All IsNormalCase cases → normalize_cases cases ≡ ok cases
unfolding normalize_cases
normalize_cases_of_IsNormal [] h = refl
normalize_cases_of_IsNormal (c ∷ cases) h =
    simp (normalize_verdict_of_IsNormal c.verdict h.0, normalize_cases_of_IsNormal cases h.1)

normalize_result-IsNormal :
    (result : JudgeResult) {normal : JudgeResult}
    → normalize_result result ≡ ok normal
    → IsNormalResult normal
unfolding normalize_result
normalize_result-IsNormal result h =
    let verdict = bind_ok (normalize_verdict result.verdict) _ h in
    let cases = bind_ok (normalize_cases result.cases) _ verdict.2 in
    rw (sym (ok_injective cases.2)) (
      normalize_verdict-IsNormal result.verdict verdict.1,
      normalize_cases-IsNormal result.cases cases.1,
    )

normalize_result_of_IsNormal :
    (result : JudgeResult) → IsNormalResult result → normalize_result result ≡ ok result
unfolding normalize_result
normalize_result_of_IsNormal result h =
    simp (
      normalize_verdict_of_IsNormal result.verdict h.0,
      normalize_cases_of_IsNormal result.cases h.1,
    )

-- A normalized result carries only verdicts that are stored, and normalizing it again changes nothing.
pub normalize_result-normalize_result :
    (result : JudgeResult) {normal : JudgeResult}
    → normalize_result result ≡ ok normal
    → IsNormalResult normal × (normalize_result normal ≡ ok normal)
normalize_result-normalize_result result {normal = normal} h =
    let is_normal = normalize_result-IsNormal result h in
    (is_normal, normalize_result_of_IsNormal normal is_normal)
