-- ===== src/Judge/Verdict.antt =====
-- The verdicts of internal/judge/judge.go, and their normal form in internal/judge/events.
use soj.Prelude.{◌≡◌, Bool, true, false, String, arith}
use soj.AppError.{Result, ok, err, plain}

-- A verdict is a text; one that no constant names is `other`.
pub data Verdict : Type 0 where
  accepted wrong_answer time_limit_exceeded memory_limit_exceeded time_limit : Verdict
  memory_limit output_limit runtime_error compile_error system_error canceled : Verdict
  other : String → Verdict

abbrev pub is_accepted : Verdict → Bool
is_accepted Verdict.accepted = true
is_accepted _ = false

-- `NormalizeVerdict`; the message of the error names the verdict, which the model leaves out.
unfoldable pub normalize_verdict : Verdict → Result Verdict
normalize_verdict Verdict.time_limit_exceeded = ok Verdict.time_limit
normalize_verdict Verdict.memory_limit_exceeded = ok Verdict.memory_limit
normalize_verdict (Verdict.other s) = err (plain "unknown verdict")
normalize_verdict v = ok v

-- The verdicts that `NormalizeVerdict` returns as they are.
abbrev pub IsNormal : Verdict → Type 0
IsNormal Verdict.time_limit_exceeded = ⊥
IsNormal Verdict.memory_limit_exceeded = ⊥
IsNormal (Verdict.other s) = ⊥
IsNormal _ = Unit

pub normalize_verdict-IsNormal :
    (v : Verdict) {w : Verdict} → normalize_verdict v ≡ ok w → IsNormal w
unfolding normalize_verdict
normalize_verdict-IsNormal v h = ground arith

pub normalize_verdict_of_IsNormal : (v : Verdict) → IsNormal v → normalize_verdict v ≡ ok v
unfolding normalize_verdict
normalize_verdict_of_IsNormal v h = ground arith
