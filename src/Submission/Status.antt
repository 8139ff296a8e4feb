-- ===== src/Submission/Status.antt =====
-- The statuses of a submission or a run: internal/submission/service.go.
use soj.Prelude.{◌≡◌, Bool, true, false, String, arith}
use soj.Judge.Verdict.{Verdict}

-- A status is a text; one that no constant names is `other`.
pub data Status : Type 0 where
  queued running accepted wrong_answer compile_err runtime_err time_limit memory_limit : Status
  output_limit system_err canceled : Status
  other : String → Status

abbrev pub is_queued : Status → Bool
is_queued Status.queued = true
is_queued _ = false

abbrev pub is_accepted : Status → Bool
is_accepted Status.accepted = true
is_accepted _ = false

-- `terminalStatus`
abbrev pub terminal_status : Status → Bool
terminal_status Status.queued = false
terminal_status Status.running = false
terminal_status (Status.other s) = false
terminal_status _ = true

-- `dbStatus`
unfoldable pub db_status : Verdict → Status
db_status Verdict.accepted = Status.accepted
db_status Verdict.wrong_answer = Status.wrong_answer
db_status Verdict.compile_error = Status.compile_err
db_status Verdict.runtime_error = Status.runtime_err
db_status Verdict.time_limit_exceeded = Status.time_limit
db_status Verdict.time_limit = Status.time_limit
db_status Verdict.memory_limit_exceeded = Status.memory_limit
db_status Verdict.memory_limit = Status.memory_limit
db_status Verdict.output_limit = Status.output_limit
db_status Verdict.system_error = Status.system_err
db_status Verdict.canceled = Status.canceled
db_status (Verdict.other s) = Status.system_err

-- Every verdict is stored as a terminal status.
pub db_status_terminal : (v : Verdict) → terminal_status (db_status v) ≡ true
unfolding db_status
db_status_terminal v = ground arith
