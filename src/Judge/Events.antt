-- ===== src/Judge/Events.antt =====
-- internal/judge/events/events.go: the events of the judge queue, what makes each valid, and the
-- normal form of results. An error is its text.
pub mod Normal
use soj.Prelude.{
  ℕ, Bool, true, false, ◌&&◌, ◌||◌, not, List, [], ◌∷◌, String, if◌then◌else◌, ◌==◌, str_eq,
}
use soj.Prelude.Int.{ℤ, pos, leb_ℤ}
use soj.AppError.{Result, ok, err, Error, plain, ◌>>=◌, ◌>>◌}
use soj.Contest.Types.{Time}
use soj.Judge.Verdict.{Verdict, normalize_verdict}
use soj.Judge.Result.{JudgeResult, CaseResult}

pub record ArtifactRef : Type 0 where
  pub id : ℕ
  pub storage_key : String
  pub content_hash : String

pub record TestcaseSetRef : Type 0 where
  pub id : ℕ
  pub checksum_sha256 : String
  pub storage_key : String
  pub case_count : ℤ
  pub time_limit_ms : ℤ
  pub memory_kb : ℤ

pub record TraceContext : Type 0 where
  pub traceparent : String
  pub tracestate : String

unfoldable pub empty : TraceContext → Bool
empty c = str_eq c.traceparent "" && str_eq c.tracestate ""

pub record RequestEvent : Type 0 where
  pub protocol_version : String
  pub event_id : String
  pub attempt_id : String
  pub trace_id : String
  pub trace_context : TraceContext
  pub submission_id : ℕ
  pub run_id : ℕ
  pub language_slug : String
  pub source_artifact : ArtifactRef
  pub testcase_set : TestcaseSetRef
  pub stdin : String
  pub timeout_ms : ℤ
  pub memory_kb : ℤ
  pub priority : String
  pub created_at : Time

-- Fail with a text if the test holds: `if t { return fmt.Errorf(...) }`.
abbrev pub reject : Bool → String → Result (Unit {0})
reject true message = err (plain message)
reject false message = ok tt

abbrev pub is_foreign : String → String → Bool
is_foreign version event_type = not (str_eq version "") && not (str_eq version event_type)

-- The part of `RequestEvent.Validate` on a submission's testcase set.
unfoldable pub validate_testcase_set : TestcaseSetRef → Result (Unit {0})
validate_testcase_set set = do
  reject (set.id == 0) "testcase_set.id is required"
  reject (str_eq set.checksum_sha256 "") "testcase_set.checksum_sha256 is required"
  reject (str_eq set.storage_key "") "testcase_set.storage_key is required"
  reject (leb_ℤ set.case_count (pos 0)) "testcase_set.case_count must be positive"

unfoldable pub validate_source_artifact : ArtifactRef → Result (Unit {0})
validate_source_artifact artifact = do
  reject (artifact.id == 0) "source_artifact.id is required"
  reject (str_eq artifact.storage_key "") "source_artifact.storage_key is required"
  reject (str_eq artifact.content_hash "") "source_artifact.content_hash is required"

unfoldable pub validate_request_event : RequestEvent → Result (Unit {0})
validate_request_event e = do
  reject (is_foreign e.protocol_version "judge.request.v2")
      "protocol_version must be judge.request.v2"
  reject (str_eq e.event_id "") "event_id is required"
  reject (str_eq e.attempt_id "") "attempt_id is required"
  reject (str_eq e.trace_id "") "trace_id is required"
  reject ((e.submission_id == 0) && (e.run_id == 0)) "submission_id or run_id is required"
  reject (str_eq e.language_slug "") "language_slug is required"
  validate_source_artifact e.source_artifact
  if not (e.submission_id == 0) then validate_testcase_set e.testcase_set else ok tt

unfoldable pub validate_response_identity : String → String → String → String → Result (Unit {0})
validate_response_identity event_id request_event_id attempt_id trace_id = do
  reject (str_eq event_id "") "event_id is required"
  reject (str_eq request_event_id "") "request_event_id is required"
  reject (str_eq attempt_id "") "attempt_id is required"
  reject (str_eq trace_id "") "trace_id is required"

pub record ProgressEvent : Type 0 where
  pub protocol_version : String
  pub event_id : String
  pub request_event_id : String
  pub attempt_id : String
  pub trace_id : String
  pub trace_context : TraceContext
  pub phase : String
  pub created_at : Time

unfoldable pub validate_progress_event : ProgressEvent → Result (Unit {0})
validate_progress_event e = do
  reject (is_foreign e.protocol_version "judge.progress.v1")
      "protocol_version must be judge.progress.v1"
  validate_response_identity e.event_id e.request_event_id e.attempt_id e.trace_id

pub record ResultEvent : Type 0 where
  pub protocol_version : String
  pub event_id : String
  pub request_event_id : String
  pub attempt_id : String
  pub trace_id : String
  pub trace_context : TraceContext
  pub status : Verdict
  pub result : JudgeResult
  pub error_class : String
  pub retryable : Bool
  pub safe_message : String
  pub internal_message : String
  pub judged_at : Time

unfoldable pub validate_result_event : ResultEvent → Result (Unit {0})
validate_result_event e = do
  reject (is_foreign e.protocol_version "judge.result.v1")
      "protocol_version must be judge.result.v1"
  validate_response_identity e.event_id e.request_event_id e.attempt_id e.trace_id
  status ← normalize_verdict e.status
  ok tt

pub record DeadLetterEvent : Type 0 where
  pub protocol_version : String
  pub event_id : String
  pub request_event_id : String
  pub attempt_id : String
  pub trace_id : String
  pub trace_context : TraceContext
  pub error_class : String
  pub safe_message : String
  pub internal_message : String
  pub created_at : Time

unfoldable pub validate_dead_letter_event : DeadLetterEvent → Result (Unit {0})
validate_dead_letter_event e = do
  reject (is_foreign e.protocol_version "judge.dead_letter.v1")
      "protocol_version must be judge.dead_letter.v1"
  validate_response_identity e.event_id e.request_event_id e.attempt_id e.trace_id
  reject (str_eq e.error_class "") "error_class is required"
  reject (str_eq e.safe_message "") "safe_message is required"

-- The loop of `NormalizeResult` over the cases.
unfoldable pub normalize_cases : List CaseResult → Result (List CaseResult)
normalize_cases [] = ok []
normalize_cases (c ∷ cases) = do
  verdict ← normalize_verdict c.verdict
  rest ← normalize_cases cases
  ok (record c { verdict = verdict } ∷ rest)

unfoldable pub normalize_result : JudgeResult → Result JudgeResult
normalize_result result = do
  verdict ← normalize_verdict result.verdict
  cases ← normalize_cases result.cases
  ok (record result { verdict = verdict; cases = cases })
