-- ===== src/Judge/Result.antt =====
-- The results of internal/judge/judge.go. Times, sizes and exit codes are `int` values; `Raw` of a
-- manifest is free-form data that no modelled code reads.
use soj.Prelude.{Option, List, [], String}
use soj.Prelude.Int.{ℤ, pos}
use soj.Contest.Types.{Time}
use soj.Judge.Verdict.{Verdict}

pub record Manifest : Type 0 where
  pub judge_core_version : String
  pub judge_agent_id : String
  pub language_runtime : String
  pub sandbox_backend : String
  pub sandbox_profile : String
  pub testcase_set_hash : String
  pub checker_hash : String
  pub validator_hash : String
  pub trace_id : String

pub record CaseResult : Type 0 where
  pub index : ℤ
  pub group_name : String
  pub testcase_key : String
  pub verdict : Verdict
  pub score : ℤ
  pub time_ms : ℤ
  pub memory_kb : ℤ
  pub exit_code : Option ℤ
  pub signal : String
  pub checker_message : String
  pub output_diff_summary : String

pub record JudgeResult : Type 0 where
  pub verdict : Verdict
  pub time_ms : ℤ
  pub memory_kb : ℤ
  pub stdout : String
  pub stderr : String
  pub compile_output : String
  pub error_message : String
  pub cases : List CaseResult
  pub manifest : Manifest
  pub judged_at : Time

abbrev pub empty_manifest : Manifest
empty_manifest = record {
  judge_core_version = "";
  judge_agent_id = "";
  language_runtime = "";
  sandbox_backend = "";
  sandbox_profile = "";
  testcase_set_hash = "";
  checker_hash = "";
  validator_hash = "";
  trace_id = "";
}

-- A result with the zero values that a composite literal leaves out.
abbrev pub judged : Verdict → Time → JudgeResult
judged verdict judged_at = record {
  verdict = verdict;
  time_ms = pos 0;
  memory_kb = pos 0;
  stdout = "";
  stderr = "";
  compile_output = "";
  error_message = "";
  cases = [];
  manifest = empty_manifest;
  judged_at = judged_at;
}
