-- ===== src/Judge/Core.antt =====
-- internal/judgecore/core.go: compiling and running a source, and judging it on its cases. The
-- sandbox and the checker are interfaces, so they are parameters: their calls pass a state of theirs
-- along. `cleanupTimeout` bounds the clean-up in time, which the model has not.
pub mod Cases
pub mod Workspace
use Prim.Native.String.{◌++◌ as ◌<>◌}
use soj.Prelude.{
  ℕ, ◌+◌, suc, Bool, true, false, ◌&&◌, ◌||◌, not, Option, none, List, [], ◌∷◌, ◌++◌, String,
  if◌then◌else◌, ◌==◌, str_eq, ltb, length,
}
use soj.Prelude.Int.{ℤ, pos, to_int32, ltb_ℤ, eqb_ℤ}
use soj.AppError.{Result, ok, err, Error, plain}
use soj.AppError.Step.{Step, resume, ◌then_do◌, return}
use soj.Contest.Types.{Time}
use soj.Judge.Verdict.{Verdict, is_accepted}
use soj.Judge.Result.{JudgeResult, CaseResult, Manifest, judged}

-- `language.Profile`, as far as the core reads it; a sandbox reads the rest by the slug.
pub record Profile : Type 0 where
  pub slug : String
  pub version : String

pub record Case : Type 0 where
  pub index : ℤ
  pub input : String
  pub expected_output : String
  pub time_limit : ℤ
  pub memory_kb : ℤ
  pub score : ℤ

pub data Policy : Type 0 where
  unset exact ignore_trailing ignore_all_whitespace : Policy

pub record Request : Type 0 where
  pub language : Profile
  pub source : String
  pub cases : List Case
  pub timeout : ℤ
  pub memory_kb : ℤ
  pub output_limit_bytes : ℤ
  pub policy : Policy

pub record RunRequest : Type 0 where
  pub language : Profile
  pub source : String
  pub stdin : String
  pub timeout : ℤ
  pub memory_kb : ℤ

pub record Limits : Type 0 where
  pub time_limit : ℤ
  pub memory_kb : ℤ
  pub output_limit_bytes : ℤ

pub record CompileResult : Type 0 where
  pub verdict : Verdict
  pub output : String
  pub error_message : String

pub record RunResult : Type 0 where
  pub verdict : Verdict
  pub stdout : String
  pub stderr : String
  pub time_ms : ℤ
  pub memory_kb : ℤ
  pub exit_code : Option ℤ
  pub signal : String
  pub error_message : String

pub record CheckResult : Type 0 where
  pub accepted : Bool
  pub message : String
  pub diff_summary : String

-- `sandbox.Sandbox`, `checker.Checker` and the clock, with workspaces of a type `W`.
pub record Backend (S W : Type 0) : Type 0 where
  pub name : String
  pub profile : String
  pub prepare : Profile → String → Limits → Step S W
  pub compile : W → Profile → Step S CompileResult
  pub run : W → Profile → String → Limits → Step S RunResult
  pub cleanup : W → Step S (Unit {0})
  pub check : String → String → Policy → Step S CheckResult
  pub now : Step S Time

unfoldable pub limits : ℤ → ℤ → ℤ → Limits
limits timeout memory_kb output_limit_bytes = record {
  time_limit = timeout;
  memory_kb = memory_kb;
  output_limit_bytes = output_limit_bytes;
}

-- `time.Second` in nanoseconds is what is left without any limit.
unfoldable pub case_timeout : ℤ → ℤ → ℤ
case_timeout value fallback =
    if ltb_ℤ (pos 0) value
    then value
    else if ltb_ℤ (pos 0) fallback
    then fallback
    else pos 1000000000

unfoldable pub case_memory : ℤ → ℤ → ℤ
case_memory value fallback = if ltb_ℤ (pos 0) value then value else fallback

unfoldable pub case_score : Verdict → ℤ → ℤ
case_score verdict score =
    if not (is_accepted verdict) then pos 0 else if ltb_ℤ (pos 0) score then score else pos 100

-- `Request.Validate`
unfoldable pub validate_request : Request → Result (Unit {0})
validate_request r =
    if str_eq r.language.slug ""
    then err (plain "language is required")
    else if str_eq r.source ""
    then err (plain "source is required")
    else if length r.cases == 0
    then err (plain "cases are required")
    else ok tt

-- `RunRequest.Validate`
unfoldable pub validate_run_request : RunRequest → Result (Unit {0})
validate_run_request r =
    if str_eq r.language.slug ""
    then err (plain "language is required")
    else if str_eq r.source ""
    then err (plain "source is required")
    else ok tt

-- What a case came to: its verdict, and the checker's words on it.
pub record Outcome : Type 0 where
  pub verdict : Verdict
  pub message : String
  pub diff : String

-- What the loop of `Judge` carries.
pub record Progress : Type 0 where
  pub verdict : Verdict
  pub max_time : ℤ
  pub max_memory : ℤ
  pub results : List CaseResult

abbrev pub no_progress : Progress
no_progress = record {
  verdict = Verdict.accepted;
  max_time = pos 0;
  max_memory = pos 0;
  results = [];
}

unfoldable pub larger : ℤ → ℤ → ℤ
larger value most = if ltb_ℤ most value then value else most

unfoldable pub case_index : Case → ℕ → ℤ
case_index item i = if eqb_ℤ item.index (pos 0) then pos (i + 1) else item.index

unfoldable pub case_result : ℤ → Case → RunResult → Outcome → CaseResult
case_result index item run outcome = record {
  index = index;
  group_name = "";
  testcase_key = "";
  verdict = outcome.verdict;
  score = case_score outcome.verdict item.score;
  time_ms = run.time_ms;
  memory_kb = run.memory_kb;
  exit_code = run.exit_code;
  signal = run.signal;
  checker_message = outcome.message;
  output_diff_summary = outcome.diff;
}

-- What the loop of `Judge` does after a case was run and checked.
unfoldable pub advance : Progress → ℤ → Case → RunResult → Outcome → Progress
advance progress index item run outcome = record {
  verdict =
      (if is_accepted progress.verdict && not (is_accepted outcome.verdict)
        then outcome.verdict
        else progress.verdict);
  max_time = larger run.time_ms progress.max_time;
  max_memory = larger run.memory_kb progress.max_memory;
  results = progress.results ++ case_result index item run outcome ∷ [];
}

unfoldable pub checked_outcome : RunResult → CheckResult → Outcome
checked_outcome run checked =
    if not checked.accepted
    then record {
      verdict = Verdict.wrong_answer;
      message = checked.message;
      diff = checked.diff_summary;
    }
    else record { verdict = run.verdict; message = run.error_message; diff = "" }

-- `Profile.RuntimeLabel` of internal/language.
unfoldable pub runtime_label : Profile → String
runtime_label profile =
    if str_eq profile.version "" then profile.slug else (profile.slug <> "@") <> profile.version

module _ {S W : Type 0} (backend : Backend S W) where
  -- An accepted run is compared with the expected output; any other keeps its verdict.
  unfoldable pub check_case : Request → Case → RunResult → Step S Outcome
  check_case request item run =
      if is_accepted run.verdict
      then (backend.check item.expected_output run.stdout request.policy then_do λ checked.
          return (checked_outcome run checked))
      else return (record { verdict = run.verdict; message = run.error_message; diff = "" })

  unfoldable pub run_case : Request → W → Case → Step S RunResult
  run_case request workspace item = backend.run workspace request.language item.input (
      limits (case_timeout item.time_limit request.timeout)
        (case_memory item.memory_kb request.memory_kb) request.output_limit_bytes)

  -- The loop of `Judge` from the case at position `i` on.
  unfoldable pub judge_cases : Request → W → ℕ → Progress → List Case → Step S Progress
  judge_cases request workspace i progress [] = return progress
  judge_cases request workspace i progress (item ∷ items) =
      run_case request workspace item then_do λ run. check_case request item run then_do λ outcome.
      judge_cases request workspace (suc i) (advance progress (case_index item i) item run outcome)
        items

  unfoldable pub result : Profile → JudgeResult → JudgeResult
  result profile r = record r {
    manifest = record r.manifest {
      judge_core_version = "soj-judgecore-mvp";
      language_runtime = runtime_label profile;
      sandbox_backend = backend.name;
      sandbox_profile = backend.profile;
    };
  }

  unfoldable pub compile_failed : Profile → CompileResult → Step S JudgeResult
  compile_failed profile compiled = backend.now then_do λ judged_at. return (
      result profile (record (judged compiled.verdict judged_at) {
        compile_output = compiled.output;
        error_message = compiled.error_message;
      }))

  -- The end of `Judge`.
  unfoldable pub judged_cases : Request → Progress → Step S JudgeResult
  judged_cases request progress = backend.now then_do λ judged_at. return (
      result request.language (record (judged progress.verdict judged_at) {
        time_ms = progress.max_time;
        memory_kb = progress.max_memory;
        cases = progress.results;
      }))

  -- What `Judge` does once its source is compiled.
  unfoldable pub judge_compiled : Request → W → Step S JudgeResult
  judge_compiled request workspace =
      judge_cases request workspace 0 no_progress request.cases then_do judged_cases request

  -- What `Run` does once its source is compiled.
  unfoldable pub run_compiled : RunRequest → W → Step S JudgeResult
  run_compiled request workspace =
      backend.run workspace request.language request.stdin
        (limits request.timeout request.memory_kb (pos 0))
      then_do λ run. backend.now then_do λ judged_at. return (
          result request.language (record (judged run.verdict judged_at) {
            time_ms = run.time_ms;
            memory_kb = run.memory_kb;
            stdout = run.stdout;
            stderr = run.stderr;
            error_message = run.error_message;
          }))

  -- Compile, and go on only with a source that compiles.
  unfoldable pub compile_and : Profile → W → (W → Step S JudgeResult) → Step S JudgeResult
  compile_and profile workspace go_on = backend.compile workspace profile then_do λ compiled.
      if not (is_accepted compiled.verdict)
      then compile_failed profile compiled
      else go_on workspace

  -- `prepareWorkspace` and the deferred `cleanupWorkspace`, which runs whatever the body returns and
  -- drops the error of `Cleanup`.
  unfoldable pub with_workspace :
      Profile → String → Limits → (W → Step S JudgeResult) → Step S JudgeResult
  with_workspace profile source run_limits body =
      backend.prepare profile source run_limits then_do λ workspace s.
      ((body workspace s).0, (backend.cleanup workspace (body workspace s).1).1)

  unfoldable pub judge : Request → Step S JudgeResult
  judge request s = resume (validate_request request) s λ u.
      with_workspace request.language request.source
        (limits request.timeout request.memory_kb request.output_limit_bytes)
        (λ workspace. compile_and request.language workspace (judge_compiled request))

  unfoldable pub run : RunRequest → Step S JudgeResult
  run request s = resume (validate_run_request request) s λ u.
      with_workspace request.language request.source
        (limits request.timeout request.memory_kb (pos 0))
        (λ workspace. compile_and request.language workspace (run_compiled request))
