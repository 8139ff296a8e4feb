-- ===== src/Examples/Judging.antt =====
-- Judging and the worker at concrete inputs: internal/judgecore and internal/submission/worker.go.
use soj.Prelude.{ℕ, ◌+◌, ◌-◌, ◌≡◌, refl, true, none, [], ◌∷◌, ◌↔◌, All, length}
use soj.Prelude.Int.{ℤ, pos}
use soj.AppError.{ok, err, plain}
use soj.Judge.Verdict.{Verdict, is_accepted}
use soj.Judge.Result.{JudgeResult, CaseResult, judged}
use soj.Judge.Events.{normalize_result}
use soj.Judge.Events.Normal.{IsNormalResult, normalize_result-normalize_result}
use soj.Judge.Core
use soj.Judge.Core.{Backend, Profile, Case, Request, RunRequest, RunResult}
use soj.Judge.Core.Cases.{IsAccepted, judge_iff}
use soj.Judge.Core.Workspace.{CountsWorkspaces, judge-opened, run-opened}
use soj.Submission.Status.{Status}
use soj.Submission.Worker.{
  TaskStatus, Subject, Message, Collaborators, process_message, process_messages,
}
use soj.Submission.Worker.Acks.{CountsAcks, settled, process_message-acked, process_messages-acked}

-- A sandbox that echoes its input, counts the workspaces that are not given to its clean-up yet, and
-- always fails to clean up.
abbrev backend : Backend ℕ ℕ
backend = record {
  name = "echo";
  profile = "dev";
  prepare = λ profile source limits s. (ok 1, s + 1);
  compile = λ workspace profile s.
      (ok (record { verdict = Verdict.accepted; output = ""; error_message = "" }), s);
  run = λ workspace profile stdin limits s. (
    ok (record {
      verdict = Verdict.accepted;
      stdout = stdin;
      stderr = "";
      time_ms = pos 1;
      memory_kb = pos 2;
      exit_code = none;
      signal = "";
      error_message = "";
    }),
    s,
  );
  cleanup = λ workspace s. (err (plain "the directory is left"), s - 1);
  check = λ expected actual policy s.
      (ok (record { accepted = true; message = ""; diff_summary = "" }), s);
  now = λ s. (ok 5, s);
}

laws : CountsWorkspaces backend (λ s. s)
laws = record {
  prepare_opens = λ profile source limits s. refl;
  cleanup_takes = λ workspace s. refl;
  compile_keeps = λ workspace profile s. refl;
  run_keeps = λ workspace profile stdin limits s. refl;
  check_keeps = λ expected actual policy s. refl;
  now_keeps = λ s. refl;
}

abbrev profile : Profile
profile = record { slug = "cpp"; version = "17" }

abbrev case : Case
case = record {
  index = pos 0;
  input = "1";
  expected_output = "1";
  time_limit = pos 0;
  memory_kb = pos 0;
  score = pos 10;
}

abbrev request : Request
request = record {
  language = profile;
  source = "main";
  cases = case ∷ case ∷ [];
  timeout = pos 0;
  memory_kb = pos 0;
  output_limit_bytes = pos 0;
  policy = Core.Policy.exact;
}

abbrev run_request : RunRequest
run_request = record {
  language = profile;
  source = "main";
  stdin = "1";
  timeout = pos 0;
  memory_kb = pos 0;
}

abbrev outcome : JudgeResult
outcome = record (judged Verdict.accepted 5) { time_ms = pos 1 }

judge-opened_example : (Core.judge backend request 0).1 ≡ 0
judge-opened_example = judge-opened backend (λ s. s) laws request 0

run-opened_example : (Core.run backend run_request 0).1 ≡ 0
run-opened_example = run-opened backend (λ s. s) laws run_request 0

abbrev case_result : ℤ → CaseResult
case_result index = record {
  index = index;
  group_name = "";
  testcase_key = "";
  verdict = Verdict.accepted;
  score = pos 10;
  time_ms = pos 1;
  memory_kb = pos 2;
  exit_code = none;
  signal = "";
  checker_message = "";
  output_diff_summary = "";
}

abbrev judgement : JudgeResult
judgement = record (judged Verdict.accepted 5) {
  time_ms = pos 1;
  memory_kb = pos 2;
  cases = case_result (pos 1) ∷ case_result (pos 2) ∷ [];
  manifest = record {
    judge_core_version = "soj-judgecore-mvp";
    judge_agent_id = "";
    language_runtime = "cpp@17";
    sandbox_backend = "echo";
    sandbox_profile = "dev";
    testcase_set_hash = "";
    checker_hash = "";
    validator_hash = "";
    trace_id = "";
  };
}

judge_iff_example :
    (is_accepted judgement.verdict ≡ true)
    ↔ ((length judgement.cases ≡ length request.cases) × All IsAccepted judgement.cases)
unfolding Core.judge Core.validate_request Core.with_workspace Core.compile_and Core.judge_compiled
    Core.judge_cases Core.run_case Core.check_case Core.checked_outcome Core.advance
    Core.case_result Core.case_score Core.case_index Core.larger Core.judged_cases Core.result
    Core.runtime_label
judge_iff_example = judge_iff backend request 0 {verdict = judgement} refl

-- A result in the old spelling, with a case in it.
abbrev old_result : JudgeResult
old_result = record (judged Verdict.time_limit_exceeded 5) {
  cases = record (case_result (pos 1)) { verdict = Verdict.memory_limit_exceeded } ∷ [];
}

abbrev new_result : JudgeResult
new_result = record (judged Verdict.time_limit 5) {
  cases = record (case_result (pos 1)) { verdict = Verdict.memory_limit } ∷ [];
}

normalize_result-normalize_result_example :
    IsNormalResult new_result × (normalize_result new_result ≡ ok new_result)
unfolding normalize_result soj.Judge.Events.normalize_cases soj.Judge.Verdict.normalize_verdict
normalize_result-normalize_result_example = normalize_result-normalize_result old_result refl

-- Collaborators whose state is the number of acknowledged messages. The engine fails.
abbrev store : Collaborators ℕ
store = record {
  get_judge_task = λ id s. (
    ok (record {
      id = id;
      subject = Subject.of_submission 3;
      status = TaskStatus.dispatched;
      attempts = pos 1;
    }),
    s,
  );
  get_submission = λ id s. (
    ok (record {
      id = id;
      problem_id = 1;
      language_id = 1;
      testcase_set_id = 1;
      status = Status.queued;
      source_artifact_id = 1;
    }),
    s,
  );
  mark_judge_task_done = λ id s. (ok tt, s);
  mark_judge_task_running = λ id s. (ok tt, s);
  mark_judge_task_dead = λ id e s. (ok tt, s);
  retry_judge_task = λ id t e s. (ok tt, s);
  mark_submission_running = λ id s. (ok tt, s);
  mark_submission_queued = λ id e s. (ok tt, s);
  get_artifact = λ id s. (ok "key", s);
  get_source = λ key s. (ok "main", s);
  get_language = λ id s. (
    ok (record {
      id = id;
      engine_language_id = "cpp";
      default_time_limit = pos 1000;
      enabled = true;
    }),
    s,
  );
  get_problem_for_judge = λ id s. (ok tt, s);
  ready_testcase_set = λ problem set s. (ok [], s);
  judge = λ r s. (err (plain "engine is down"), s);
  complete_submission_with_result = λ id r s. (ok tt, s);
  ack = λ id s. (ok tt, s + 1);
  dead_letter = λ message e s. (ok tt, s);
  now = 0;
  max_attempts = pos 5;
}

ack_laws : CountsAcks store (λ s. s)
ack_laws = record {
  ack_counts = λ id s. refl;
  get_judge_task_keeps = λ id s. refl;
  get_submission_keeps = λ id s. refl;
  mark_judge_task_done_keeps = λ id s. refl;
  mark_judge_task_running_keeps = λ id s. refl;
  mark_judge_task_dead_keeps = λ id e s. refl;
  retry_judge_task_keeps = λ id t e s. refl;
  mark_submission_running_keeps = λ id s. refl;
  mark_submission_queued_keeps = λ id e s. refl;
  get_artifact_keeps = λ id s. refl;
  get_source_keeps = λ key s. refl;
  get_language_keeps = λ id s. refl;
  get_problem_for_judge_keeps = λ id s. refl;
  ready_testcase_set_keeps = λ problem set s. refl;
  judge_keeps = λ r s. refl;
  complete_submission_with_result_keeps = λ id r s. refl;
  dead_letter_keeps = λ message e s. refl;
}

abbrev message : Message
message = record { id = "1-0"; task_id = 8 }

process_message-acked_example :
    (process_message store message 0).1 ≡ 0 + settled (process_message store message 0).0.error
process_message-acked_example = process_message-acked store (λ s. s) ack_laws message 0

process_messages-acked_example :
    (process_messages store 0 (message ∷ message ∷ []) 0).1 + 0
    ≡ 0 + (process_messages store 0 (message ∷ message ∷ []) 0).0.0
process_messages-acked_example =
    process_messages-acked store (λ s. s) ack_laws 0 (message ∷ message ∷ []) 0
