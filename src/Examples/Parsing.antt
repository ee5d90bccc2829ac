-- ===== src/Examples/Parsing.antt =====
-- The parser and the validation on the task and the reports.
use gpu_infra.Prelude.{
  ◌≡◌, refl, ok, All, any, all, each, subset, mem, distinct, get, put, mem_ℕ, distinct_ℕ,
}
use gpu_infra.Contracts.Values.{
  expect_object, expect_list, strict_keys, item, identifier, positive_number, positive_int,
  optional_timeout, text, strip, is_identifier,
}
use gpu_infra.Contracts.Stage.{
  parse_stage, parse_resources, parse_scope, gpu_index, parse_command, command_word,
  parse_deployment, parse_stage_resources,
}
use gpu_infra.Contracts.Task.{
  parse_task, parse_noise, parse_guardrails, parse_identifiers, parse_comparison, exclusive_enough,
  judges, parse_stages, is_text,
}
use gpu_infra.Contracts.TaskSound.{TaskOk, parse_task-TaskOk}
use gpu_infra.Results.Validate.{
  optional, expect_bool, expect_text, parse_status, parse_validity, consistent, finite_positive,
  parse_samples, declared_id, validate_workload, validate_workloads, validate_stage_result,
}
use gpu_infra.Results.Verdict.{Validated}
use gpu_infra.Examples.Data.{
  whole_floats, platform, task_json, gemm, check_report, bench_report, entries,
}

pub task_parses : parse_task platform task_json "/task.json" ≡ ok gemm
unfolding parse_task parse_noise parse_guardrails parse_identifiers parse_comparison
    exclusive_enough judges parse_stages is_text parse_stage parse_resources parse_scope gpu_index
    parse_command command_word parse_deployment parse_stage_resources expect_object expect_list
    strict_keys item identifier positive_number positive_int optional_timeout text strip
    is_identifier any all each subset mem distinct get mem_ℕ distinct_ℕ put
task_parses = refl

pub reports_validate : All (Validated gemm.workloads) entries
unfolding optional expect_bool expect_text parse_status parse_validity consistent finite_positive
    parse_samples declared_id validate_workload validate_workloads validate_stage_result
    expect_object expect_list item is_text mem all each get
reports_validate = ((check_report, refl), ((bench_report, refl), tt))

parse_task-TaskOk_example : TaskOk gemm
parse_task-TaskOk_example = parse_task-TaskOk platform task_json "/task.json" gemm task_parses
