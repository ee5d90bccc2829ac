-- ===== src/Examples/Diagnoses.antt =====
-- A diagnosis of two runs, one on a GPU of the broker.
use gpu_infra.Prelude.{
  ℕ, ◌-◌, false, ◌≡◌, ◌↔◌, refl, ◌==◌, some, none, [], ◌∷◌, All, Dict, Returns, get, put, mem, any,
  each, if◌then◌else◌, insert_by, sort_by,
}
use gpu_infra.Json.{Json, str, arr, obj}
use gpu_infra.Store.Types.{State, is_terminal}
use gpu_infra.Store.Ops.{stamp, apply_changes, apply_change, first_state}
use gpu_infra.Runner.Manage.{job_of}
use gpu_infra.Diagnostics.Types.{healthy}
use gpu_infra.Diagnostics.Read.{
  Calendar, parse_timestamp, seconds_since, is_truthy, non_negative, number, current_stage,
  job_view, same_ids, is_index,
}
use gpu_infra.Diagnostics.Jobs.{
  classify_job, classify_running, classify_known, locate, execution_of, resources_of, is_execution,
  run_limit, exceeds, is_running,
}
use gpu_infra.Diagnostics.Classify.{
  classify_run, find, find_active, request_or, classify_active, classify_broker, follow_job,
  found_view, classify_no_job,
}
use gpu_infra.Diagnostics.Broker.{
  read_status, objects, object_list, is_object_list, is_gpu_state, is_gpu_id, is_bad_gpu, is_job_id,
  is_bad_job, is_incomplete, has_bad_job, any_ok, freshness_known, effective_error, text_of, by_id,
  jobs_of,
}
use gpu_infra.Diagnostics.Report.{
  Runs, build_diagnosis, time_of, observe, verdict_of, report_of, classify_runs, waits_long, tally,
  counter, copy_fields, diagnosis_text, is_unknown, needs_attention,
}
use gpu_infra.Diagnostics.Verdict.{IsCalm, WaitsShort, build_diagnosis-healthy}
use gpu_infra.Diagnostics.Counts.{Counted, build_diagnosis-count}
use gpu_infra.Examples.Data.{whole_floats, number as whole, array, object}
use gpu_infra.Examples.Stores.{first, busy, request_first}

-- minutes of the day
abbrev calendar : Calendar ℕ ℕ
calendar = record {
  aware = λ s. some (if s == "12:00" then 10 else 40);
  elapsed = λ a b. a - b;
  round3 = λ x. x;
  show = λ v. "text";
}

abbrev gpu : Json ℕ
gpu = obj (object (("state", str "exclusive") ∷ ("gpu_id", whole 0) ∷ []))

abbrev job : Json ℕ
job = obj (
    object (
      ("job_id", str "7")
      ∷ ("run_seconds", whole 30)
      ∷ ("gpu_ids", arr (array (whole 0 ∷ [])))
      ∷ []))

abbrev queued : Json ℕ
queued = obj (object (("job_id", str "8") ∷ ("wait_seconds", whole 5) ∷ []))

abbrev snapshot : Dict (Json ℕ)
snapshot =
    ("broker_version", str "1")
    ∷ ("instance_id", str "broker")
    ∷ ("gpu_observed_at", str "12:30")
    ∷ ("gpu_observation_age_seconds", whole 1)
    ∷ ("gpus", arr (array (gpu ∷ [])))
    ∷ ("running", arr (array (job ∷ [])))
    ∷ ("queue", arr (array (queued ∷ [])))
    ∷ []

abbrev waiting_run : State
waiting_run = record first { run_id = "gemm-2" }

abbrev runs : Runs ℕ
runs = record {
  states = busy ∷ waiting_run ∷ [];
  requests = ("gemm-1", request_first) ∷ ("gemm-2", request_first) ∷ [];
  request_errors = [];
}

reports : Returns (build_diagnosis calendar "12:30" 50 runs (some snapshot) none [])
unfolding build_diagnosis time_of observe verdict_of report_of classify_runs waits_long tally
    counter copy_fields diagnosis_text is_unknown needs_attention read_status objects object_list
    is_object_list is_gpu_state is_gpu_id is_bad_gpu is_job_id is_bad_job is_incomplete has_bad_job
    any_ok freshness_known effective_error text_of by_id jobs_of parse_timestamp seconds_since
    is_truthy non_negative number current_stage job_view same_ids is_index classify_run find
    find_active request_or classify_active classify_broker follow_job found_view classify_job
    classify_running classify_known classify_no_job locate execution_of resources_of is_execution
    run_limit exceeds is_running job_of is_terminal stamp apply_changes apply_change first_state get
    put mem any each insert_by sort_by
reports = (_, refl)

verdict : reports.0.verdict ≡ healthy
unfolding reports
verdict = refl

build_diagnosis-healthy_example : (reports.0.verdict ≡ healthy) ↔ (
    (reports.0.broker.is_unknown ≡ false)
    × All IsCalm reports.0.runs
    × All (WaitsShort 50) (read_status snapshot).queue)
build_diagnosis-healthy_example =
    build_diagnosis-healthy calendar "12:30" 50 runs (some snapshot) none [] reports.0 reports.1

build_diagnosis-count_example : Counted calendar snapshot [] reports.0
build_diagnosis-count_example =
    build_diagnosis-count calendar "12:30" 50 runs (some snapshot) none [] reports.0 reports.1
