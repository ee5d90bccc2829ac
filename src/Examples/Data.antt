-- ===== src/Examples/Data.antt =====
-- A task as a JSON document, as the program reads it, and what its judges may report.
use Prim.Native.Nat.{◌/◌}
use gpu_infra.Prelude.{
  ℕ, ◌+◌, ◌-◌, ◌*◌, pos, negsuc, String, true, none, some, List, [], ◌∷◌, ltb, leb, Option, ℤ,
}
use gpu_infra.Json.{Json, Items, Fields, num, int, str, arr, obj, nil, cons, end, field, Floats}
use gpu_infra.Contracts.Spec.{Platform, TaskSpec, StageSpec, ComparisonSpec, ResourceSpec}
use gpu_infra.Results.Types.{passed, valid, Row, StageResult, StageEntry}

abbrev whole : ℤ → Option ℕ
whole (pos n) = some n
whole (negsuc n) = none

instance abbrev pub whole_floats : Floats ℕ
whole_floats = record {
  of_int = whole;
  is_finite = λ x. true;
  lit = λ n. n;
  lt = ltb;
  le = leb;
  add = λ a b. a + b;
  sub = λ a b. a - b;
  mul = λ a b. a * b;
  div = λ a b. a / b;
}

abbrev pub platform : Platform ℕ
platform = record {
  digest = λ v. "digest";
  resolve = λ directory path. path;
  parent = λ path. "/";
  show = λ v. "text";
}

abbrev pub array : List (Json ℕ) → Items ℕ
array [] = nil
array (v ∷ vs) = cons v (array vs)

abbrev pub object : List (String × Json ℕ) → Fields ℕ
object [] = end
object ((k, v) ∷ fs) = field k v (object fs)

abbrev pub number : ℕ → Json ℕ
number n = num (int (pos n))

abbrev judge_json : Json ℕ
judge_json = obj (
    object (
      ("identity", str "judge")
      ∷ ("cwd", str "/judge")
      ∷ ("command", arr (array (str "run" ∷ [])))
      ∷ []))

abbrev check_json : Json ℕ
check_json = obj (
    object (
      ("id", str "check")
      ∷ ("kind", str "correctness")
      ∷ ("execution", str "local")
      ∷ ("judge", judge_json)
      ∷ []))

abbrev resources_json : Json ℕ
resources_json = obj (
    object
      (("mode", str "exclusive") ∷ ("gpu_count", number 1) ∷ ("run_timeout_s", number 60) ∷ []))

abbrev bench_json : Json ℕ
bench_json = obj (
    object (
      ("id", str "bench")
      ∷ ("kind", str "benchmark")
      ∷ ("judge", judge_json)
      ∷ ("resources", resources_json)
      ∷ []))

abbrev comparison_json : Json ℕ
comparison_json = obj (
    object (
      ("primary_workloads", arr (array (str "small" ∷ [])))
      ∷ ("relative_noise_floor", number 0)
      ∷ ("guardrails", obj (object (("small", number 1) ∷ [])))
      ∷ []))

abbrev pub task_json : Json ℕ
task_json = obj (
    object (
      ("schema", str "kernelinfra.task.v1")
      ∷ ("task_id", str "gemm")
      ∷ ("workloads", arr (array (str "small" ∷ [])))
      ∷ ("comparison", comparison_json)
      ∷ ("stages", arr (array (check_json ∷ bench_json ∷ [])))
      ∷ []))

abbrev check_stage : StageSpec ℕ
check_stage = record {
  id = "check";
  kind = "correctness";
  execution = "local";
  judge_identity = "judge";
  cwd = "/judge";
  command = "run" ∷ [];
  resources = none;
  service_deployment_id = none;
}

abbrev pub exclusive_gpu : ResourceSpec ℕ
exclusive_gpu = record {
  mode = "exclusive";
  gpu_count = 1;
  estimate_s = some 600;
  queue_timeout_s = none;
  run_timeout_s = 60;
  allowed_gpu_ids = none;
}

abbrev pub bench_stage : StageSpec ℕ
bench_stage = record {
  id = "bench";
  kind = "benchmark";
  execution = "broker";
  judge_identity = "judge";
  cwd = "/judge";
  command = "run" ∷ [];
  resources = some exclusive_gpu;
  service_deployment_id = none;
}

abbrev gemm_comparison : ComparisonSpec ℕ
gemm_comparison = record {
  primary_workloads = "small" ∷ [];
  guardrails = ("small", 1) ∷ [];
  relative_noise_floor = 0;
}

abbrev pub gemm : TaskSpec ℕ
gemm = record {
  task_id = "gemm";
  description = "text";
  workloads = "small" ∷ [];
  comparison = gemm_comparison;
  stages = check_stage ∷ bench_stage ∷ [];
  raw = task_json;
  digest = "digest";
  source_path = "/task.json";
}

-- What the judge of each stage wrote, and what the validation makes of it.
abbrev pub check_report : Json ℕ
check_report = obj (
    object (
      ("schema", str "kernelinfra.stage-result.v1")
      ∷ ("status", str "passed")
      ∷ ("validity", str "valid")
      ∷ []))

abbrev pub bench_report : Json ℕ
bench_report = obj (
    object (
      ("schema", str "kernelinfra.stage-result.v1")
      ∷ ("status", str "passed")
      ∷ ("validity", str "valid")
      ∷ (
        "workloads",
        arr (
            array (
              obj (
                object (
                  ("id", str "small")
                  ∷ ("candidate_ms", number 2)
                  ∷ ("baseline_ms", number 6)
                  ∷ []))
              ∷ [])),
      )
      ∷ []))

abbrev pub check_result : StageResult ℕ
check_result = record {
  status = passed;
  validity = valid;
  summary = none;
  workloads = [];
  artifacts = none;
  fingerprints = none;
  metrics = none;
}

abbrev pub small_row : Row ℕ
small_row = record {
  id = "small";
  correct = none;
  candidate_ms = some (int (pos 2));
  baseline_ms = some (int (pos 6));
  candidate_samples_ms = none;
  baseline_samples_ms = none;
  stable = none;
  speedup = none;
  notes = none;
}

abbrev pub bench_result : StageResult ℕ
bench_result = record {
  status = passed;
  validity = valid;
  summary = none;
  workloads = small_row ∷ [];
  artifacts = none;
  fingerprints = none;
  metrics = none;
}

abbrev pub entries : List (StageEntry ℕ)
entries =
    (record { stage_id = "check"; stage_kind = "correctness"; result = check_result })
    ∷ (record { stage_id = "bench"; stage_kind = "benchmark"; result = bench_result })
    ∷ []
