-- ===== src/Contracts/Task.antt =====
-- `parse_task` and `load_task` of src/kernel_infra/contracts.py, cut where its blocks end.
use gpu_infra.Prelude.{
  String, Bool, true, false, not, ◌&&◌, none, some, List, [], ◌∷◌, map, Dict, get, put, option_or,
  mem, subset, is_empty, any, all, distinct, Result, ok, err, ◌>>=◌, ◌>>◌, guard, ◌==◌, each,
}
use gpu_infra.Json.{Json, num, str, obj, Floats, end, to_float}
use gpu_infra.Fault.{Fault, contract_error}
use gpu_infra.Contracts.Values.{
  expect_object, expect_list, strict_keys, item, identifier, positive_number, float_or_overflow,
  strip,
}
use gpu_infra.Contracts.Spec.{Platform, StageSpec, ComparisonSpec, TaskSpec}
use gpu_infra.Contracts.Stage.{parse_stage}

module _ {F : Type 0} ⦃fl : Floats F⦄ where
  -- `relative_noise_floor`, a finite number in [0, 1)
  unfoldable pub parse_noise : Json F → Result Fault F
  parse_noise (num n) = do
    noise ← float_or_overflow (to_float n)
    guard (fl.is_finite noise && (fl.le (fl.lit 0) noise && fl.lt noise (fl.lit 1)))
        (contract_error "relative_noise_floor must be a number in [0, 1)")
    ok noise
  parse_noise _ = err (contract_error "relative_noise_floor must be a number in [0, 1)")

  -- the loop over `guardrails_raw.items()`
  unfoldable pub parse_guardrails :
      List String → Dict F → List (String × Json F) → Result Fault (Dict F)
  parse_guardrails workloads guardrails [] = ok guardrails
  parse_guardrails workloads guardrails ((workload_id, threshold) ∷ rest) = do
    workload ← identifier {F = F} (str workload_id)
    guard (mem workload workloads) (contract_error "guardrail workload is not declared")
    minimum ← positive_number threshold
    parse_guardrails workloads (put guardrails workload minimum) rest

  -- a non-empty list of identifiers
  unfoldable pub parse_identifiers : Json F → String → Result Fault (List String)
  parse_identifiers value message = do
    values ← expect_list value message
    guard (not (is_empty values)) (contract_error message)
    each identifier values

  unfoldable pub parse_comparison : List String → Json F → Result Fault (ComparisonSpec F)
  parse_comparison workloads value = do
    raw ← expect_object value
    strict_keys raw ("primary_workloads" ∷ "relative_noise_floor" ∷ []) ("guardrails" ∷ [])
    primary ←
        parse_identifiers (item raw "primary_workloads")
          "task.comparison.primary_workloads must be a non-empty list"
    guard (subset primary workloads) (contract_error "primary workloads are not declared by task")
    noise ← parse_noise (item raw "relative_noise_floor")
    guardrails_raw ← expect_object (option_or (get raw "guardrails") (obj end))
    guardrails ← parse_guardrails workloads [] guardrails_raw
    ok (record {
      primary_workloads = primary;
      guardrails = guardrails;
      relative_noise_floor = noise;
    })

  -- a broker stage that sanitizes, benchmarks or profiles runs in exclusive mode
  unfoldable pub exclusive_enough : StageSpec F → Bool
  exclusive_enough stage = elim stage.resources [
    | none ↦ true
    | some resources ↦ not (
        stage.execution == "broker"
        && (mem stage.kind ("sanitize" ∷ "benchmark" ∷ "profile" ∷ [])
            && not (resources.mode == "exclusive")))
  ]

  unfoldable pub judges : StageSpec F → Bool
  judges stage = mem stage.kind ("correctness" ∷ "judge" ∷ [])

  abbrev pub stage_ids : List (StageSpec F) → List String
  stage_ids stages = map (λ (stage : StageSpec F). stage.id) stages

  unfoldable pub parse_stages : Platform F → String → Json F → Result Fault (List (StageSpec F))
  parse_stages platform task_dir value = do
    values ← expect_list value "task.stages must be a non-empty list"
    guard (not (is_empty values)) (contract_error "task.stages must be a non-empty list")
    stages ← each (parse_stage platform task_dir) values
    guard (distinct (stage_ids stages)) (contract_error "task stage ids must be unique")
    guard (any judges stages) (contract_error "task must contain a correctness or judge stage")
    guard (all exclusive_enough stages) (contract_error "stage must use exclusive mode")
    ok stages

  -- `raw["schema"] != ...` is true of anything but that text
  unfoldable pub is_text : Json F → String → Bool
  is_text (str s) t = s == t
  is_text _ t = false

  unfoldable pub parse_task : Platform F → Json F → String → Result Fault (TaskSpec F)
  parse_task platform raw_value source_path = do
    raw ← expect_object raw_value
    strict_keys raw ("schema" ∷ "task_id" ∷ "workloads" ∷ "comparison" ∷ "stages" ∷ [])
        ("description" ∷ [])
    guard (is_text (item raw "schema") "kernelinfra.task.v1")
        (contract_error "task.schema must be the task schema")
    task_id ← identifier (item raw "task_id")
    workloads ←
        parse_identifiers (item raw "workloads") "task.workloads must be a non-empty string list"
    guard (distinct workloads) (contract_error "task.workloads must be unique")
    comparison ← parse_comparison workloads (item raw "comparison")
    stages ← parse_stages platform (platform.parent source_path) (item raw "stages")
    ok (record {
      task_id = task_id;
      description = strip (platform.show (option_or (get raw "description") (str "")));
      workloads = workloads;
      comparison = comparison;
      stages = stages;
      raw = raw_value;
      digest = platform.digest raw_value;
      source_path = source_path;
    })

-- what reading and decoding the file came to
pub data Decoded (F : Type 0) : Type 0 where
  missing invalid_json : Decoded F
  decoded : Json F → Decoded F

module _ {F : Type 0} ⦃fl : Floats F⦄ where
  unfoldable pub load_task : Platform F → Decoded F → String → Result Fault (TaskSpec F)
  load_task platform missing source = err (contract_error "task file not found")
  load_task platform invalid_json source = err (contract_error "invalid task JSON")
  load_task platform (decoded raw) source = parse_task platform raw source
