-- ===== src/Results/Validate.antt =====
-- `validate_stage_result`, `_validate_workload` and `_finite_positive` of
-- src/kernel_infra/results.py. `load_stage_result` adds the reading of the file, whose errors are
-- `ContractError`s too.
use gpu_infra.Prelude.{
  String, Bool, true, false, not, Option, none, some, List, [], ◌∷◌, Dict, get, keys, mem, all,
  is_some, is_empty, option_or, Result, ok, err, ◌>>=◌, ◌>>◌, guard, ◌==◌, each, if◌then◌else◌,
}
use gpu_infra.Json.{Json, bool, num, str, arr, obj, Floats, Number, to_float, nil}
use gpu_infra.Fault.{Fault, contract_error, type_error}
use gpu_infra.Contracts.Values.{
  expect_object, expect_list, item, float_or_overflow, positive_finite,
}
use gpu_infra.Contracts.Task.{is_text}
use gpu_infra.Results.Types.{
  Status, passed, failed, Validity, valid, invalid, unknown, Row, StageResult,
}

module _ {F : Type 0} where
  -- `if field in value: check(value[field])`
  unfoldable pub optional :
      {A : Type 0} → Dict (Json F) → String → (Json F → Result Fault A) → Result Fault (Option A)
  optional value field check = elim (get value field) [
    | none ↦ ok none
    | some v ↦ do a ← check v; ok (some a)
  ]

  unfoldable pub expect_bool : Json F → Result Fault Bool
  expect_bool (bool b) = ok b
  expect_bool _ = err (contract_error "must be boolean")

  unfoldable pub expect_text : Json F → Result Fault String
  expect_text (str s) = ok s
  expect_text _ = err (contract_error "must be a string")

  -- `value["status"] not in STATUSES`: a list or an object is not hashable
  unfoldable pub parse_status : Json F → Result Fault Status
  parse_status (str s) =
      if s == "passed"
      then ok passed
      else if s == "failed"
      then ok failed
      else err (contract_error "stage result status must be passed or failed")
  parse_status (arr vs) = err (type_error "unhashable type: 'list'")
  parse_status (obj fs) = err (type_error "unhashable type: 'dict'")
  parse_status _ = err (contract_error "stage result status must be passed or failed")

  unfoldable pub parse_validity : Json F → Result Fault Validity
  parse_validity (str s) =
      if s == "valid"
      then ok valid
      else if s == "invalid"
      then ok invalid
      else if s == "unknown"
      then ok unknown
      else err (contract_error "stage result validity must be valid, invalid, or unknown")
  parse_validity (arr vs) = err (type_error "unhashable type: 'list'")
  parse_validity (obj fs) = err (type_error "unhashable type: 'dict'")
  parse_validity _ = err (contract_error "stage result validity must be valid, invalid, or unknown")

abbrev row_fields : List String
row_fields =
    "id" ∷ "correct" ∷ "candidate_ms" ∷ "baseline_ms" ∷ "candidate_samples_ms"
    ∷ "baseline_samples_ms" ∷ "stable" ∷ "speedup" ∷ "notes" ∷ []

abbrev result_fields : List String
result_fields =
    "schema" ∷ "status" ∷ "validity" ∷ "summary" ∷ "workloads" ∷ "artifacts" ∷ "fingerprints"
    ∷ "metrics" ∷ []

-- the two tests on status and validity together
unfoldable pub consistent : Status → Validity → Bool
consistent passed invalid = false
consistent failed valid = false
consistent _ _ = true

module _ {F : Type 0} ⦃fl : Floats F⦄ where
  -- `_finite_positive`, which leaves the value as it was
  unfoldable pub finite_positive : Json F → Result Fault (Number F)
  finite_positive (num n) = do
    number ← float_or_overflow (to_float n)
    guard (positive_finite number) (contract_error "must be a positive finite number")
    ok n
  finite_positive _ = err (contract_error "must be a positive finite number")

  unfoldable pub parse_samples : Json F → Result Fault (List (Number F))
  parse_samples value = do
    samples ← expect_list value "must be a non-empty list"
    guard (not (is_empty samples)) (contract_error "must be a non-empty list")
    each finite_positive samples

  -- `workload_id not in task.workloads`, which only a text can be in
  unfoldable pub declared_id : List String → Option (Json F) → Result Fault String
  declared_id workloads (some (str s)) =
      if mem s workloads then ok s else err (contract_error "id is not declared by the task")
  declared_id workloads _ = err (contract_error "id is not declared by the task")

  unfoldable pub validate_workload : List String → Json F → Result Fault (Row F)
  validate_workload workloads json = do
    value ← expect_object json
    guard (all (λ k. mem k row_fields) (keys value)) (contract_error "unknown fields")
    workload_id ← declared_id workloads (get value "id")
    correct ← optional value "correct" expect_bool
    candidate_ms ← optional value "candidate_ms" finite_positive
    baseline_ms ← optional value "baseline_ms" finite_positive
    speedup ← optional value "speedup" finite_positive
    candidate_samples_ms ← optional value "candidate_samples_ms" parse_samples
    baseline_samples_ms ← optional value "baseline_samples_ms" parse_samples
    stable ← optional value "stable" expect_bool
    notes ← optional value "notes" expect_text
    ok (record {
      id = workload_id;
      correct = correct;
      candidate_ms = candidate_ms;
      baseline_ms = baseline_ms;
      candidate_samples_ms = candidate_samples_ms;
      baseline_samples_ms = baseline_samples_ms;
      stable = stable;
      speedup = speedup;
      notes = notes;
    })

  -- the loop over `workloads`, with the ids that were seen
  unfoldable pub validate_workloads :
      List String → List String → List (Json F) → Result Fault (List (Row F))
  validate_workloads workloads seen [] = ok []
  validate_workloads workloads seen (v ∷ rest) = do
    row ← validate_workload workloads v
    guard (not (mem row.id seen)) (contract_error "duplicate workload result")
    rows ← validate_workloads workloads (row.id ∷ seen) rest
    ok (row ∷ rows)

  unfoldable pub validate_stage_result : List String → Json F → Result Fault (StageResult F)
  validate_stage_result workloads json = do
    value ← expect_object json
    guard (all (λ k. is_some (get value k)) ("schema" ∷ "status" ∷ "validity" ∷ []))
        (contract_error "stage result missing fields")
    guard (all (λ k. mem k result_fields) (keys value))
        (contract_error "stage result unknown fields")
    guard (is_text (item value "schema") "kernelinfra.stage-result.v1")
        (contract_error "stage result schema must be the stage result schema")
    status ← parse_status (item value "status")
    validity ← parse_validity (item value "validity")
    guard (consistent status validity)
        (contract_error "the status of a stage cannot report this validity")
    summary ← optional value "summary" expect_text
    artifacts ← optional value "artifacts" expect_object
    fingerprints ← optional value "fingerprints" expect_object
    metrics ← optional value "metrics" expect_object
    values ←
        expect_list (option_or (get value "workloads") (arr nil))
          "stage result workloads must be a list"
    rows ← validate_workloads workloads [] values
    ok (record {
      status = status;
      validity = validity;
      summary = summary;
      workloads = rows;
      artifacts = artifacts;
      fingerprints = fingerprints;
      metrics = metrics;
    })
