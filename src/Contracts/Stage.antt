-- ===== src/Contracts/Stage.antt =====
-- `_parse_stage` of src/kernel_infra/contracts.py, cut where its blocks end.
use gpu_infra.Prelude.{
  ℕ, pos, String, not, Option, none, some, List, [], ◌∷◌, Dict, get, ltb, is_some, option_or,
  if◌then◌else◌, mem, is_empty, length, distinct_ℕ, Result, ok, err, ◌>>=◌, ◌>>◌, guard, ◌==◌, each,
}
use gpu_infra.Json.{Json, null, num, str, int, Floats}
use gpu_infra.Fault.{Fault, contract_error}
use gpu_infra.Contracts.Values.{
  expect_object, expect_list, strict_keys, item, text, identifier, positive_number, positive_int,
  optional_timeout,
}
use gpu_infra.Contracts.Spec.{Platform, ResourceSpec, StageSpec}

abbrev pub stage_kinds : List String
stage_kinds = "compile" ∷ "correctness" ∷ "sanitize" ∷ "benchmark" ∷ "profile" ∷ "judge" ∷ []

abbrev pub modes : List String
modes = "shared" ∷ "exclusive" ∷ []

abbrev pub executions : List String
executions = "broker" ∷ "local" ∷ "service" ∷ []

abbrev command_error : Fault
command_error = contract_error "judge.command must be a non-empty string list"

abbrev scope_error : Fault
scope_error = contract_error "allowed_gpu_ids must be a nonempty list of nonnegative integers"

module _ {F : Type 0} where
  -- `isinstance(item, str) and item`
  unfoldable pub command_word : Json F → Result Fault String
  command_word (str s) = if s == "" then err command_error else ok s
  command_word _ = err command_error

  unfoldable pub parse_command : Json F → Result Fault (List String)
  parse_command value = do
    words ← expect_list value "judge.command must be a non-empty string list"
    guard (not (is_empty words)) command_error
    each command_word words

  unfoldable pub gpu_index : Json F → Result Fault ℕ
  gpu_index (num (int (pos n))) = ok n
  gpu_index _ = err scope_error

  unfoldable pub parse_scope : Json F → ℕ → Result Fault (Option (List ℕ))
  parse_scope null gpu_count = ok none
  parse_scope value gpu_count = do
    values ← expect_list value "allowed_gpu_ids must be a nonempty list of nonnegative integers"
    guard (not (is_empty values)) scope_error
    ids ← each gpu_index values
    guard (distinct_ℕ ids) (contract_error "allowed_gpu_ids must contain distinct GPU indices")
    guard (not (ltb (length ids) gpu_count))
        (contract_error "allowed_gpu_ids must have at least gpu_count members")
    ok (some ids)

  -- the value at a key, None where it is missing
  abbrev pub value_or_none : Dict (Json F) → String → Json F
  value_or_none value k = option_or (get value k) null

  -- `resources.get("estimate_s", 600)` and the conditional after it
  abbrev default_estimate : Json F
  default_estimate = num (int (pos 600))

module _ {F : Type 0} ⦃fl : Floats F⦄ where
  -- the `resources` block of a stage of broker execution
  unfoldable pub parse_resources : Json F → Result Fault (ResourceSpec F)
  parse_resources value = do
    resources ← expect_object value
    strict_keys resources ("mode" ∷ "gpu_count" ∷ "run_timeout_s" ∷ [])
        ("estimate_s" ∷ "queue_timeout_s" ∷ "allowed_gpu_ids" ∷ [])
    mode ← text (item resources "mode")
    guard (mem mode modes) (contract_error "resources.mode must be shared or exclusive")
    estimate ← optional_timeout (option_or (get resources "estimate_s") default_estimate)
    gpu_count ← positive_int (item resources "gpu_count")
    allowed ← parse_scope (value_or_none resources "allowed_gpu_ids") gpu_count
    queue_timeout ← optional_timeout (value_or_none resources "queue_timeout_s")
    run_timeout ← positive_number (item resources "run_timeout_s")
    ok (record {
      mode = mode;
      gpu_count = gpu_count;
      estimate_s = estimate;
      queue_timeout_s = queue_timeout;
      run_timeout_s = run_timeout;
      allowed_gpu_ids = allowed;
    })

  -- the `service_deployment` block
  unfoldable pub parse_deployment : Dict (Json F) → String → Result Fault (Option String)
  parse_deployment raw execution = elim (get raw "service_deployment") [
    | none ↦ ok none
    | some value ↦ do
      guard (execution == "service")
          (contract_error "service_deployment is allowed only for service execution")
      deployment ← identifier value
      ok (some deployment)
  ]

  -- `resources` must be absent for local and service execution, and present for broker execution
  unfoldable pub parse_stage_resources :
      Dict (Json F) → String → Result Fault (Option (ResourceSpec F))
  parse_stage_resources raw execution =
      if mem execution ("local" ∷ "service" ∷ [])
      then (do
        guard (not (is_some (get raw "resources"))) (contract_error "resources must be omitted")
        ok none)
      else (do
        guard (is_some (get raw "resources"))
            (contract_error "resources is required for broker execution")
        resources ← parse_resources (item raw "resources")
        ok (some resources))

  unfoldable pub parse_stage : Platform F → String → Json F → Result Fault (StageSpec F)
  parse_stage platform task_dir value = do
    raw ← expect_object value
    strict_keys raw ("id" ∷ "kind" ∷ "judge" ∷ [])
        ("execution" ∷ "resources" ∷ "service_deployment" ∷ [])
    stage_id ← identifier (item raw "id")
    kind ← text (item raw "kind")
    guard (mem kind stage_kinds) (contract_error "kind must be one of the stage kinds")
    execution ← text (option_or (get raw "execution") (str "broker"))
    guard (mem execution executions) (contract_error "execution must be one of the executions")
    judge ← expect_object (item raw "judge")
    strict_keys judge ("identity" ∷ "cwd" ∷ "command" ∷ []) []
    identity ← text (item judge "identity")
    cwd_text ← text (item judge "cwd")
    command ← parse_command (item judge "command")
    deployment ← parse_deployment raw execution
    resources ← parse_stage_resources raw execution
    ok (record {
      id = stage_id;
      kind = kind;
      execution = execution;
      judge_identity = identity;
      cwd = platform.resolve task_dir cwd_text;
      command = command;
      resources = resources;
      service_deployment_id = if execution == "broker" then none else deployment;
    })
