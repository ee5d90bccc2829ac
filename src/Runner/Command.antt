-- ===== src/Runner/Command.antt =====
-- What a stage is started with, and what the broker's client reports: `_broker_command`,
-- `_stage_environment` and the body of `_pump_broker_stderr`, src/kernel_infra/runner.py.
use Prim.Native.String
use gpu_infra.Prelude.{
  ℕ, ◌+◌, ◌-◌, ◌*◌, String, Option, none, some, List, [], ◌∷◌, ◌++◌, map, Dict, Result, ok, err,
  eqb, each, if◌then◌else◌,
}
use gpu_infra.Fault.{Fault, value_error, runtime_error}
use gpu_infra.Contracts.Values.{codes}
use gpu_infra.Contracts.Spec.{StageSpec, TaskSpec}
use gpu_infra.Runner.Types.{Python}

-- `",".join(texts)`
unfoldable pub join_comma : List String → String
join_comma [] = ""
join_comma (s ∷ []) = s
join_comma (s ∷ t ∷ rest) = String.◌++◌ s (String.◌++◌ "," (join_comma (t ∷ rest)))

-- a flag and its value, where there is one
unfoldable pub flag : String → Option String → List String
flag name none = []
flag name (some value) = name ∷ value ∷ []

unfoldable pub env_flags : Dict String → List String
env_flags [] = []
env_flags ((key, value) ∷ rest) = "--env" ∷ String.◌++◌ key (String.◌++◌ "=" value) ∷ env_flags rest

-- `text.split(",")`, on code points; 44 is the comma
unfoldable pub split_comma : List ℕ → List (List ℕ)
split_comma [] = [] ∷ []
split_comma (c ∷ cs) = if eqb c 44 then [] ∷ split_comma cs else extend c (split_comma cs)
  where
    extend : ℕ → List (List ℕ) → List (List ℕ)
    extend c [] = (c ∷ []) ∷ []
    extend c (w ∷ ws) = (c ∷ w) ∷ ws

-- the value of decimal digits
unfoldable pub digits_value : ℕ → List ℕ → ℕ
digits_value acc [] = acc
digits_value acc (c ∷ cs) = digits_value (acc * 10 + (c - 48)) cs

-- `int(text)` of a text over the digits, which the pattern `[0-9,]+` leaves between its commas
unfoldable pub int_of : List ℕ → Result Fault ℕ
int_of [] = err (value_error "invalid literal for int()")
int_of (c ∷ cs) = ok (digits_value 0 (c ∷ cs))

-- `[int(value) for value in ids.split(",")]`
unfoldable pub parse_gpu_ids : String → Result Fault (List ℕ)
parse_gpu_ids ids = each int_of (split_comma (codes ids))

unfoldable pub text_of : {A : Type 0} → (A → String) → Option A → Option String
text_of show none = none
text_of show (some a) = some (show a)

module _ {F : Type 0} where
  unfoldable pub label_of : Python F → String → String → String → String
  label_of python task_id stage_id label = python.prefix 160 (
      String.◌++◌ "ki:"
        (String.◌++◌ task_id (String.◌++◌ ":" (String.◌++◌ stage_id (String.◌++◌ ":" label)))))

  unfoldable pub estimate_text : Python F → Option F → String
  estimate_text python none = "unknown"
  estimate_text python (some t) = python.show_float t

  -- `assert resources is not None` comes first
  unfoldable pub broker_command :
      Python F
      → String
      → String
      → TaskSpec F
      → StageSpec F
      → String
      → Dict String
      → Result Fault (List String)
  broker_command python gpu_run broker_socket task stage label environment = elim stage.resources [
    | none ↦ err (runtime_error "AssertionError")
    | some resources ↦ ok (
        (gpu_run
          ∷ "--socket"
          ∷ broker_socket
          ∷ "--label"
          ∷ label_of python task.task_id stage.id label
          ∷ "--mode"
          ∷ resources.mode
          ∷ "--gpu-count"
          ∷ python.show_int resources.gpu_count
          ∷ "--estimate"
          ∷ estimate_text python resources.estimate_s
          ∷ "--run-timeout"
          ∷ python.show_float resources.run_timeout_s
          ∷ [])
        ++ (flag "--queue-timeout" (text_of python.show_float resources.queue_timeout_s)
            ++ (flag "--allowed-gpus"
                  (text_of (λ ids. join_comma (map python.show_int ids)) resources.allowed_gpu_ids)
                ++ (env_flags environment ++ ("--" ∷ stage.command)))))
  ]

-- `run_dir` is the text of the run's directory
unfoldable pub stage_environment : {F : Type 0} → String → String → StageSpec F → Dict String
stage_environment run_dir run_id stage =
    let stage_dir = String.◌++◌ run_dir (String.◌++◌ "/stages/" stage.id) in
    ("PYTHONUNBUFFERED", "1")
    ∷ ("KERNELINFRA_RUN_ID", run_id)
    ∷ ("KERNELINFRA_RUN_DIR", run_dir)
    ∷ ("KERNELINFRA_TASK", String.◌++◌ run_dir "/task.json")
    ∷ ("KERNELINFRA_CANDIDATE_DIR", String.◌++◌ run_dir "/candidate")
    ∷ ("KERNELINFRA_STAGE_ID", stage.id)
    ∷ ("KERNELINFRA_STAGE_KIND", stage.kind)
    ∷ ("KERNELINFRA_STAGE_DIR", stage_dir)
    ∷ ("KERNELINFRA_RESULT", String.◌++◌ stage_dir "/result.json")
    ∷ []
