-- ===== src/Diagnostics/Jobs.antt =====
-- What `_classify_run` of src/kernel_infra/diagnostics.py says of a local stage and of a broker job, cut where
-- its blocks end. A job is what the broker sent.
use gpu_infra.Prelude.{
  String, Bool, true, false, not, ◌&&◌, Option, none, some, List, Dict, get, is_empty, mem,
  if◌then◌else◌, Result, ok, ◌>>=◌,
}
use gpu_infra.Json.{Json, arr, Floats, items}
use gpu_infra.Fault.{Fault}
use gpu_infra.Contracts.Spec.{ResourceSpec}
use gpu_infra.Contracts.Stage.{value_or_none}
use gpu_infra.Store.Types.{Phase, waiting_local, State, StageRequest}
use gpu_infra.Diagnostics.Types.{
  Diagnosis, progressing, unknown, long_wait, waiting, suspected_stall, Reason, local_capacity,
  no_wait_seconds, no_run_seconds, gpus_disagree, catching_up, aggregating, not_in_snapshot,
  local_active, local_wait, lifecycle_behind, absent_job, queue_overdue, run_overdue, queue_wait,
  queue_position, on_gpus, job_over, Location, in_running, in_queue, in_recent,
}
use gpu_infra.Diagnostics.Read.{non_negative, number, same_ids}

-- the jobs of the broker, by id
pub record Jobs (F : Type 0) : Type 0 where
  pub running : Dict (Dict (Json F))
  pub queued : Dict (Dict (Json F))
  pub recent : Dict (Dict (Json F))

-- A diagnosis with its reason.
abbrev pub Finding : Type 0 → Type 0
Finding F = Diagnosis × Reason F

unfoldable pub is_running : Phase → Bool
is_running Phase.running = true
is_running _ = false

unfoldable pub is_waiting_local : Phase → Bool
is_waiting_local waiting_local = true
is_waiting_local _ = false

unfoldable pub is_execution : Option String → List String → Bool
is_execution none names = false
is_execution (some e) names = mem e names

module _ {F : Type 0} where
  -- running, then queued, then recent
  unfoldable pub locate : Jobs F → String → Option (Location × Dict (Json F))
  locate jobs job_id = elim (get jobs.running job_id) [
    | some job ↦ some (in_running, job)
    | none ↦ elim (get jobs.queued job_id) [
      | some job ↦ some (in_queue, job)
      | none ↦ elim (get jobs.recent job_id) [ some job ↦ some (in_recent, job) | none ↦ none ]
    ]
  ]

  unfoldable pub execution_of : Option (StageRequest F) → Option String
  execution_of none = none
  execution_of (some stage) = some stage.execution

  unfoldable pub resources_of : Option (StageRequest F) → Option (ResourceSpec F)
  resources_of none = none
  resources_of (some stage) = stage.resources

module _ {F : Type 0} ⦃fl : Floats F⦄ where
  -- `a > b`, where `b` may be missing
  unfoldable pub exceeds : F → Option F → Bool
  exceeds x none = false
  exceeds x (some limit) = fl.lt (fl.add limit (fl.lit 5)) x

  unfoldable pub option_limit : Option F → Option F
  option_limit none = none
  option_limit (some x) = non_negative x

  unfoldable pub queue_limit : Option (ResourceSpec F) → Option F
  queue_limit none = none
  queue_limit (some r) = option_limit r.queue_timeout_s

  unfoldable pub run_limit : Option (ResourceSpec F) → Option F
  run_limit none = none
  run_limit (some r) = non_negative r.run_timeout_s

  -- a limit that was exceeded is there
  unfoldable pub limit_or : Option F → F
  limit_or none = fl.lit 0
  limit_or (some x) = x

  unfoldable pub classify_local : Phase → String → F → F → Finding F
  classify_local phase execution no_progress attention =
      if is_waiting_local phase
      then if fl.le attention no_progress
        then (long_wait, local_wait execution no_progress)
        else (waiting, local_capacity)
      else (Diagnosis.running, local_active execution)

  unfoldable pub classify_queued :
      Dict (Json F) → Option (ResourceSpec F) → F → Option F → Finding F
  classify_queued job resources attention none = (unknown, no_wait_seconds)
  classify_queued job resources attention (some wait) =
      let limit = queue_limit resources in
      if exceeds wait limit
      then (suspected_stall, queue_overdue wait (limit_or limit))
      else if fl.le attention wait
      then (long_wait, queue_wait wait (value_or_none job "position"))
      else (waiting, queue_position (value_or_none job "position"))

  -- the tests on a running job whose duration and GPUs are known
  unfoldable pub classify_known :
      State → Option (ResourceSpec F) → F → F → F → List (Json F) → Finding F
  classify_known s resources attention no_progress run_s observed =
      let limit = run_limit resources in
      if exceeds run_s limit
      then (suspected_stall, run_overdue run_s (limit_or limit))
      else if not (is_empty s.gpu_ids) && not (same_ids s.gpu_ids observed)
      then (suspected_stall, gpus_disagree)
      else if is_running s.state
      then (Diagnosis.running, on_gpus observed)
      else if fl.le attention no_progress
      then (suspected_stall, lifecycle_behind no_progress)
      else (progressing, catching_up)

  unfoldable pub classify_running :
      State → Option (ResourceSpec F) → F → F → Option F → Json F → Finding F
  classify_running s resources attention no_progress (some run_s) (arr ids) =
      classify_known s resources attention no_progress run_s (items ids)
  classify_running s resources attention no_progress _ _ = (unknown, no_run_seconds)

  unfoldable pub classify_recent : Dict (Json F) → F → F → Finding F
  classify_recent job attention no_progress =
      if fl.le attention no_progress
      then (suspected_stall, job_over (value_or_none job "state") no_progress)
      else (progressing, aggregating)

  unfoldable pub classify_absent : F → F → Finding F
  classify_absent attention no_progress =
      if fl.le attention no_progress
      then (suspected_stall, absent_job no_progress)
      else (progressing, not_in_snapshot)

  -- a run with a broker job, by where the job is
  unfoldable pub classify_job :
      State
      → Option (ResourceSpec F)
      → F
      → F
      → Option (Location × Dict (Json F))
      → Result Fault (Finding F)
  classify_job s resources attention no_progress none = ok (classify_absent attention no_progress)
  classify_job s resources attention no_progress (some (in_queue, job)) = do
    wait ← number (value_or_none job "wait_seconds")
    ok (classify_queued job resources attention wait)
  classify_job s resources attention no_progress (some (in_running, job)) = do
    run_s ← number (value_or_none job "run_seconds")
    ok (classify_running s resources attention no_progress run_s (value_or_none job "gpu_ids"))
  classify_job s resources attention no_progress (some (in_recent, job)) =
      ok (classify_recent job attention no_progress)
