-- ===== src/Diagnostics/Types.antt =====
-- What src/kernel_infra/diagnostics.py reports. A reason is the constructor of its message, with what
-- the message names.
use gpu_infra.Prelude.{ℕ, String, Option, List, Dict}
use gpu_infra.Json.{Json}
use gpu_infra.Store.Types.{Phase}

pub data Diagnosis : Type 0 where
  progressing terminal unknown long_wait waiting running suspected_stall : Diagnosis

pub data Reason (F : Type 0) : Type 0 where
  recent_progress run_is_terminal no_updated_at no_request local_capacity : Reason F
  broker_unavailable no_wait_seconds no_run_seconds gpus_disagree catching_up aggregating : Reason F
  not_in_snapshot : Reason F
  stated request_failed local_active : String → Reason F
  local_wait : String → F → Reason F
  no_job lifecycle_behind absent_job : F → Reason F
  queue_overdue run_overdue : F → F → Reason F
  queue_wait : F → Json F → Reason F
  queue_position : Json F → Reason F
  on_gpus : List (Json F) → Reason F
  job_over : Json F → F → Reason F

pub data Location : Type 0 where
  in_running in_queue in_recent : Location

-- `_job_view`: where the job was found, and its values at the fields
pub record JobView (F : Type 0) : Type 0 where
  pub location : Location
  pub values : Dict (Json F)

pub record RunView (F : Type 0) : Type 0 where
  pub run_id : String
  pub task_id : String
  pub state : Phase
  pub stage_id : Option String
  pub stage_kind : Option String
  pub stage_execution : Option String
  pub broker_job_id : Option String
  pub gpu_ids : List ℕ
  pub accepted_at : String
  pub updated_at : String
  pub no_progress_seconds : Option F
  pub diagnosis : Diagnosis
  pub reason : Reason F
  pub broker_observation : Option (JobView F)

pub data Health : Type 0 where
  healthy attention uncertain : Health
