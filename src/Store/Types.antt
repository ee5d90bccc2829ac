-- ===== src/Store/Types.antt =====
-- What src/kernel_infra/store.py writes: a store is the directories under `runs`, by name, each with
-- the files that the code reads back. A file that was not written is none. File modes, temporary
-- names and the copy of `task.json` are left out; `os.replace` is the one step that shows a file.
use gpu_infra.Prelude.{ℕ, String, Bool, true, false, Option, List}
use gpu_infra.Contracts.Spec.{ResourceSpec}
use gpu_infra.Results.Types.{Outcome, RunResult}

-- The texts that the key `state` takes in store.py and runner.py.
pub data Phase : Type 0 where
  accepted submitting queued waiting_local running stage_finished : Phase
  ended : Outcome → Phase

-- `state in TERMINAL_STATES`
unfoldable pub is_terminal : Phase → Bool
is_terminal (ended outcome) = true
is_terminal _ = false

-- `state.json`
pub record State : Type 0 where
  pub run_id : String
  pub task_id : String
  pub task_sha256 : String
  pub candidate_sha256 : String
  pub label : String
  pub state : Phase
  pub stage_id : Option String
  pub stage_kind : Option String
  pub stage_index : Option ℕ
  pub broker_job_id : Option String
  pub gpu_ids : List ℕ
  pub service_deployment_ids : List String
  pub accepted_at : String
  pub updated_at : String
  pub terminal_at : Option String
  pub reason : Option String

-- a line of `events.jsonl`
pub record Event : Type 0 where
  pub at : String
  pub event : String
  pub run_id : String
  pub state : Phase
  pub stage_id : Option String
  pub broker_job_id : Option String
  pub gpu_ids : List ℕ
  pub reason : Option String

-- an element of `stages` of the request
pub record StageRequest (F : Type 0) : Type 0 where
  pub id : String
  pub kind : String
  pub execution : String
  pub judge_identity : String
  pub resolved_cwd : String
  pub command : List String
  pub service_deployment : Option String
  pub resources : Option (ResourceSpec F)

-- `request.json`
pub record Request (F : Type 0) : Type 0 where
  pub run_id : String
  pub task_id : String
  pub task_sha256 : String
  pub candidate_sha256 : String
  pub candidate_source : String
  pub task_source : String
  pub label : String
  pub accepted_at : String
  pub stages : List (StageRequest F)

pub record Run (F : Type 0) : Type 0 where
  pub request : Option (Request F)
  pub state : Option State
  pub events : List Event
  pub result : Option (RunResult F)

-- a keyword argument of `update_state`
pub data Change : Type 0 where
  set_state : Phase → Change
  set_stage_id set_stage_kind set_broker_job_id set_reason : Option String → Change
  set_stage_index : Option ℕ → Change
  set_gpu_ids : List ℕ → Change

-- what `utc_now` returned for `updated_at`, and for the event
pub record Times : Type 0 where
  pub updated : String
  pub logged : String
