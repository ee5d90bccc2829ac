-- ===== src/Diagnostics/Fair.antt =====
-- The runs of a report of `build_diagnosis`, src/kernel_infra/diagnostics.py, one by one.
use gpu_infra.Prelude.{
  String, Bool, true, false, Option, none, some, List, [], ◌∷◌, ◌≡◌, Dict, In, ◌⊎◌,
}
use gpu_infra.Json.{Json, Floats}
use gpu_infra.Contracts.Stage.{value_or_none}
use gpu_infra.Store.Types.{State, is_terminal}
use gpu_infra.Diagnostics.Types.{Location, in_running, in_queue, in_recent, JobView, RunView}
use gpu_infra.Diagnostics.Read.{Calendar, job_view}
use gpu_infra.Diagnostics.Jobs.{is_execution}
use gpu_infra.Diagnostics.Broker.{Status, text_of}
use gpu_infra.Diagnostics.Report.{Report}
use gpu_infra.Diagnostics.JobViews.{is_ended, is_stall}

-- A run without a broker job.
abbrev pub Unassigned : Option String → Type 0
Unassigned job_id = (job_id ≡ none) ⊎ (job_id ≡ some "")

module _ {F T : Type 0} ⦃fl : Floats F⦄ (calendar : Calendar F T) where
  -- The listed job that has the id.
  abbrev pub Listed : List (Dict (Json F)) → String → Dict (Json F) → Type 0
  Listed jobs id job = In job jobs × (text_of calendar (value_or_none job "job_id") ≡ id)

  abbrev pub listed_at : Status F → Location → List (Dict (Json F))
  listed_at status in_running = status.running
  listed_at status in_queue = status.queue
  listed_at status in_recent = status.recent

  -- What the view of a run says of the state of the run, given whether the observation of the broker
  -- can be trusted.
  pub record ViewOk (status : Status F) (broker_unknown : Bool) (s : State) (r : RunView F)
      : Type 0 where
    pub same_run : r.run_id ≡ s.run_id
    pub same_task : r.task_id ≡ s.task_id
    pub same_state : r.state ≡ s.state
    pub same_stage : (r.stage_id ≡ s.stage_id) × (r.stage_kind ≡ s.stage_kind)
    pub same_job : r.broker_job_id ≡ s.broker_job_id
    pub same_gpus : r.gpu_ids ≡ s.gpu_ids
    pub same_times : (r.accepted_at ≡ s.accepted_at) × (r.updated_at ≡ s.updated_at)
    pub ended : is_ended r.diagnosis ≡ is_terminal s.state
    pub stalls : broker_unknown ≡ true → is_stall r.diagnosis ≡ true → Unassigned s.broker_job_id
    pub unseen : broker_unknown ≡ true → r.broker_observation ≡ none
    pub shown :
        (v : JobView F)
        → r.broker_observation ≡ some v
        → (id : String) × (job : Dict (Json F)) × (s.broker_job_id ≡ some id)
          × Listed (listed_at status v.location) id job
          × (v ≡ job_view job v.location)
    pub calm :
        is_execution r.stage_execution ("local" ∷ "service" ∷ []) ≡ true
        → is_stall r.diagnosis ≡ false
