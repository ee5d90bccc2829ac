-- ===== src/Diagnostics/Classify.antt =====
-- `_classify_run` of src/kernel_infra/diagnostics.py, cut where its blocks end. The state and the
-- request are those that the store wrote; a job is what the broker sent.
use gpu_infra.Prelude.{
  String, Bool, ◌&&◌, ◌||◌, Option, none, some, [], ◌∷◌, Dict, is_some, option_or, if◌then◌else◌,
  Result, ok, err, ◌>>=◌, ◌==◌,
}
use gpu_infra.Json.{Json, Floats}
use gpu_infra.Fault.{Fault}
use gpu_infra.Contracts.Spec.{ResourceSpec}
use gpu_infra.Store.Types.{State, Request, StageRequest, is_terminal}
use gpu_infra.Runner.Manage.{job_of}
use gpu_infra.Diagnostics.Types.{
  progressing, terminal, unknown, suspected_stall, Reason, recent_progress, run_is_terminal,
  no_updated_at, no_request, broker_unavailable, stated, request_failed, no_job, Location, JobView,
  RunView,
}
use gpu_infra.Diagnostics.Read.{Calendar, seconds_since, current_stage, job_view}
use gpu_infra.Diagnostics.Jobs.{
  Jobs, Finding, is_execution, locate, execution_of, resources_of, classify_local, classify_job,
}

module _ {F : Type 0} ⦃fl : Floats F⦄ where
  unfoldable pub classify_no_job : F → F → Finding F
  classify_no_job attention no_progress =
      if fl.le attention no_progress
      then (suspected_stall, no_job no_progress)
      else (progressing, recent_progress)

  unfoldable pub found_view : Option (Location × Dict (Json F)) → Option (JobView F)
  found_view none = none
  found_view (some (l, job)) = some (job_view job l)

  -- by the run's broker job
  unfoldable pub follow_job :
      State
      → Option (ResourceSpec F)
      → Jobs F
      → F
      → F
      → Option String
      → Result Fault (Finding F × Option (JobView F))
  follow_job s resources jobs attention no_progress none =
      ok (classify_no_job attention no_progress, none)
  follow_job s resources jobs attention no_progress (some job_id) = do
    let place = locate jobs job_id
    finding ← classify_job s resources attention no_progress place
    ok (finding, found_view place)

  -- a run whose stage is the broker's, or that has no stage
  unfoldable pub classify_broker :
      State
      → Option (StageRequest F)
      → Jobs F
      → Bool
      → F
      → F
      → Result Fault (Finding F × Option (JobView F))
  classify_broker s stage jobs broker_unknown attention no_progress =
      if broker_unknown && (is_execution (execution_of stage) ("broker" ∷ []) || is_some (job_of s))
      then ok ((unknown, broker_unavailable), none)
      else follow_job s (resources_of stage) jobs attention no_progress (job_of s)

  -- an active run with a request and a readable time of its last update
  unfoldable pub classify_active :
      State
      → Option (StageRequest F)
      → Jobs F
      → Bool
      → F
      → F
      → Result Fault (Finding F × Option (JobView F))
  classify_active s stage jobs broker_unknown attention no_progress =
      let execution = execution_of stage in
      if is_execution execution ("local" ∷ "service" ∷ [])
      then ok (classify_local s.state (option_or execution "") no_progress attention, none)
      else classify_broker s stage jobs broker_unknown attention no_progress

  -- `state.get("reason") or "run is terminal"`
  unfoldable pub terminal_reason : Option String → Reason F
  terminal_reason none = run_is_terminal
  terminal_reason (some r) = if r == "" then run_is_terminal else stated r

  -- the request, or why there is none
  unfoldable pub request_or : Option String → Option (Request F) → Result (Reason F) (Request F)
  request_or (some e) request = err (if e == "" then no_request else request_failed e)
  request_or none none = err no_request
  request_or none (some request) = ok request

  -- an active run, by the time since its last update and its request
  unfoldable pub find_active :
      State
      → Jobs F
      → Bool
      → F
      → Option F
      → Result (Reason F) (Request F)
      → Result Fault (Finding F × (Option (JobView F) × Option String))
  find_active s jobs broker_unknown attention none request =
      ok ((unknown, no_updated_at), (none, none))
  find_active s jobs broker_unknown attention (some seconds) (err reason) =
      ok ((unknown, reason), (none, none))
  find_active s jobs broker_unknown attention (some seconds) (ok request) = do
    let stage = current_stage s request
    out ← classify_active s stage jobs broker_unknown attention seconds
    ok (out.0, (out.1, execution_of stage))

  unfoldable pub find :
      State
      → Option (Request F)
      → Option String
      → Jobs F
      → Bool
      → Option F
      → F
      → Result Fault (Finding F × (Option (JobView F) × Option String))
  find s request request_error jobs broker_unknown no_progress attention =
      if is_terminal s.state
      then ok ((terminal, terminal_reason s.reason), (none, none))
      else find_active s jobs broker_unknown attention no_progress
          (request_or request_error request)

  unfoldable pub classify_run :
      {T : Type 0}
      → Calendar F T
      → State
      → Option (Request F)
      → Option String
      → Jobs F
      → Bool
      → T
      → F
      → Result Fault (RunView F)
  classify_run calendar s request request_error jobs broker_unknown now attention = do
    let no_progress = seconds_since calendar s.updated_at now
    found ← find s request request_error jobs broker_unknown no_progress attention
    ok (record {
      run_id = s.run_id;
      task_id = s.task_id;
      state = s.state;
      stage_id = s.stage_id;
      stage_kind = s.stage_kind;
      stage_execution = found.1.1;
      broker_job_id = s.broker_job_id;
      gpu_ids = s.gpu_ids;
      accepted_at = s.accepted_at;
      updated_at = s.updated_at;
      no_progress_seconds = no_progress;
      diagnosis = found.0.0;
      reason = found.0.1;
      broker_observation = found.1.0;
    })
