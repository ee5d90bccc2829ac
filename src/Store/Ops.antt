-- ===== src/Store/Ops.antt =====
-- The operations of `RunStore`, src/kernel_infra/store.py. What time it is, the random part of an id
-- and what `snapshot_candidate` returned are arguments.
use Prim.Native.String
use gpu_infra.Prelude.{
  ℕ, String, Bool, true, false, not, ◌&&◌, ◌||◌, Option, none, some, List, [], ◌∷◌, ◌++◌, map, Dict,
  get, put, is_some, mem, mem_ℕ, ◌+◌, filter_by, sort_by, text_lt, if◌then◌else◌, ◌==◌, Result, ok,
  err, ◌>>=◌, ◌>>◌, guard,
}
use gpu_infra.Fault.{Fault, value_error, key_error, os_error}
use gpu_infra.Contracts.Values.{codes}
use gpu_infra.Contracts.Spec.{StageSpec, TaskSpec}
use gpu_infra.Results.Types.{interrupted}
use gpu_infra.Store.Types.{
  accepted, ended, is_terminal, State, Event, StageRequest, Request, Run, Change, set_state,
  set_stage_id, set_stage_kind, set_broker_job_id, set_reason, set_stage_index, set_gpu_ids, Times,
}

-- the guard of `run_dir`; 47 is the code of the slash
unfoldable pub is_run_id : String → Bool
is_run_id run_id = not (run_id == "" || mem_ℕ 47 (codes run_id) || run_id == "." || run_id == "..")

-- `state.update(changes)`
unfoldable pub apply_change : State → Change → State
apply_change s (set_state p) = record s { state = p }
apply_change s (set_stage_id o) = record s { stage_id = o }
apply_change s (set_stage_kind o) = record s { stage_kind = o }
apply_change s (set_broker_job_id o) = record s { broker_job_id = o }
apply_change s (set_reason o) = record s { reason = o }
apply_change s (set_stage_index o) = record s { stage_index = o }
apply_change s (set_gpu_ids ids) = record s { gpu_ids = ids }

unfoldable pub apply_changes : State → List Change → State
apply_changes s [] = s
apply_changes s (c ∷ cs) = apply_changes (apply_change s c) cs

-- `state.get("terminal_at")` counts as true
unfoldable pub is_stamped : Option String → Bool
is_stamped none = false
is_stamped (some t) = not (t == "")

-- the two assignments after `state.update`
unfoldable pub stamp : State → String → State
stamp s now = record s {
  updated_at = now;
  terminal_at =
      if is_terminal s.state && not (is_stamped s.terminal_at) then some now else s.terminal_at;
}

-- the line that `append_event` writes
unfoldable pub event_of : String → String → String → State → Event
event_of at event run_id s = record {
  at = at;
  event = event;
  run_id = run_id;
  state = s.state;
  stage_id = s.stage_id;
  broker_job_id = s.broker_job_id;
  gpu_ids = s.gpu_ids;
  reason = s.reason;
}

-- `sorted({...})`: a set has each member once
unfoldable pub insert_id : Option String → List String → List String
insert_id none ids = ids
insert_id (some i) ids = if mem i ids then ids else i ∷ ids

-- `task_id is None or state.get("task_id") == task_id`
unfoldable pub of_task : Option String → State → Bool
of_task none s = true
of_task (some task_id) s = s.task_id == task_id

-- the keyword arguments of `recover_interrupted`
abbrev pub recovery_changes : List Change
recovery_changes =
    set_state (ended interrupted)
    ∷ set_reason (some "kernel-infrad restarted before the run became terminal")
    ∷ []

module _ {F : Type 0} where
  unfoldable pub deployments : List (StageSpec F) → List String
  deployments [] = []
  deployments (stage ∷ stages) = insert_id stage.service_deployment_id (deployments stages)

  unfoldable pub stage_request : StageSpec F → StageRequest F
  stage_request stage = record {
    id = stage.id;
    kind = stage.kind;
    execution = stage.execution;
    judge_identity = stage.judge_identity;
    resolved_cwd = stage.cwd;
    command = stage.command;
    service_deployment = stage.service_deployment_id;
    resources = stage.resources;
  }

  -- the directory of a run that `run_dir` accepts
  unfoldable pub read_run : Dict (Run F) → String → Result Fault (Run F)
  read_run store run_id = do
    guard (is_run_id run_id) (value_error "invalid run id")
    elim (get store run_id) [ none ↦ err (key_error "run not found") | some run ↦ ok run ]

  unfoldable pub read_state : Dict (Run F) → String → Result Fault State
  read_state store run_id = do
    run ← read_run store run_id
    elim run.state [ none ↦ err (key_error "run not found") | some s ↦ ok s ]

  unfoldable pub read_request : Dict (Run F) → String → Result Fault (Request F)
  read_request store run_id = do
    run ← read_run store run_id
    elim run.request [ none ↦ err (key_error "run request not found") | some r ↦ ok r ]

  -- the last two lines of `update_state`: the new `state.json`, and the event
  unfoldable pub write_state : Run F → String → Times → String → State → Run F
  write_state run run_id times event s = record run {
    state = some s;
    events = run.events ++ event_of times.logged event run_id s ∷ [];
  }

  unfoldable pub update_state :
      Dict (Run F) → String → Times → String → List Change → Result Fault (Dict (Run F) × State)
  update_state store run_id times event changes = do
    run ← read_run store run_id
    s ← read_state store run_id
    let new = stamp (apply_changes s changes) times.updated
    ok (put store run_id (write_state run run_id times event new), new)

  unfoldable pub first_state : TaskSpec F → String → String → String → String → State
  first_state task run_id candidate_digest label now = record {
    run_id = run_id;
    task_id = task.task_id;
    task_sha256 = task.digest;
    candidate_sha256 = candidate_digest;
    label = label;
    state = accepted;
    stage_id = none;
    stage_kind = none;
    stage_index = none;
    broker_job_id = none;
    gpu_ids = [];
    service_deployment_ids = sort_by text_lt (deployments task.stages);
    accepted_at = now;
    updated_at = now;
    terminal_at = none;
    reason = none;
  }

  unfoldable pub request_of : TaskSpec F → String → String → String → String → String → Request F
  request_of task run_id candidate_digest candidate_source label now = record {
    run_id = run_id;
    task_id = task.task_id;
    task_sha256 = task.digest;
    candidate_sha256 = candidate_digest;
    candidate_source = candidate_source;
    task_source = task.source_path;
    label = label;
    accepted_at = now;
    stages = map stage_request task.stages;
  }

  -- `snapshot` is what `snapshot_candidate` returned or raised; where it raised, the directory is
  -- removed again
  unfoldable pub create_run :
      Dict (Run F)
      → TaskSpec F
      → String
      → Result Fault String
      → String
      → String
      → Times
      → Result Fault (Dict (Run F) × State)
  create_run store task hex snapshot candidate_source label times = do
    let run_id = String.◌++◌ task.task_id (String.◌++◌ "-" hex)
    guard (is_run_id run_id) (value_error "invalid run id")
    guard (not (is_some (get store run_id))) (os_error "file exists")
    candidate_digest ← snapshot
    let s = first_state task run_id candidate_digest label times.updated
    let run : Run F = record {
      request = some (request_of task run_id candidate_digest candidate_source label times.updated);
      state = none;
      events = [];
      result = none;
    }
    ok (put store run_id (write_state run run_id times "accepted" s), s)

  -- the states of the directories that have one
  unfoldable pub states_of : List (String × Run F) → List State
  states_of [] = []
  states_of ((k, run) ∷ runs) = elim run.state [
    | none ↦ states_of runs
    | some s ↦ s ∷ states_of runs
  ]

  -- in the order of the paths, then of `accepted_at`
  unfoldable pub list_states : Dict (Run F) → Option String → List State
  list_states store task_id =
      sort_by (λ a b. text_lt a.accepted_at b.accepted_at)
        (filter_by (of_task task_id) (states_of (sort_by (λ a b. text_lt a.0 b.0) store)))

  -- the loop of `recover_interrupted`; `times` are those of the update of each run
  unfoldable pub recover_loop :
      (String → Times) → Dict (Run F) → List State → Result Fault (Dict (Run F) × ℕ)
  recover_loop times store [] = ok (store, 0)
  recover_loop times store (s ∷ rest) =
      let skipped = recover_loop times store rest in
      let updated = (do
        (next, new) ← update_state store s.run_id (times s.run_id) "interrupted" recovery_changes
        (done, changed) ← recover_loop times next rest
        ok (done, 1 + changed)) in
      if is_terminal s.state then skipped else updated

  unfoldable pub recover_interrupted :
      (String → Times) → Dict (Run F) → Result Fault (Dict (Run F) × ℕ)
  recover_interrupted times store = recover_loop times store (list_states store none)
