-- ===== src/Services/Deployments.antt =====
-- `ServiceStore`, src/kernel_infra/service_store.py: the directories of deployments, by name. The copy
-- of `spec.json` and the paths that a state repeats are left out.
use Prim.Native.String
use gpu_infra.Prelude.{
  ℕ, String, Bool, true, false, not, ◌&&◌, Option, none, some, List, [], ◌∷◌, ◌++◌, Dict, get, put,
  keys, is_some, filter_by, sort_by, text_lt, if◌then◌else◌, ◌==◌, Result, ok, err, ◌>>=◌, ◌>>◌,
  guard,
}
use gpu_infra.Fault.{Fault, value_error, key_error, os_error}
use gpu_infra.Store.Types.{Times}
use gpu_infra.Store.Ops.{is_run_id, is_stamped}
use gpu_infra.Services.Spec.{ManagedServiceSpec, ServiceResources}

-- the texts that `state` takes in service_store.py and services.py
pub data ServicePhase : Type 0 where
  accepted starting ready stopping stopped failed interrupted : ServicePhase

-- `SERVICE_TERMINAL_STATES`
unfoldable pub is_over : ServicePhase → Bool
is_over stopped = true
is_over failed = true
is_over interrupted = true
is_over _ = false

unfoldable pub is_ready : ServicePhase → Bool
is_ready ready = true
is_ready _ = false

pub record DeploymentState (F : Type 0) : Type 0 where
  pub deployment_id : String
  pub service_id : String
  pub service_sha256 : String
  pub state : ServicePhase
  pub broker_job_id : Option String
  pub gpu_ids : List ℕ
  pub service_url : String
  pub service_identity : Option String
  pub accepted_at : String
  pub updated_at : String
  pub ready_at : Option String
  pub terminal_at : Option String
  pub reason : Option String
  pub idle_grace_s : Option F
  pub idle_since : Option String

pub record ServiceEvent : Type 0 where
  pub at : String
  pub event : String
  pub deployment_id : String
  pub service_id : String
  pub state : ServicePhase
  pub broker_job_id : Option String
  pub gpu_ids : List ℕ
  pub reason : Option String

pub record ServiceRequest (F : Type 0) : Type 0 where
  pub deployment_id : String
  pub service_id : String
  pub service_sha256 : String
  pub service_source : String
  pub accepted_at : String
  pub owner : String
  pub service_url : String
  pub source_root : String
  pub identity_prefix : String
  pub cwd : String
  pub command : List String
  pub env_keys : List String
  pub resources : ServiceResources F
  pub readiness_timeout_s : F
  pub idle_grace_s : Option F

pub record Deployment (F : Type 0) : Type 0 where
  pub request : ServiceRequest F
  pub state : Option (DeploymentState F)
  pub events : List ServiceEvent

-- a keyword argument of `update_state`, as services.py passes them
pub data ServiceChange : Type 0 where
  to_state : ServicePhase → ServiceChange
  to_broker_job_id to_reason to_service_identity to_idle_since : Option String → ServiceChange
  to_gpu_ids : List ℕ → ServiceChange

module _ {F : Type 0} where
  unfoldable pub change_deployment : DeploymentState F → List ServiceChange → DeploymentState F
  change_deployment s [] = s
  change_deployment s (to_state p ∷ cs) = change_deployment (record s { state = p }) cs
  change_deployment s (to_broker_job_id o ∷ cs) =
      change_deployment (record s { broker_job_id = o }) cs
  change_deployment s (to_reason o ∷ cs) = change_deployment (record s { reason = o }) cs
  change_deployment s (to_service_identity o ∷ cs) =
      change_deployment (record s { service_identity = o }) cs
  change_deployment s (to_idle_since o ∷ cs) = change_deployment (record s { idle_since = o }) cs
  change_deployment s (to_gpu_ids ids ∷ cs) = change_deployment (record s { gpu_ids = ids }) cs

  -- the three assignments after `state.update`
  unfoldable pub stamp_deployment : DeploymentState F → String → DeploymentState F
  stamp_deployment s now = record s {
    updated_at = now;
    ready_at = if is_ready s.state && not (is_stamped s.ready_at) then some now else s.ready_at;
    terminal_at =
        if is_over s.state && not (is_stamped s.terminal_at) then some now else s.terminal_at;
  }

  unfoldable pub service_event : String → String → String → DeploymentState F → ServiceEvent
  service_event at event deployment_id s = record {
    at = at;
    event = event;
    deployment_id = deployment_id;
    service_id = s.service_id;
    state = s.state;
    broker_job_id = s.broker_job_id;
    gpu_ids = s.gpu_ids;
    reason = s.reason;
  }

  unfoldable pub read_deployment : Dict (Deployment F) → String → Result Fault (Deployment F)
  read_deployment store deployment_id = do
    guard (is_run_id deployment_id) (value_error "invalid deployment id")
    elim (get store deployment_id) [
      | none ↦ err (key_error "service deployment not found")
      | some d ↦ ok d
    ]

  unfoldable pub deployment_state : Deployment F → Result Fault (DeploymentState F)
  deployment_state d = elim d.state [
    | none ↦ err (key_error "service deployment not found")
    | some s ↦ ok s
  ]

  unfoldable pub read_service_state :
      Dict (Deployment F) → String → Result Fault (DeploymentState F)
  read_service_state store deployment_id = do
    d ← read_deployment store deployment_id
    deployment_state d

  unfoldable pub write_deployment :
      Deployment F → String → Times → String → DeploymentState F → Deployment F
  write_deployment d deployment_id times event s = record d {
    state = some s;
    events = d.events ++ service_event times.logged event deployment_id s ∷ [];
  }

  unfoldable pub update_deployment :
      Dict (Deployment F)
      → String
      → Times
      → String
      → List ServiceChange
      → Result Fault (Dict (Deployment F) × DeploymentState F)
  update_deployment store deployment_id times event changes = do
    d ← read_deployment store deployment_id
    s ← deployment_state d
    let new = stamp_deployment (change_deployment s changes) times.updated
    ok (put store deployment_id (write_deployment d deployment_id times event new), new)

  unfoldable pub service_request : ManagedServiceSpec F → String → String → ServiceRequest F
  service_request spec deployment_id now = record {
    deployment_id = deployment_id;
    service_id = spec.service_id;
    service_sha256 = spec.digest;
    service_source = spec.source_path;
    accepted_at = now;
    owner = spec.owner;
    service_url = spec.service_url;
    source_root = spec.source_root;
    identity_prefix = spec.identity_prefix;
    cwd = spec.cwd;
    command = spec.command;
    env_keys = sort_by text_lt (keys spec.env);
    resources = spec.resources;
    readiness_timeout_s = spec.readiness_timeout_s;
    idle_grace_s = spec.idle_grace_s;
  }

  unfoldable pub first_deployment : ManagedServiceSpec F → String → String → DeploymentState F
  first_deployment spec deployment_id now = record {
    deployment_id = deployment_id;
    service_id = spec.service_id;
    service_sha256 = spec.digest;
    state = accepted;
    broker_job_id = none;
    gpu_ids = [];
    service_url = spec.service_url;
    service_identity = none;
    accepted_at = now;
    updated_at = now;
    ready_at = none;
    terminal_at = none;
    reason = none;
    idle_grace_s = spec.idle_grace_s;
    idle_since = none;
  }

  unfoldable pub create_deployment :
      Dict (Deployment F)
      → ManagedServiceSpec F
      → String
      → Times
      → Result Fault (Dict (Deployment F) × DeploymentState F)
  create_deployment store spec hex times = do
    let deployment_id = String.◌++◌ spec.service_id (String.◌++◌ "-" hex)
    guard (is_run_id deployment_id) (value_error "invalid deployment id")
    guard (not (is_some (get store deployment_id))) (os_error "file exists")
    let s = first_deployment spec deployment_id times.updated
    let d : Deployment F = record {
      request = service_request spec deployment_id times.updated;
      state = none;
      events = [];
    }
    ok (put store deployment_id (write_deployment d deployment_id times "accepted" s), s)

  unfoldable pub deployment_states : List (String × Deployment F) → List (DeploymentState F)
  deployment_states [] = []
  deployment_states ((k, d) ∷ rest) = elim d.state [
    | none ↦ deployment_states rest
    | some s ↦ s ∷ deployment_states rest
  ]

  unfoldable pub of_service : Option String → DeploymentState F → Bool
  of_service none s = true
  of_service (some service_id) s = s.service_id == service_id

  unfoldable pub list_deployments : Dict (Deployment F) → Option String → List (DeploymentState F)
  list_deployments store service_id =
      sort_by (λ a b. text_lt a.accepted_at b.accepted_at)
        (filter_by (of_service service_id)
          (deployment_states (sort_by (λ a b. text_lt a.0 b.0) store)))
