-- ===== src/Runner/Manage.antt =====
-- `recover_interrupted`, `submit`, `wait`, `cancel` and `close` of `RunManager`, src/kernel_infra/runner.py, up to the
-- start of the task that runs and to its cancellation.
use Prim.Native.String
use gpu_infra.Prelude.{
  ℤ, ◌||◌, err, ℕ, String, Bool, true, false, not, Option, none, some, List, [], ◌∷◌, Dict, put,
  any, mem, is_some, filter_by, if◌then◌else◌, Result, ok, ◌>>=◌, ◌>>◌, guard, ◌==◌,
}
use gpu_infra.Fault.{Fault, value_error, contract_error}
use gpu_infra.Contracts.Values.{strip}
use gpu_infra.Contracts.Spec.{TaskSpec, StageSpec}
use gpu_infra.Results.Types.{cancelled, interrupted}
use gpu_infra.Store.Types.{State, Run, Times, Change, is_terminal, set_reason}
use gpu_infra.Store.Ops.{update_state, list_states, recover_interrupted, create_run, read_state}
use gpu_infra.Runner.Types.{World}
use gpu_infra.Runner.Execute.{text_or, exited_badly}

-- `if not broker_job_id: continue`
unfoldable pub job_of : State → Option String
job_of s = elim s.broker_job_id [ none ↦ none | some job ↦ if job == "" then none else some job ]

unfoldable pub reconciled_text : String → Bool → String
reconciled_text job was_active =
    String.◌++◌ "startup reconciled broker job "
      (String.◌++◌ job (String.◌++◌ "; active_cancelled=" (if was_active then "true" else "false")))

unfoldable pub is_unfinished : State → Bool
is_unfinished s = not (is_terminal s.state)

abbrev pub reconcile_changes : Bool → String → List Change
reconcile_changes was_active job = set_reason (some (reconciled_text job was_active)) ∷ []

-- `stage.resources is not None and stage.resources.allowed_gpu_ids is not None`
unfoldable pub is_scoped : {F : Type 0} → StageSpec F → Bool
is_scoped stage = elim stage.resources [
  | none ↦ false
  | some resources ↦ is_some resources.allowed_gpu_ids
]

-- How the probe of the client ended: it could not run or took too long, or it exited with a code and
-- an output, in which `--allowed-gpus` stands as a word or not.
pub data Probe : Type 0 where
  not_run : String → Probe
  exited : (returncode : ℤ) → (mentions_flag : Bool) → Probe

-- `_check_scoped_client`
unfoldable pub check_scoped_client : Probe → Result Fault (Unit {0})
check_scoped_client (not_run message) = err (
    contract_error
      (String.◌++◌ "cannot verify scoped GPU requests with configured gpu-run: " message))
check_scoped_client (exited returncode mentions_flag) =
    if exited_badly returncode || not mentions_flag
    then err (contract_error "configured gpu-run does not support --allowed-gpus")
    else ok tt

module _ {F : Type 0} where
  -- the loop of `recover_interrupted`; `cancels` is `cancel_broker_job`, which raises where the
  -- broker is not reached or its answer is not one; where it raises, what the loop wrote before stays on
  -- disk and is not in the result
  unfoldable pub reconcile :
      (String → Times)
      → (String → Result Fault Bool)
      → Dict (Run F)
      → List State
      → Result Fault (Dict (Run F))
  reconcile times cancels store [] = ok store
  reconcile times cancels store (s ∷ rest) = elim (job_of s) [
    | none ↦ reconcile times cancels store rest
    | some job ↦ do
      was_active ← cancels job
      (next, new) ←
          update_state store s.run_id (times s.run_id) "recovery_broker_reconciled"
            (reconcile_changes was_active job)
      reconcile times cancels next rest
  ]

  unfoldable pub recover_manager :
      (String → Times)
      → (String → Result Fault Bool)
      → Dict (Run F)
      → Result Fault (Dict (Run F) × ℕ)
  recover_manager times cancels store = do
    next ← reconcile times cancels store (filter_by is_unfinished (list_states store none))
    recover_interrupted times next

  -- `probe` is what the check of the client saw
  unfoldable pub submit :
      World F
      → TaskSpec F
      → Option String
      → String
      → String
      → String
      → Probe
      → Result Fault String
      → Times
      → Result Fault (World F × State)
  submit w task label candidate_name candidate_source hex probe snapshot times = do
    let effective_label = strip (text_or label (text_or (some candidate_name) task.task_id))
    guard (not (effective_label == "")) (value_error "label must not be empty")
    if any is_scoped task.stages then check_scoped_client probe else ok tt
    (store, s) ← create_run w.store task hex snapshot candidate_source effective_label times
    ok (record w { store = store; tasks = s.run_id ∷ w.tasks }, s)

  -- the request of a cancellation: whether the run's task is cancelled
  unfoldable pub cancel : World F → String → Result Fault (World F × Bool)
  cancel w run_id = do
    s ← read_state w.store run_id
    if is_terminal s.state
        then ok (w, false)
        else if mem run_id w.tasks
        then ok (record w { stop_reasons = put w.stop_reasons run_id cancelled }, true)
        else ok (w, false)

  -- `has_event` says whether the manager has an event for the run, and `later` is the world once the
  -- event was set or the timeout had passed
  unfoldable pub wait : World F → Bool → World F → String → Result Fault State
  wait w has_event later run_id = do
    s ← read_state w.store run_id
    if is_terminal s.state || not has_event then ok s else read_state later.store run_id

  -- the loop of `close`; the tasks that are not done are cancelled
  unfoldable pub close : (String → Bool) → World F → List String → World F
  close is_done w [] = w
  close is_done w (run_id ∷ rest) =
      let stopped : World F = record w { stop_reasons = put w.stop_reasons run_id interrupted } in
      close is_done (if is_done run_id then w else stopped) rest
