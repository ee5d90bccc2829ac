-- ===== src/Runner/Stage.antt =====
-- `_run_stage` and `_pump_broker_stderr` of src/kernel_infra/runner.py. The pumps of output that is
-- only stored, and the pipe's ends, are left out.
use Prim.Native.String
use gpu_infra.Prelude.{
  ℕ, ℤ, String, Bool, true, false, not, Option, none, some, List, [], ◌∷◌, ◌++◌, Result, ok, err,
  if◌then◌else◌, ◌==◌, is_some,
}
use gpu_infra.Json.{Json, Floats}
use gpu_infra.Fault.{Fault, contract_error}
use gpu_infra.Contracts.Spec.{TaskSpec, StageSpec}
use gpu_infra.Results.Types.{StageResult}
use gpu_infra.Results.Validate.{validate_stage_result}
use gpu_infra.Store.Types.{
  State, submitting, queued, waiting_local, running, stage_finished, set_state, set_stage_id,
  set_stage_kind, set_stage_index, set_broker_job_id, set_gpu_ids, set_reason,
}
use gpu_infra.Runner.Types.{Raised, Receipt, Script, Manager}
use gpu_infra.Runner.Act.{
  Act, pure, lift, await, finally, on_raise, ◌>>=◌, ◌>>◌, acquire, release_if, update, current,
}
use gpu_infra.Runner.Command.{broker_command, stage_environment, parse_gpu_ids}

-- what `_run_stage` returns
pub record StageReturn (F : Type 0) : Type 0 where
  pub result : Option (StageResult F)
  pub exit_code : ℤ
  pub error : Option String

unfoldable pub is_local : {F : Type 0} → StageSpec F → Bool
is_local stage = not (stage.execution == "broker")

-- `await process.wait()` and then `await asyncio.gather(...)` of the pumps, which run meanwhile: what
-- the wait raises comes first, then what a pump raised
abbrev pub gathered : Result Raised ℤ → Result Raised (Unit {0}) → Result Raised ℤ
gathered (err e) pumped = err e
gathered (ok exit_code) (err e) = err e
gathered (ok exit_code) (ok u) = ok exit_code

module _ {F : Type 0} where
  unfoldable pub receipt_of :
      String → StageSpec F → ℤ → State → Option (StageResult F) → Option String → Receipt
  receipt_of run_id stage exit_code s result error = record {
    run_id = run_id;
    stage_id = stage.id;
    stage_kind = stage.kind;
    execution = stage.execution;
    judge_identity = stage.judge_identity;
    exit_code = exit_code;
    broker_job_id = s.broker_job_id;
    gpu_ids = s.gpu_ids;
    judge_result_valid = is_some result;
    error = error;
  }

  unfoldable pub write_receipt : Receipt → Act F (Unit {0})
  write_receipt receipt w = (record w { receipts = w.receipts ++ receipt ∷ [] }, ok tt)

  abbrev pub take_slot : Act F (Unit {0})
  take_slot w = (acquire w, ok tt)

  -- `self.store.update_state(...)` as a statement
  abbrev pub update_ : Act F State → Act F (Unit {0})
  update_ act = act >>= λ s. pure tt

  -- one line of the broker client's stderr, from its last test to its first
  unfoldable pub on_group : Manager F → String → Option String → Act F (Unit {0})
  on_group manager run_id none = pure tt
  on_group manager run_id (some group) = do
    ids ← lift (parse_gpu_ids group)
    update_
        (update manager.python run_id "broker_started" (set_state running ∷ set_gpu_ids ids ∷ []))

  unfoldable pub on_queued : Manager F → String → String → Bool → Act F (Unit {0})
  on_queued manager run_id line true =
      update_ (update manager.python run_id "broker_queued" (set_state queued ∷ []))
  on_queued manager run_id line false = on_group manager run_id (manager.python.gpu_ids_group line)

  unfoldable pub on_accepted : Manager F → String → String → Option String → Act F (Unit {0})
  on_accepted manager run_id line (some job) = update_ (
      update manager.python run_id "broker_accepted"
        (set_state queued ∷ set_broker_job_id (some job) ∷ []))
  on_accepted manager run_id line none =
      on_queued manager run_id line (manager.python.is_queued line)

  unfoldable pub pump_line : Manager F → String → String → Act F (Unit {0})
  pump_line manager run_id line = on_accepted manager run_id line (manager.python.accepted_job line)

  unfoldable pub pump_lines : Manager F → String → List String → Act F (Unit {0})
  pump_lines manager run_id [] = pure tt
  pump_lines manager run_id (line ∷ lines) = do
    pump_line manager run_id line
    pump_lines manager run_id lines

  -- waits for a local slot
  unfoldable pub enter_local : Manager F → Script F → String → StageSpec F → Act F (List String)
  enter_local manager script run_id stage = do
    update_ (
        update manager.python run_id (String.◌++◌ stage.execution "_waiting")
          (set_state waiting_local ∷ []))
    await script.slot
    take_slot
    update_ (
        update manager.python run_id (String.◌++◌ stage.execution "_started")
          (set_state running ∷ []))
    pure stage.command

  unfoldable pub prepare :
      Manager F → Script F → String → TaskSpec F → StageSpec F → String → Act F (List String)
  prepare manager script run_id task stage label =
      if is_local stage
      then enter_local manager script run_id stage
      else lift (
          broker_command manager.python manager.gpu_run manager.broker_socket task stage label
            (stage_environment (manager.run_path run_id) run_id stage))

  unfoldable pub wait_beside : Result Raised ℤ → Act F (Unit {0}) → Act F ℤ
  wait_beside exit pumps w = let (w', pumped) = pumps w in (w', gathered exit pumped)

  -- the process, from its start until it has exited and its output is read
  unfoldable pub run_process : Manager F → Script F → String → StageSpec F → List String → Act F ℤ
  run_process manager script run_id stage command = do
    on_raise (release_if (is_local stage)) (await (script.spawn command))
    finally (release_if (is_local stage)) (
        wait_beside script.exit
          (if is_local stage then pure tt else pump_lines manager run_id script.lines))

  unfoldable pub begin_stage : Manager F → String → StageSpec F → ℕ → Act F (Unit {0})
  begin_stage manager run_id stage index = update_ (
      update manager.python run_id "stage_submitted" (
        set_state submitting
        ∷ set_stage_id (some stage.id)
        ∷ set_stage_kind (some stage.kind)
        ∷ set_stage_index (some index)
        ∷ set_broker_job_id none
        ∷ set_gpu_ids []
        ∷ set_reason none
        ∷ []))

module _ {F : Type 0} ⦃fl : Floats F⦄ where
  -- `except ContractError as exc: error = str(exc)`
  unfoldable pub catch_contract :
      Result Fault (StageResult F) → Result Fault (Option (StageResult F) × Option String)
  catch_contract (ok result) = ok (some result, none)
  catch_contract (err (contract_error message)) = ok (none, some message)
  catch_contract (err e) = err e

  -- `load_stage_result`
  unfoldable pub load_stage_result :
      TaskSpec F → Result Fault (Json F) → Result Fault (StageResult F)
  load_stage_result task (ok value) = validate_stage_result task.workloads value
  load_stage_result task (err e) = err e

  unfoldable pub finish_stage :
      Manager F
      → String
      → TaskSpec F
      → StageSpec F
      → Result Fault (Json F)
      → ℤ
      → Act F (StageReturn F)
  finish_stage manager run_id task stage report exit_code = do
    (result, error) ← lift (catch_contract (load_stage_result task report))
    s ← current run_id
    write_receipt (receipt_of run_id stage exit_code s result error)
    update_ (
        update manager.python run_id "stage_finished"
          (set_state stage_finished ∷ set_reason error ∷ []))
    pure (record { result = result; exit_code = exit_code; error = error })

  unfoldable pub run_stage :
      Manager F → Script F → String → TaskSpec F → StageSpec F → ℕ → String → Act F (StageReturn F)
  run_stage manager script run_id task stage index label = do
    lift script.mkdir
    begin_stage manager run_id stage index
    command ← prepare manager script run_id task stage label
    lift script.pipe
    exit_code ← run_process manager script run_id stage command
    finish_stage manager run_id task stage script.report exit_code
