-- ===== src/Runner/Execute.antt =====
-- `_run` of src/kernel_infra/runner.py.
use Prim.Native.String
use gpu_infra.Prelude.{
  ℕ, ◌+◌, ℤ, pos, negsuc, String, Bool, true, not, ◌&&◌, Option, none, some, List, [], ◌∷◌, ◌++◌,
  get, put, Result, ok, err, if◌then◌else◌, ◌==◌, eqb, option_or, filter_by,
}
use gpu_infra.Json.{Floats}
use gpu_infra.Fault.{Fault}
use gpu_infra.Contracts.Spec.{TaskSpec, StageSpec}
use gpu_infra.Results.Types.{
  StageResult, StageEntry, RunResult, Outcome, infra_error, cancelled, interrupted,
}
use gpu_infra.Results.Aggregate.{aggregate_run_result, is_passed}
use gpu_infra.Store.Types.{
  Run, Request, ended, set_state, set_stage_id, set_stage_kind, set_stage_index, set_reason,
}
use gpu_infra.Store.Ops.{read_request}
use gpu_infra.Frontier.Aggregated.{override}
use gpu_infra.Frontier.Candidates.{rebuild}
use gpu_infra.Runner.Types.{
  Raised, cancelled_error, exception, World, Script, Interruption, Manager,
}
use gpu_infra.Runner.Interrupt.{interrupt_process}
use gpu_infra.Runner.Act.{Act, lift, await, ◌>>=◌, ◌>>◌, update}
use gpu_infra.Runner.Stage.{StageReturn, run_stage, update_}

-- `exit_code != 0`
unfoldable pub exited_badly : ℤ → Bool
exited_badly (pos n) = not (eqb n 0)
exited_badly (negsuc n) = true

-- `x or y` for a text
unfoldable pub text_or : Option String → String → String
text_or none d = d
text_or (some s) d = if s == "" then d else s

unfoldable pub outcome_text : Outcome → String
outcome_text Outcome.completed = "completed"
outcome_text Outcome.rejected = "rejected"
outcome_text infra_error = "infra_error"
outcome_text cancelled = "cancelled"
outcome_text interrupted = "interrupted"

-- the reason of a run that is stopped
unfoldable pub stop_text : Outcome → String
stop_text cancelled = "run cancelled by request"
stop_text _ = "kernel-infrad stopped before the run became terminal"

module _ {F : Type 0} where
  -- the two tests that end the loop after a result
  unfoldable pub stop_reason : Manager F → StageSpec F → StageResult F → ℤ → Option String
  stop_reason manager stage result exit_code =
      if exited_badly exit_code && is_passed result.status
      then some (
          String.◌++◌ "stage " (
            String.◌++◌ stage.id (
              String.◌++◌ " exited "
                (String.◌++◌ (manager.python.show_exit exit_code) " after reporting passed"))))
      else if is_passed result.status
      then none
      else some (text_or result.summary (String.◌++◌ "stage " (String.◌++◌ stage.id " failed")))

  -- the two assignments after a stage
  abbrev pub entry_of : StageSpec F → StageResult F → StageEntry F
  entry_of stage result = record { stage_id = stage.id; stage_kind = stage.kind; result = result }

  -- `atomic_json(run_dir / "result.json", final)`, which makes the directory if there is none
  abbrev pub blank_run : Run F
  blank_run = record { request = none; state = none; events = []; result = none }

  abbrev pub stored_run : Option (Run F) → Run F
  stored_run none = blank_run
  stored_run (some run) = run

  unfoldable pub write_result : String → RunResult F → Act F (Unit {0})
  write_result run_id final w = (
    record w {
      store = put w.store run_id (record (stored_run (get w.store run_id)) { result = some final });
    },
    ok tt,
  )

-- The world, the results so far, and how the loop ended, with `terminal_reason` where it did not
-- raise.
abbrev pub Loop : Type 0 → Type 0
Loop F = World F × (List (StageEntry F) × Result Raised (Option String))

module _ {F : Type 0} where
  -- the tests of the loop's body from its last to its first; `next` goes on with the loop
  abbrev pub after_result :
      (World F → List (StageEntry F) → Loop F)
      → World F
      → List (StageEntry F)
      → Option String
      → Loop F
  after_result next w entries none = next w entries
  after_result next w entries (some reason) = (w, (entries, ok (some reason)))

  abbrev pub after_return :
      Manager F
      → StageSpec F
      → (World F → List (StageEntry F) → Loop F)
      → World F
      → List (StageEntry F)
      → StageReturn F
      → Option (StageResult F)
      → Loop F
  after_return manager stage next w entries returned none =
      let missing = String.◌++◌ "stage " (String.◌++◌ stage.id " produced no result") in
      (w, (entries, ok (some (text_or returned.error missing))))
  after_return manager stage next w entries returned (some result) =
      after_result next w (entries ++ entry_of stage result ∷ [])
        (stop_reason manager stage result returned.exit_code)

  abbrev pub after_stage :
      Manager F
      → StageSpec F
      → (World F → List (StageEntry F) → Loop F)
      → List (StageEntry F)
      → World F × Result Raised (StageReturn F)
      → Loop F
  after_stage manager stage next entries (w, err e) = (w, (entries, err e))
  after_stage manager stage next entries (w, ok returned) =
      after_return manager stage next w entries returned returned.result

module _ {F : Type 0} ⦃fl : Floats F⦄ where
  -- The loop over the stages; `scripts` are what each stage meets.
  unfoldable pub run_stages :
      Manager F
      → (ℕ → Script F)
      → String
      → TaskSpec F
      → String
      → List (StageEntry F)
      → ℕ
      → List (StageSpec F)
      → World F
      → Loop F
  run_stages manager scripts run_id task label entries index [] w = (w, (entries, ok none))
  run_stages manager scripts run_id task label entries index (stage ∷ stages) w =
      after_stage manager stage
        (λ w' entries'. run_stages manager scripts run_id task label entries' (index + 1) stages w')
        entries (run_stage manager (scripts index) run_id task stage index label w)

  unfoldable pub final_of :
      TaskSpec F → Request F → String → List (StageEntry F) → Option String → RunResult F
  final_of task request run_id entries reason =
      aggregate_run_result task run_id request.task_sha256 request.candidate_sha256 entries reason

  -- the rest of the `try` block
  unfoldable pub settle :
      Manager F
      → String
      → TaskSpec F
      → Request F
      → List (StageEntry F)
      → Option String
      → Act F (Unit {0})
  settle manager run_id task request entries reason = do
    let final = final_of task request run_id entries reason
    write_result run_id final
    projection ← (λ (w : World F). lift (rebuild w.store task) w)
    update_ (
        update manager.python run_id (outcome_text final.outcome) (
          set_state (ended final.outcome)
          ∷ set_stage_id none
          ∷ set_stage_kind none
          ∷ set_stage_index none
          ∷ set_reason reason
          ∷ []))

  -- the two `except` blocks, which differ in the outcome and the reason
  unfoldable pub abort :
      Manager F
      → String
      → TaskSpec F
      → Request F
      → List (StageEntry F)
      → Outcome
      → String
      → Act F (Unit {0})
  abort manager run_id task request entries stop reason = do
    write_result run_id (override (final_of task request run_id entries (some reason)) stop)
    update_ (
        update manager.python run_id (outcome_text stop)
          (set_state (ended stop) ∷ set_reason (some reason) ∷ []))

  -- `self._stop_reasons.get(run_id, "interrupted")`
  unfoldable pub stop_of : World F → String → Outcome
  stop_of w run_id = option_or (get w.stop_reasons run_id) interrupted

  unfoldable pub stop_run :
      Manager F → String → TaskSpec F → Request F → List (StageEntry F) → Act F (Unit {0})
  stop_run manager run_id task request entries w =
      let stop = stop_of w run_id in
      abort manager run_id task request entries stop (stop_text stop) w

  -- the two handlers; `met` is what the interruption of the process meets
  unfoldable pub handle :
      Manager F
      → Interruption
      → String
      → TaskSpec F
      → Request F
      → List (StageEntry F)
      → Raised
      → Act F (Unit {0})
  handle manager met run_id task request entries cancelled_error = do
    await (interrupt_process met)
    stop_run manager run_id task request entries
  handle manager met run_id task request entries (exception e) =
      abort manager run_id task request entries infra_error (manager.python.show_fault e)

  -- the `finally` block
  unfoldable pub leave : String → World F → World F
  leave run_id w = record w {
    tasks = filter_by (λ k. not (k == run_id)) w.tasks;
    stop_reasons = filter_by (λ e. not (e.0 == run_id)) w.stop_reasons;
    done = run_id ∷ w.done;
  }

  -- an exception in the rest of the `try` block goes to the same handlers
  abbrev pub settled :
      Manager F
      → Interruption
      → String
      → TaskSpec F
      → Request F
      → List (StageEntry F)
      → World F × Result Raised (Unit {0})
      → World F × Result Raised (Unit {0})
  settled manager met run_id task request entries (w, ok u) = (w, ok u)
  settled manager met run_id task request entries (w, err e) =
      handle manager met run_id task request entries e w

  -- what follows the loop, by how it ended
  unfoldable pub conclude :
      Manager F
      → Interruption
      → String
      → TaskSpec F
      → Request F
      → Loop F
      → World F × Result Raised (Unit {0})
  conclude manager met run_id task request (w, (entries, err e)) =
      handle manager met run_id task request entries e w
  conclude manager met run_id task request (w, (entries, ok reason)) =
      settled manager met run_id task request entries
        (settle manager run_id task request entries reason w)

  -- `_run` once `request.json` is read; a failure of the reading is raised before the `try`
  abbrev pub run_asked :
      Manager F
      → (ℕ → Script F)
      → Interruption
      → String
      → TaskSpec F
      → World F
      → Result Fault (Request F)
      → World F × Result Raised (Unit {0})
  run_asked manager scripts met run_id task w (err e) = (w, err (exception e))
  run_asked manager scripts met run_id task w (ok request) =
      let (w', r) =
        conclude manager met run_id task request
          (run_stages manager scripts run_id task request.label [] 0 task.stages w) in
      (leave run_id w', r)

  unfoldable pub run :
      Manager F → (ℕ → Script F) → Interruption → String → TaskSpec F → Act F (Unit {0})
  run manager scripts met run_id task w =
      run_asked manager scripts met run_id task w (read_request w.store run_id)
