-- ===== src/Runner/Returned.antt =====
-- The local slots over a whole run: `_run` of src/kernel_infra/runner.py.
use gpu_infra.Prelude.{
  ◌≡◌, refl, ◌∙◌, ℕ, ◌+◌, String, Option, none, some, List, [], ◌∷◌, ◌++◌, Result, ok, err,
}
use gpu_infra.Json.{Floats}
use gpu_infra.Fault.{Fault}
use gpu_infra.Contracts.Spec.{TaskSpec, StageSpec}
use gpu_infra.Results.Types.{StageResult, StageEntry, RunResult, Outcome}
use gpu_infra.Store.Types.{Request}
use gpu_infra.Store.Ops.{read_request}
use gpu_infra.Frontier.Candidates.{rebuild}
use gpu_infra.Runner.Types.{
  Raised, exception, cancelled_error, World, Script, Interruption, Manager,
}
use gpu_infra.Runner.Interrupt.{interrupt_process}
use gpu_infra.Runner.Act.{lift}
use gpu_infra.Runner.Stage.{StageReturn, run_stage}
use gpu_infra.Runner.Execute.{
  Loop, after_result, after_return, after_stage, run_stages, settle, settled, abort, handle,
  stop_run, conclude, leave, run_asked, run, write_result, stop_reason, entry_of,
}
use gpu_infra.Runner.Live.{Live, Ticks, Keeps-run_stage}
use gpu_infra.Runner.Calm.{Calm, Calm-lift, Calm-await, Calm-bind, Calm-update_}
use gpu_infra.Runner.Slots.{run_stage-held}

module _ {F : Type 0} where
  Calm-write_result : (run_id : String) (final : RunResult F) → Calm (write_result run_id final)
  unfolding write_result
  Calm-write_result run_id final w = refl

module _ {F : Type 0} ⦃fl : Floats F⦄ (manager : Manager F) (run_id : String) (task : TaskSpec F)
    (request : Request F) where
  Calm-rebuild : Calm (λ (w : World F). lift (rebuild w.store task) w)
  Calm-rebuild w = Calm-lift (rebuild w.store task) w

  Calm-settle :
      (entries : List (StageEntry F)) (reason : Option String)
      → Calm (settle manager run_id task request entries reason)
  unfolding settle
  Calm-settle entries reason =
      Calm-bind _ _ (Calm-write_result run_id _)
        (λ u. Calm-bind _ _ Calm-rebuild (λ p. Calm-update_ manager.python run_id _ _))

  Calm-abort :
      (entries : List (StageEntry F)) (stop : Outcome) (reason : String)
      → Calm (abort manager run_id task request entries stop reason)
  unfolding abort
  Calm-abort entries stop reason =
      Calm-bind _ _ (Calm-write_result run_id _) (λ u. Calm-update_ manager.python run_id _ _)

  Calm-stop_run :
      (entries : List (StageEntry F)) → Calm (stop_run manager run_id task request entries)
  unfolding stop_run
  Calm-stop_run entries w = Calm-abort entries _ _ w

  Calm-handle :
      (met : Interruption) (entries : List (StageEntry F)) (e : Raised)
      → Calm (handle manager met run_id task request entries e)
  unfolding handle
  Calm-handle met entries cancelled_error =
      Calm-bind _ _ (Calm-await (interrupt_process met)) (λ u. Calm-stop_run entries)
  Calm-handle met entries (exception e) = Calm-abort entries _ _

  settled-held :
      (met : Interruption) (entries : List (StageEntry F)) (p : World F × Result Raised (Unit {0}))
      → (settled manager met run_id task request entries p).0.held ≡ p.0.held
  settled-held met entries (w, ok u) = refl
  settled-held met entries (w, err e) = Calm-handle met entries e w

  conclude-held :
      (met : Interruption) (w : World F) (entries : List (StageEntry F))
      (r : Result Raised (Option String))
      → (conclude manager met run_id task request (w, (entries, r))).0.held ≡ w.held
  unfolding conclude
  conclude-held met w entries (err e) = Calm-handle met entries e w
  conclude-held met w entries (ok reason) =
      settled-held met entries (settle manager run_id task request entries reason w)
      ∙ Calm-settle entries reason w

module _ {F : Type 0} ⦃fl : Floats F⦄ (manager : Manager F) (ticks : Ticks manager.python)
    (scripts : ℕ → Script F) (piped : (i : ℕ) → (scripts i).pipe ≡ ok tt) (run_id : String)
    (request : Request F) (task : TaskSpec F) (label : String) where
  -- going on with the loop keeps what is held
  abbrev GoesOn : ℕ → (World F → List (StageEntry F) → Loop F) → Type 0
  GoesOn h next =
      (w : World F) (entries : List (StageEntry F))
      → Live run_id request w
      → w.held ≡ h
      → (next w entries).0.held ≡ h

  after_result-held :
      (h : ℕ) (next : World F → List (StageEntry F) → Loop F) (w : World F)
      (entries : List (StageEntry F)) (o : Option String)
      → GoesOn h next
      → Live run_id request w
      → w.held ≡ h
      → (after_result next w entries o).0.held ≡ h
  after_result-held h next w entries none go l e = go w entries l e
  after_result-held h next w entries (some reason) go l e = e

  after_return-held :
      (h : ℕ) (stage : StageSpec F) (next : World F → List (StageEntry F) → Loop F) (w : World F)
      (entries : List (StageEntry F)) (returned : StageReturn F) (o : Option (StageResult F))
      → GoesOn h next
      → Live run_id request w
      → w.held ≡ h
      → (after_return manager stage next w entries returned o).0.held ≡ h
  after_return-held h stage next w entries returned none go l e = e
  after_return-held h stage next w entries returned (some result) go l e =
      after_result-held h next w (entries ++ entry_of stage result ∷ [])
        (stop_reason manager stage result returned.exit_code) go l e

  after_stage-held :
      (h : ℕ) (stage : StageSpec F) (next : World F → List (StageEntry F) → Loop F)
      (entries : List (StageEntry F)) (p : World F × Result Raised (StageReturn F))
      → GoesOn h next
      → Live run_id request p.0
      → p.0.held ≡ h
      → (after_stage manager stage next entries p).0.held ≡ h
  after_stage-held h stage next entries (w, err x) go l e = e
  after_stage-held h stage next entries (w, ok returned) go l e =
      after_return-held h stage next w entries returned returned.result go l e

  run_stages-held :
      (h : ℕ) (index : ℕ) (stages : List (StageSpec F))
      → GoesOn h (λ w entries. run_stages manager scripts run_id task label entries index stages w)
  unfolding run_stages
  run_stages-held h index [] w entries l e = e
  run_stages-held h index (stage ∷ stages) w entries l e =
      after_stage-held h stage
        (λ w' entries'. run_stages manager scripts run_id task label entries' (index + 1) stages w')
        entries (run_stage manager (scripts index) run_id task stage index label w)
        (λ w' entries' l' e'. run_stages-held h (index + 1) stages w' entries' l' e')
        (Keeps-run_stage manager ticks run_id request (scripts index) task stage index label w l)
        (run_stage-held manager ticks run_id request (scripts index) task stage index label w
            (piped index) l
          ∙ e)

module _ {F : Type 0} ⦃fl : Floats F⦄ where
  run_asked-held :
      (manager : Manager F) (scripts : ℕ → Script F) (met : Interruption) (run_id : String)
      (request : Request F) (task : TaskSpec F) (w : World F) (r : Result Fault (Request F))
      → ((q : Request F)
          → (run_stages manager scripts run_id task q.label [] 0 task.stages w).0.held ≡ w.held)
      → (run_asked manager scripts met run_id task w r).0.held ≡ w.held
  unfolding leave
  run_asked-held manager scripts met run_id request task w (err e) h = refl
  run_asked-held manager scripts met run_id request task w (ok q) h =
      let loop = run_stages manager scripts run_id task q.label [] 0 task.stages w in
      conclude-held manager run_id task q met loop.0 loop.1.0 loop.1.1 ∙ h q

  -- With a clock that reads something, and if every pipe to the guard could be made, a run that
  -- stands in a well-formed store gives back every local slot that it took, however it ends.
  pub run-held :
      (manager : Manager F) (scripts : ℕ → Script F) (met : Interruption) (run_id : String)
      (request : Request F) (task : TaskSpec F) (w : World F)
      → Ticks manager.python
      → ((i : ℕ) → (scripts i).pipe ≡ ok tt)
      → Live run_id request w
      → (run manager scripts met run_id task w).0.held ≡ w.held
  unfolding run
  run-held manager scripts met run_id request task w ticks piped l =
      run_asked-held manager scripts met run_id request task w (read_request w.store run_id) (λ q.
        run_stages-held manager ticks scripts piped run_id request task q.label w.held 0 task.stages
          w [] l refl)
