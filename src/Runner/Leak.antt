-- ===== src/Runner/Leak.antt =====
-- Where a local slot is lost: `_run_stage` of src/kernel_infra/runner.py acquires the slot before
-- the `try` that releases it.
use Prim.Native.String
use mathlib.Core.Path.{subst}
use gpu_infra.Prelude.{
  ◌≡◌, refl, sym, ap, ◌∙◌, ℕ, ◌+◌, String, Bool, true, false, List, [], ◌∷◌, Result, ok, err,
  if◌then◌else◌,
}
use gpu_infra.Json.{Floats}
use gpu_infra.Fault.{Fault}
use gpu_infra.Contracts.Spec.{TaskSpec, StageSpec}
use gpu_infra.Store.Types.{Change, Request, waiting_local, running, set_state}
use gpu_infra.Runner.Types.{Raised, exception, World, Script, Manager}
use gpu_infra.Runner.Act.{Act, pure, lift, await, after, acquire, ◌>>=◌, ◌>>◌, update}
use gpu_infra.Runner.Stage.{
  is_local, take_slot, update_, enter_local, prepare, begin_stage, run_stage,
}
use gpu_infra.Runner.Live.{Live, Live-same, Ticks, Live-new}
use gpu_infra.Runner.Slots.{update_-then, Took, Took-enter_local, lift-then, piped_stage}

module _ {F : Type 0} (manager : Manager F) (ticks : Ticks manager.python) (run_id : String)
    (request : Request F) where
  -- once a slot is there, the command is returned
  started-ok :
      (stage : StageSpec F) (w : World F)
      → Live run_id request w
      → ((take_slot
            >> (update_ (
                  update manager.python run_id
                    (String.◌++◌ stage.execution "_started")
                    (set_state running ∷ []))
                >> pure stage.command))
          w).1
        ≡ ok stage.command
  unfolding ◌>>=◌ acquire pure
  started-ok stage w l =
      let event = String.◌++◌ stage.execution "_started" in
      let changes : List Change = set_state running ∷ [] in
      ap (λ p. p.1)
        (update_-then manager ticks run_id request event changes (λ u. pure stage.command)
          (acquire w) (Live-same run_id request w (acquire w) refl l))

  awaited-ok :
      (stage : StageSpec F) (slot : Result Raised (Unit {0})) (w : World F)
      → slot ≡ ok tt
      → Live run_id request w
      → ((await slot
            >> (take_slot
                >> (update_ (
                      update manager.python run_id
                        (String.◌++◌ stage.execution "_started")
                        (set_state running ∷ []))
                    >> pure stage.command)))
          w).1
        ≡ ok stage.command
  unfolding ◌>>=◌ await
  awaited-ok stage (ok u) w e l = started-ok stage w l
  awaited-ok stage (err x) w e l = cc

  enter_local-ok :
      (script : Script F) (stage : StageSpec F) (w : World F)
      → script.slot ≡ ok tt
      → Live run_id request w
      → (enter_local manager script run_id stage w).1 ≡ ok stage.command
  unfolding enter_local
  enter_local-ok script stage w e l =
      let event = String.◌++◌ stage.execution "_waiting" in
      let changes : List Change = set_state waiting_local ∷ [] in
      ap (λ p. p.1) (update_-then manager ticks run_id request event changes _ w l)
      ∙ awaited-ok stage script.slot _ e
          (Live-new run_id manager.python w event changes request l (ticks w.ticks))

  -- once prepared, a failing pipe is raised with the slot held
  -- raises the failure of the pipe with one slot more than before
  abbrev Leaks : {A : Type 0} → ℕ → Fault → World F × Result Raised A → Type 0
  Leaks h e p = (p.1 ≡ err (exception e)) × (p.0.held ≡ h + 1)

  lost_after :
      {A : Type 0} (h : ℕ) (p : World F × Result Raised (List String)) (command : List String)
      (pipe : Result Fault (Unit {0})) (e : Fault) (f : List String → Act F A)
      → p.1 ≡ ok command
      → Took manager ticks run_id request h p
      → pipe ≡ err e
      → Leaks h e (after p (λ c. lift pipe >> f c))
  unfolding ◌>>=◌ lift
  lost_after h (w, ok c) command (err x) e f q t broken = (cc, t)
  lost_after h (w, ok c) command (ok u) e f q t broken = cc
  lost_after h (w, err x) command pipe e f q t broken = cc

  local_prepare :
      (b : Bool) (m : Act F (List String)) (r : Result Fault (List String)) (w : World F)
      → b ≡ true
      → (if b then m else lift r) w ≡ m w
  local_prepare true m r w e = refl
  local_prepare false m r w e = cc

  module _ ⦃fl : Floats F⦄ (script : Script F) (task : TaskSpec F) (stage : StageSpec F) where
    lost_prepared :
        (label : String) (w : World F) (e : Fault)
        → is_local stage ≡ true
        → script.slot ≡ ok tt
        → script.pipe ≡ err e
        → Live run_id request w
        → Leaks w.held e (
            (prepare manager script run_id task stage label
                >>= piped_stage manager ticks run_id request script task stage)
              w)
    unfolding ◌>>=◌ prepare
    lost_prepared label w e here slot broken l =
        let m = enter_local manager script run_id stage in
        subst
          (λ p.
            Leaks w.held e (after p (piped_stage manager ticks run_id request script task stage)))
          (sym (local_prepare (is_local stage) m _ w here))
          (lost_after w.held (m w) stage.command script.pipe e _
            (enter_local-ok script stage w slot l)
            (Took-enter_local manager ticks run_id request script stage w l) broken)

    -- With a clock that reads something, a stage that is not the broker's and got its local slot, of a
    -- run that stands in a well-formed store, raises where the pipe to the guard could not be made,
    -- and holds one slot more than it began with.
    pub run_stage-held_pipe :
        (index : ℕ) (label : String) (w : World F) (e : Fault)
        → is_local stage ≡ true
        → script.mkdir ≡ ok tt
        → script.slot ≡ ok tt
        → script.pipe ≡ err e
        → Live run_id request w
        → let p = run_stage manager script run_id task stage index label w in
          (p.1 ≡ err (exception e)) × (p.0.held ≡ w.held + 1)
    unfolding run_stage begin_stage
    run_stage-held_pipe index label w e here made slot broken l =
        subst (Leaks w.held e)
          (sym (
            lift-then manager ticks run_id request script.mkdir _ w made
            ∙ update_-then manager ticks run_id request "stage_submitted" _ _ w l))
          (lost_prepared label _ e here slot broken
            (Live-new run_id manager.python w "stage_submitted" _ request l (ticks w.ticks)))
