-- ===== src/Runner/Slots.antt =====
-- What a stage does to the local slots that its run holds: `_run_stage` of
-- src/kernel_infra/runner.py.
use Prim.Native.String
use mathlib.Core.Path.{subst}
use gpu_infra.Prelude.{
  ◌≡◌, refl, sym, ap, ◌∙◌, ℕ, ℤ, ◌+◌, String, Bool, true, false, List, [], ◌∷◌, arith, Result, ok,
  err, if◌then◌else◌,
}
use gpu_infra.Json.{Floats}
use gpu_infra.Fault.{Fault}
use gpu_infra.Contracts.Spec.{TaskSpec, StageSpec}
use gpu_infra.Store.Types.{Change, Request, waiting_local, running, set_state}
use gpu_infra.Runner.Types.{Raised, World, Script, Manager}
use gpu_infra.Runner.Act.{
  Act, pure, lift, await, finally, on_raise, after, ◌>>=◌, ◌>>◌, release_if, acquire, update,
}
use gpu_infra.Runner.Stage.{
  StageReturn, is_local, take_slot, update_, enter_local, prepare, run_process, begin_stage,
  finish_stage, run_stage,
}
use gpu_infra.Runner.Live.{Live, Live-same, Ticks, update-new, Live-new, new_world}
use gpu_infra.Runner.Calm.{
  Calm, Calm-lift, Calm-pure, Calm-wait_beside, Calm-if, Calm-after, Calm-pump_lines,
  Calm-finish_stage,
}

module _ {F : Type 0} (manager : Manager F) (ticks : Ticks manager.python) (run_id : String)
    (request : Request F) where
  pub update_-then :
      {A : Type 0} (event : String) (changes : List Change) (f : Unit {0} → Act F A) (w : World F)
      (l : Live run_id request w)
      → (update_ (update manager.python run_id event changes) >>= f) w
        ≡ f tt (new_world run_id manager.python w event changes request l)
  unfolding ◌>>=◌ pure
  update_-then event changes f w l =
      ap (λ p. after (after p (λ s. pure tt)) f)
        (update-new run_id manager.python w event changes request l)

  -- A local stage that goes on holds one slot more, and one that was stopped as many as before.
  abbrev pub Took : {A : Type 0} → ℕ → World F × Result Raised A → Type 0
  Took h (w, ok a) = w.held ≡ h + 1
  Took h (w, err e) = w.held ≡ h

  enter_after_slot :
      (stage : StageSpec F) (w : World F)
      → Live run_id request w
      → Took w.held (
          (take_slot
              >> (update_ (
                    update manager.python run_id
                      (String.◌++◌ stage.execution "_started")
                      (set_state running ∷ []))
                  >> pure stage.command))
            w)
  unfolding ◌>>=◌ acquire pure
  enter_after_slot stage w l =
      let event = String.◌++◌ stage.execution "_started" in
      let changes : List Change = set_state running ∷ [] in
      let l' = Live-same run_id request w (acquire w) refl l in
      subst (Took w.held)
        (sym (update_-then event changes (λ u. pure stage.command) (acquire w) l')) refl

  enter_awaited :
      (stage : StageSpec F) (slot : Result Raised (Unit {0})) (w : World F)
      → Live run_id request w
      → Took w.held (
          (await slot
              >> (take_slot
                  >> (update_ (
                        update manager.python run_id
                          (String.◌++◌ stage.execution "_started")
                          (set_state running ∷ []))
                      >> pure stage.command)))
            w)
  unfolding ◌>>=◌ await
  enter_awaited stage (ok u) w l = enter_after_slot stage w l
  enter_awaited stage (err e) w l = refl

  pub Took-enter_local :
      (script : Script F) (stage : StageSpec F) (w : World F)
      → Live run_id request w
      → Took w.held (enter_local manager script run_id stage w)
  unfolding enter_local
  Took-enter_local script stage w l =
      let event = String.◌++◌ stage.execution "_waiting" in
      let changes : List Change = set_state waiting_local ∷ [] in
      let l' = Live-new run_id manager.python w event changes request l (ticks w.ticks) in
      subst (Took w.held) (sym (update_-then event changes _ w l))
        (enter_awaited stage script.slot _ l')

  -- what a process holds while it runs
  abbrev slots : Bool → ℕ
  slots b = if b then 1 else 0

  release_if-held :
      (b : Bool) (h : ℕ) (w : World F) → w.held ≡ h + slots b → (release_if b w).held ≡ h
  unfolding release_if
  release_if-held true h w e = omega (arith, e)
  release_if-held false h w e = omega (arith, e)

  spawned :
      (b : Bool) (h : ℕ) (r : Result Raised (Unit {0})) (body : Act F ℤ) (w : World F)
      → Calm body
      → w.held ≡ h + slots b
      → ((on_raise (release_if b) (await r) >> finally (release_if b) body) w).0.held ≡ h
  unfolding ◌>>=◌ on_raise await finally
  spawned b h (ok u) body w calm e = release_if-held b h (body w).0 (calm w ∙ e)
  spawned b h (err x) body w calm e = release_if-held b h w e

  run_process-held :
      (script : Script F) (stage : StageSpec F) (command : List String) (h : ℕ) (w : World F)
      → w.held ≡ h + slots (is_local stage)
      → (run_process manager script run_id stage command w).0.held ≡ h
  unfolding run_process
  run_process-held script stage command h w e =
      spawned (is_local stage) h (script.spawn command) _ w
        (Calm-wait_beside script.exit _ (
          Calm-if (is_local stage) _ _ (Calm-pure tt)
            (Calm-pump_lines manager run_id script.lines)))
        e

  -- what `prepare` leaves: the slot of a local stage, or nothing where it raised
  abbrev Prepared : {A : Type 0} → Bool → ℕ → World F × Result Raised A → Type 0
  Prepared b h (w, ok a) = w.held ≡ h + slots b
  Prepared b h (w, err e) = w.held ≡ h

  Took-Prepared :
      {A : Type 0} (h : ℕ) (p : World F × Result Raised A) → Took h p → Prepared true h p
  Took-Prepared h (w, ok a) t = t
  Took-Prepared h (w, err e) t = t

  Calm-Prepared :
      {A : Type 0} (h : ℕ) (p : World F × Result Raised A) → p.0.held ≡ h → Prepared false h p
  Calm-Prepared h (w, ok a) e = omega (arith, e)
  Calm-Prepared h (w, err x) e = e

  choose-Prepared :
      (b : Bool) (m : Act F (List String)) (r : Result Fault (List String)) (w : World F)
      → Took w.held (m w)
      → Prepared b w.held ((if b then m else lift r) w)
  choose-Prepared true m r w t = Took-Prepared w.held (m w) t
  choose-Prepared false m r w t = Calm-Prepared w.held (lift r w) (Calm-lift r w)

  prepare-Prepared :
      (script : Script F) (task : TaskSpec F) (stage : StageSpec F) (label : String) (w : World F)
      → Live run_id request w
      → Prepared (is_local stage) w.held (prepare manager script run_id task stage label w)
  unfolding prepare
  prepare-Prepared script task stage label w l =
      choose-Prepared (is_local stage) (enter_local manager script run_id stage) _ w
        (Took-enter_local script stage w l)

  pub lift-then :
      {A : Type 0} (r : Result Fault (Unit {0})) (f : Unit {0} → Act F A) (w : World F)
      → r ≡ ok tt
      → (lift r >>= f) w ≡ f tt w
  unfolding ◌>>=◌ lift
  lift-then r f w e = ap (λ (x : Result Fault (Unit {0})). (lift x >>= f) w) e

  lift-held :
      {A : Type 0} (r : Result Fault (Unit {0})) (f : Unit {0} → Act F A) (w : World F)
      → (f tt w).0.held ≡ w.held
      → ((lift r >>= f) w).0.held ≡ w.held
  unfolding ◌>>=◌ lift
  lift-held (ok u) f w e = e
  lift-held (err x) f w e = refl

  bind-held :
      {A B : Type 0} (h : ℕ) (m : Act F A) (f : A → Act F B) (w : World F)
      → (m w).0.held ≡ h
      → ((a : A) → Calm (f a))
      → ((m >>= f) w).0.held ≡ h
  unfolding ◌>>=◌
  bind-held h m f w e hf = Calm-after h (m w) f e hf

  module _ ⦃fl : Floats F⦄ (script : Script F) (task : TaskSpec F) (stage : StageSpec F) where
    -- a stage from its pipe on
    abbrev pub piped_stage : List String → Act F (StageReturn F)
    piped_stage command =
        lift script.pipe
        >> (run_process manager script run_id stage command >>= λ exit_code.
            finish_stage manager run_id task stage script.report exit_code)

    after_prepare :
        (h : ℕ) (p : World F × Result Raised (List String))
        → script.pipe ≡ ok tt
        → Prepared (is_local stage) h p
        → (after p piped_stage).0.held ≡ h
    after_prepare h (w, err e) piped t = t
    after_prepare h (w, ok command) piped t =
        ap (λ p. p.0.held) (lift-then script.pipe _ w piped)
        ∙ bind-held h (run_process manager script run_id stage command) _ w
            (run_process-held script stage command h w t)
            (λ exit_code. Calm-finish_stage manager run_id task stage script.report exit_code)

    prepared_stage :
        (label : String) (w : World F)
        → script.pipe ≡ ok tt
        → Live run_id request w
        → ((prepare manager script run_id task stage label >>= piped_stage) w).0.held ≡ w.held
    unfolding ◌>>=◌
    prepared_stage label w piped l =
        after_prepare w.held (prepare manager script run_id task stage label w) piped
          (prepare-Prepared script task stage label w l)

    -- With a clock that reads something and a pipe to the guard that could be made, a stage of a run
    -- that stands in a well-formed store ends with as many local slots as it began with, on every
    -- path: each slot that it took it gave back.
    pub run_stage-held :
        (index : ℕ) (label : String) (w : World F)
        → script.pipe ≡ ok tt
        → Live run_id request w
        → (run_stage manager script run_id task stage index label w).0.held ≡ w.held
    unfolding run_stage begin_stage
    run_stage-held index label w piped l = lift-held script.mkdir _ w (
        ap (λ p. p.0.held) (update_-then "stage_submitted" _ _ w l)
        ∙ prepared_stage label _ piped
            (Live-new run_id manager.python w "stage_submitted" _ request l (ticks w.ticks)))
