-- ===== src/Runner/Calm.antt =====
-- The actions of src/kernel_infra/runner.py that leave the local slots alone.
use gpu_infra.Prelude.{
  ◌≡◌, refl, ◌∙◌, ℕ, ℤ, String, Bool, true, false, Option, none, some, List, [], ◌∷◌, Result, ok,
  err, if◌then◌else◌, Dict,
}
use gpu_infra.Json.{Json, Floats}
use gpu_infra.Fault.{Fault}
use gpu_infra.Contracts.Spec.{TaskSpec, StageSpec}
use gpu_infra.Store.Types.{Change, Run, State}
use gpu_infra.Store.Ops.{update_state, read_state}
use gpu_infra.Runner.Types.{Raised, Receipt, World, Python, Manager}
use gpu_infra.Runner.Act.{Act, pure, lift, await, after, ◌>>=◌, update, tick, current}
use gpu_infra.Runner.Stage.{
  wait_beside, write_receipt, update_, on_group, on_queued, on_accepted, pump_line, pump_lines,
  finish_stage,
}

module _ {F : Type 0} where
  -- An action that leaves the slots of the run alone.
  abbrev pub Calm : {A : Type 0} → Act F A → Type 0
  Calm act = (w : World F) → (act w).0.held ≡ w.held

  pub Calm-lift : {A : Type 0} (r : Result Fault A) → Calm (lift r)
  unfolding lift
  Calm-lift (ok a) w = refl
  Calm-lift (err e) w = refl

  pub Calm-pure : {A : Type 0} (a : A) → Calm (pure a)
  unfolding pure
  Calm-pure a w = refl

  pub Calm-await : {A : Type 0} (r : Result Raised A) → Calm (await r)
  unfolding await
  Calm-await r w = refl

  pub Calm-wait_beside :
      (exit : Result Raised ℤ) (pumps : Act F (Unit {0}))
      → Calm pumps
      → Calm (wait_beside exit pumps)
  unfolding wait_beside
  Calm-wait_beside exit pumps calm w = calm w

  pub Calm-after :
      {A B : Type 0} (h : ℕ) (p : World F × Result Raised A) (f : A → Act F B)
      → p.0.held ≡ h
      → ((a : A) → Calm (f a))
      → (after p f).0.held ≡ h
  Calm-after h (w, ok a) f e hf = hf a w ∙ e
  Calm-after h (w, err x) f e hf = e

  pub Calm-bind :
      {A B : Type 0} (m : Act F A) (f : A → Act F B)
      → Calm m
      → ((a : A) → Calm (f a))
      → Calm (m >>= f)
  unfolding ◌>>=◌
  Calm-bind m f hm hf w = Calm-after w.held (m w) f (hm w) hf

  pub Calm-if :
      {A : Type 0} (b : Bool) (m n : Act F A) → Calm m → Calm n → Calm (if b then m else n)
  Calm-if true m n hm hn = hm
  Calm-if false m n hm hn = hn

  tick_held : (w : World F) (r : Result Fault (Dict (Run F) × State)) → (tick w r).0.held ≡ w.held
  tick_held w (ok (store, s)) = refl
  tick_held w (err e) = refl

  pub Calm-update :
      (python : Python F) (run_id event : String) (changes : List Change)
      → Calm (update python run_id event changes)
  unfolding update
  Calm-update python run_id event changes w =
      tick_held w (update_state w.store run_id (python.clock w.ticks) event changes)

  pub Calm-update_ :
      (python : Python F) (run_id event : String) (changes : List Change)
      → Calm (update_ (update python run_id event changes))
  Calm-update_ python run_id event changes =
      Calm-bind (update python run_id event changes) (λ s. pure tt)
        (Calm-update python run_id event changes) (λ s. Calm-pure tt)

  pub Calm-current : (run_id : String) → Calm (current run_id)
  unfolding current
  Calm-current run_id w = Calm-lift (read_state w.store run_id) w

  pub Calm-write_receipt : (receipt : Receipt) → Calm (write_receipt receipt)
  unfolding write_receipt
  Calm-write_receipt receipt w = refl

  pub ruleset calm_rules = (
    Calm-lift, Calm-pure, Calm-await, Calm-bind, Calm-if, Calm-update_, Calm-current,
    Calm-write_receipt,
  )

  pub Calm-on_group :
      (manager : Manager F) (run_id : String) (o : Option String) → Calm (on_group manager run_id o)
  unfolding on_group
  Calm-on_group manager run_id none = search calm_rules
  Calm-on_group manager run_id (some group) = search calm_rules

  pub Calm-on_queued :
      (manager : Manager F) (run_id line : String) (b : Bool)
      → Calm (on_queued manager run_id line b)
  unfolding on_queued
  Calm-on_queued manager run_id line true = search calm_rules
  Calm-on_queued manager run_id line false =
      Calm-on_group manager run_id (manager.python.gpu_ids_group line)

  pub Calm-on_accepted :
      (manager : Manager F) (run_id line : String) (o : Option String)
      → Calm (on_accepted manager run_id line o)
  unfolding on_accepted
  Calm-on_accepted manager run_id line (some job) = search calm_rules
  Calm-on_accepted manager run_id line none =
      Calm-on_queued manager run_id line (manager.python.is_queued line)

  pub Calm-pump_lines :
      (manager : Manager F) (run_id : String) (lines : List String)
      → Calm (pump_lines manager run_id lines)
  unfolding pump_lines pump_line
  Calm-pump_lines manager run_id [] = search calm_rules
  Calm-pump_lines manager run_id (line ∷ lines) =
      Calm-bind _ _ (Calm-on_accepted manager run_id line (manager.python.accepted_job line))
        (λ u. Calm-pump_lines manager run_id lines)

  module _ ⦃fl : Floats F⦄ where
    pub Calm-finish_stage :
        (manager : Manager F) (run_id : String) (task : TaskSpec F) (stage : StageSpec F)
        (report : Result Fault (Json F)) (exit_code : ℤ)
        → Calm (finish_stage manager run_id task stage report exit_code)
    unfolding finish_stage
    Calm-finish_stage manager run_id task stage report exit_code = search calm_rules
