-- ===== src/Runner/Reports.antt =====
-- A result that a stage returns was validated, src/kernel_infra/runner.py.
use mathlib.Core.Path.{subst}
use gpu_infra.Prelude.{◌≡◌, refl, ℕ, ℤ, String, Option, some, Result, ok, err, ok-injective, arith}
use gpu_infra.Json.{Json, Floats}
use gpu_infra.Fault.{Fault, contract_error}
use gpu_infra.Contracts.Spec.{TaskSpec, StageSpec}
use gpu_infra.Results.Types.{StageResult}
use gpu_infra.Results.Validate.{validate_stage_result}
use gpu_infra.Runner.Types.{Raised, World, Script, Manager}
use gpu_infra.Runner.Act as act
use gpu_infra.Runner.Act.{Act, pure, lift, after}
use gpu_infra.Runner.Stage.{StageReturn, run_stage, finish_stage, catch_contract, load_stage_result}

module _ {F : Type 0} {A : Type 0} (Q : A → Type 0) where
  -- Whatever the action returns has the property.
  abbrev pub Ensures : Act F A → Type 0
  Ensures act = (w : World F) (a : A) → (act w).1 ≡ ok a → Q a

  Ensures-pure : (a : A) → Q a → Ensures (pure a)
  unfolding pure
  Ensures-pure a q w b e = subst Q (ok-injective e) q

  Ensures-after :
      {B : Type 0} (p : World F × Result Raised B) (f : B → Act F A)
      → ((b : B) → p.1 ≡ ok b → Ensures (f b))
      → (a : A) → (after p f).1 ≡ ok a
      → Q a
  Ensures-after (w, ok b) f h a e = h b refl w a e
  Ensures-after (w, err x) f h a e = cc

  Ensures-bind :
      {B : Type 0} (m : Act F B) (f : B → Act F A)
      → ((b : B) → Ensures (f b))
      → Ensures (act.◌>>=◌ m f)
  unfolding act.◌>>=◌
  Ensures-bind m f h w a e = Ensures-after (m w) f (λ b q. h b) a e

  Ensures-lift :
      {B : Type 0} (r : Result Fault B) (f : B → Act F A)
      → ((b : B) → r ≡ ok b → Ensures (f b))
      → Ensures (act.◌>>=◌ (lift r) f)
  unfolding act.◌>>=◌ lift
  Ensures-lift (ok b) f h w a e = h b refl w a e
  Ensures-lift (err x) f h w a e = cc

module _ {F : Type 0} ⦃fl : Floats F⦄ (task : TaskSpec F) where
  -- A result that is there came out of the validation.
  abbrev pub Valid : StageReturn F → Type 0
  Valid returned =
      (result : StageResult F)
      → returned.result ≡ some result
      → (v : Json F) × (validate_stage_result task.workloads v ≡ ok result)

  catch_contract-ok :
      (r : Result Fault (StageResult F)) (o : Option (StageResult F)) (error : Option String)
      (result : StageResult F)
      → catch_contract r ≡ ok (o, error)
      → o ≡ some result
      → r ≡ ok result
  unfolding catch_contract
  catch_contract-ok (ok x) o error result h e = ground arith
  catch_contract-ok (err (contract_error m)) o error result h e = ground arith
  catch_contract-ok (err _) o error result h e = cc

  load-Valid :
      (report : Result Fault (Json F)) (result : StageResult F)
      → load_stage_result task report ≡ ok result
      → (v : Json F) × (validate_stage_result task.workloads v ≡ ok result)
  unfolding load_stage_result
  load-Valid (ok v) result h = (v, h)
  load-Valid (err e) result h = cc

  finish_stage-Valid :
      (manager : Manager F) (run_id : String) (stage : StageSpec F) (report : Result Fault (Json F))
      (exit_code : ℤ)
      → Ensures Valid (finish_stage manager run_id task stage report exit_code)
  unfolding finish_stage
  finish_stage-Valid manager run_id stage report exit_code = Ensures-lift Valid _ _ (λ loaded e.
      Ensures-bind Valid _ _ (λ s. Ensures-bind Valid _ _ (λ u. Ensures-bind Valid _ _ (λ u.
        Ensures-pure Valid _ (λ result found.
          load-Valid report result (
            catch_contract-ok (load_stage_result task report) loaded.0 loaded.1 result e found))))))

  pub run_stage-Valid :
      (manager : Manager F) (script : Script F) (run_id : String) (stage : StageSpec F) (index : ℕ)
      (label : String)
      → Ensures Valid (run_stage manager script run_id task stage index label)
  unfolding run_stage
  run_stage-Valid manager script run_id stage index label = Ensures-bind Valid _ _ (λ u.
      Ensures-bind Valid _ _ (λ u. Ensures-bind Valid _ _ (λ command. Ensures-bind Valid _ _ (λ u.
        Ensures-bind Valid _ _
          (λ exit_code. finish_stage-Valid manager run_id stage script.report exit_code)))))
