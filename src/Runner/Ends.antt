-- ===== src/Runner/Ends.antt =====
-- Every run ends, with a result that says how: `_run` of src/kernel_infra/runner.py.
use gpu_infra.Prelude.{ℕ, String, List, All}
use gpu_infra.Json.{Floats}
use gpu_infra.Fault.{Fault}
use gpu_infra.Contracts.Spec.{TaskSpec}
use gpu_infra.Results.Types.{StageEntry}
use gpu_infra.Results.Verdict.{Validated}
use gpu_infra.Store.Types.{Request}
use gpu_infra.Runner.Types.{World, Script, Manager}
use gpu_infra.Runner.Execute.{Loop}
use gpu_infra.Runner.Live.{Live, Ticks}

module _ {F : Type 0} ⦃fl : Floats F⦄ (manager : Manager F) (ticks : Ticks manager.python)
    (scripts : ℕ → Script F) (run_id : String) (request : Request F) (task : TaskSpec F)
    (label : String) where
  abbrev Runs : Loop F → Type 0
  Runs out = Live run_id request out.0 × All (Validated task.workloads) out.1.0

  abbrev Goes : (World F → List (StageEntry F) → Loop F) → Type 0
  Goes next =
      (w : World F) (entries : List (StageEntry F))
      → Live run_id request w
      → All (Validated task.workloads) entries
      → Runs (next w entries)
