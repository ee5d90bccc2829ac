-- ===== src/Frontier/Candidates.antt =====
-- The first loop of `rebuild_frontier`, src/kernel_infra/frontier.py lines 17 to 27: the results of
-- the runs of a task, in the order in which the store lists them.
use gpu_infra.Prelude.{
  String, Option, none, some, List, [], ◌∷◌, Dict, get, Result, if◌then◌else◌, ◌==◌,
}
use gpu_infra.Fault.{Fault}
use gpu_infra.Json.{Floats}
use gpu_infra.Contracts.Spec.{TaskSpec}
use gpu_infra.Results.Types.{RunResult}
use gpu_infra.Store.Types.{State, Run}
use gpu_infra.Store.Ops.{list_states}
use gpu_infra.Frontier.Reduce.{Projection, rebuild_frontier}

module _ {F : Type 0} where
  -- `result.json` of a listed run, if it is there
  unfoldable pub result_of : Dict (Run F) → String → Option (RunResult F)
  result_of store run_id = elim (get store run_id) [ none ↦ none | some run ↦ run.result ]

  unfoldable pub with_result :
      String → Option (RunResult F) → List (String × RunResult F) → List (String × RunResult F)
  with_result run_id none rest = rest
  with_result run_id (some result) rest = (run_id, result) ∷ rest

  unfoldable pub collect : Dict (Run F) → TaskSpec F → List State → List (String × RunResult F)
  collect store task [] = []
  collect store task (s ∷ states) =
      let rest = collect store task states in
      if s.task_sha256 == task.digest
      then with_result s.run_id (result_of store s.run_id) rest
      else rest

  unfoldable pub candidates_of : Dict (Run F) → TaskSpec F → List (String × RunResult F)
  candidates_of store task = collect store task (list_states store (some task.task_id))

module _ {F : Type 0} ⦃fl : Floats F⦄ where
  unfoldable pub rebuild : Dict (Run F) → TaskSpec F → Result Fault (Projection F)
  rebuild store task = rebuild_frontier task (candidates_of store task)
