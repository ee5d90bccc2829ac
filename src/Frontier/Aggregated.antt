-- ===== src/Frontier/Aggregated.antt =====
-- The results that the runner writes, src/kernel_infra/runner.py lines 178 to 241, as candidates of
-- the frontier.
use gpu_infra.Prelude.{◌≡◌, String, false, Option, List, All, All-of_In, In, ok, Returns}
use gpu_infra.Json.{Json, Floats}
use gpu_infra.Contracts.Spec.{Platform, TaskSpec}
use gpu_infra.Contracts.Task.{parse_task}
use gpu_infra.Contracts.TaskSound.{parse_task-TaskOk}
use gpu_infra.Results.Types.{StageEntry, Outcome, RunResult}
use gpu_infra.Results.Aggregate.{aggregate_run_result}
use gpu_infra.Results.Verdict.{Validated}
use gpu_infra.Results.Eligible.{workloads-aggregate, eligible-aggregate}
use gpu_infra.Frontier.Reduce.{rebuild_frontier}
use gpu_infra.Frontier.Total.{ResultOk, rebuild_frontier-Returns}

-- `final["outcome"] = ...; final["frontier_eligible"] = False`
unfoldable pub override : {F : Type 0} → RunResult F → Outcome → RunResult F
override final stop = record final { outcome = stop; frontier_eligible = false }

module _ {F : Type 0} ⦃fl : Floats F⦄ where
  -- What `_run` writes into `result.json` from stage results that were validated.
  pub data Written (task : TaskSpec F) : RunResult F → Type 0 where
    reported :
        (run_id task_digest candidate_digest : String) (entries : List (StageEntry F))
        (reason : Option String)
        → All (Validated task.workloads) entries
        → Written task
            (aggregate_run_result task run_id task_digest candidate_digest entries reason)
    stopped :
        (run_id task_digest candidate_digest : String) (entries : List (StageEntry F))
        (reason : Option String) (stop : Outcome)
        → All (Validated task.workloads) entries
        → Written task (
            override
              (aggregate_run_result task run_id task_digest candidate_digest entries reason)
              stop)

  Written-ResultOk :
      (task : TaskSpec F) (result : RunResult F) → Written task result → ResultOk task result
  unfolding override
  Written-ResultOk task result (reported run_id td cd entries reason validated) =
      let (own, rows) = workloads-aggregate task run_id td cd entries reason validated in
      record {
        own_ids = own;
        rows_ok = rows;
        complete = λ e. (eligible-aggregate task run_id td cd entries reason validated e).2;
      }
  Written-ResultOk task result (stopped run_id td cd entries reason stop validated) =
      let (own, rows) = workloads-aggregate task run_id td cd entries reason validated in
      record { own_ids = own; rows_ok = rows; complete = λ e. cc }

  -- Rebuilding the frontier never raises: not for a task that was parsed, over results that the
  -- runner wrote from validated stage results, whichever way each run ended.
  pub rebuild_frontier-Written :
      (platform : Platform F) (source : Json F) (path : String) (task : TaskSpec F)
      (candidates : List (String × RunResult F))
      → parse_task platform source path ≡ ok task
      → ((c : String × RunResult F) → In c candidates → Written task c.1)
      → Returns (rebuild_frontier task candidates)
  rebuild_frontier-Written platform source path task candidates parsed written =
      rebuild_frontier-Returns task candidates (parse_task-TaskOk platform source path task parsed)
        (All-of_In (λ c. ResultOk task c.1) candidates
          (λ c m. Written-ResultOk task c.1 (written c m)))
