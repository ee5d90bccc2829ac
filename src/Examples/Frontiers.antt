-- ===== src/Examples/Frontiers.antt =====
-- The aggregation and the frontier on the results of one run of the task.
use gpu_infra.Prelude.{
  ℕ, ◌++◌, arith, ◌≡◌, ◌≢◌, ◌↔◌, refl, String, true, false, none, some, List, [], ◌∷◌, ok, All, In,
  here, there, Distinct, map, any, all, Returns, get, put, insert_by, sort_by,
}
use gpu_infra.Results.Types.{completed, rejected, valid, RunResult, Row}
use gpu_infra.Results.Aggregate.{
  aggregate_run_result, is_passed, is_valid, next_validity, validity_of, update_dict, merge_row,
  merge_rows, merge_results, merge_fingerprints, all_stages_passed, is_timed, is_stable,
  sorted_rows, is_eligible, outcome_of,
}
use gpu_infra.Results.Verdict.{reports_invalid, InOrder, AllRan, outcome-aggregate}
use gpu_infra.Results.Merged.{RowOk}
use gpu_infra.Results.Eligible.{TimedIn, workloads-aggregate, eligible-aggregate}
use gpu_infra.Frontier.Reduce.{
  Cell, Projection, Decision, first_valid, terminal_reason, rebuild_frontier, reduce, step,
  unstable, is_unstable, index_rows, compiler_fingerprint, first_fingerprint, fingerprint_at,
  identity_of, seen_by, admit_unseen, admit, judge, guardrail_failure, lookup, time_of, divide,
  is_admitted, improve_cells, beats, decide, remember, compare_primary, primary_verdict,
}
use gpu_infra.Frontier.Aggregated.{Written, rebuild_frontier-Written}
use gpu_infra.Frontier.Owned.{CellOk, rebuild_frontier-CellOk}
use gpu_infra.Frontier.Steps.{LtTrans, NoWorse, rebuild_frontier-decided, rebuild_frontier-NoWorse}
use gpu_infra.Examples.Data.{whole_floats, platform, task_json, gemm, entries}
use gpu_infra.Examples.Parsing.{task_parses, reports_validate}

abbrev result : RunResult ℕ
result = aggregate_run_result gemm "gemm-1" "digest" "candidate" entries none

abbrev candidates : List (String × RunResult ℕ)
candidates = ("gemm-1", result) ∷ []

abbrev small_cell : Cell ℕ
small_cell = record { run_id = "gemm-1"; candidate_ms = 2; baseline_ms = 6; speedup = 3 }

abbrev admitted : Decision
admitted = record {
  run_id = "gemm-1";
  decision = first_valid;
  reason = terminal_reason none;
  validity = valid;
  outcome = completed;
}

abbrev projection : Projection ℕ
projection = record {
  cells = ("small", small_cell) ∷ [];
  decisions = admitted ∷ [];
  seen_compiler = [];
}

eligible : result.frontier_eligible ≡ true
unfolding aggregate_run_result is_eligible all_stages_passed is_passed is_valid validity_of
    next_validity is_timed is_stable merge_results merge_rows merge_row any all get put
eligible = refl

rebuilt : rebuild_frontier gemm candidates ≡ ok projection
unfolding aggregate_run_result is_eligible all_stages_passed is_passed is_valid validity_of
    next_validity is_timed is_stable merge_results merge_rows merge_row merge_fingerprints
    update_dict any all get put sorted_rows insert_by sort_by rebuild_frontier reduce step unstable
    is_unstable index_rows compiler_fingerprint first_fingerprint fingerprint_at identity_of seen_by
    admit_unseen admit judge guardrail_failure lookup time_of divide is_admitted improve_cells beats
    decide remember outcome_of
rebuilt = refl

written : (c : String × RunResult ℕ) → In c candidates → Written gemm c.1
written c here = Written.reported "gemm-1" "digest" "candidate" entries none reports_validate
written c (there m) = elim m [ ]

in_order : InOrder gemm.stages entries
in_order = ((refl, refl), ((refl, refl), tt))

outcome-aggregate_example :
    ((result.outcome ≡ completed) ↔ AllRan gemm.stages entries)
    × (result.outcome ≡ completed → any reports_invalid entries ≡ false)
    × ((result.outcome ≡ rejected)
        ↔ ((result.outcome ≢ completed) × (any reports_invalid entries ≡ true)))
outcome-aggregate_example =
    outcome-aggregate gemm "gemm-1" "digest" "candidate" entries none reports_validate in_order

workloads-aggregate_example :
    Distinct (map (λ (row : Row ℕ). row.id) result.workloads)
    × ((row : Row ℕ) → In row result.workloads → RowOk gemm.workloads row)
workloads-aggregate_example =
    workloads-aggregate gemm "gemm-1" "digest" "candidate" entries none reports_validate

eligible-aggregate_example :
    (result.outcome ≡ completed)
    × (result.validity ≡ valid)
    × All (TimedIn result.workloads) gemm.workloads
    × ((row : Row ℕ) → In row result.workloads → row.stable ≢ some false)
eligible-aggregate_example =
    eligible-aggregate gemm "gemm-1" "digest" "candidate" entries none reports_validate eligible

rebuild_frontier-Written_example : Returns (rebuild_frontier gemm candidates)
rebuild_frontier-Written_example =
    rebuild_frontier-Written platform task_json "/task.json" gemm candidates task_parses written

rebuild_frontier-CellOk_example : All (CellOk gemm candidates) projection.cells
rebuild_frontier-CellOk_example = rebuild_frontier-CellOk gemm candidates projection rebuilt

rebuild_frontier-decided_example :
    map (λ d. d.run_id) projection.decisions ≡ map (λ c. c.0) candidates
rebuild_frontier-decided_example = rebuild_frontier-decided gemm candidates projection rebuilt

whole-LtTrans : LtTrans whole_floats
whole-LtTrans x y z h k = ground arith

rebuilt_again : Returns (rebuild_frontier gemm (candidates ++ candidates))
unfolding aggregate_run_result is_eligible all_stages_passed is_passed is_valid validity_of
    next_validity is_timed is_stable merge_results merge_rows merge_row merge_fingerprints
    update_dict any all get put sorted_rows insert_by sort_by rebuild_frontier reduce step unstable
    is_unstable index_rows compiler_fingerprint first_fingerprint fingerprint_at identity_of seen_by
    admit_unseen admit judge guardrail_failure compare_primary primary_verdict lookup time_of divide
    is_admitted improve_cells beats decide remember
rebuilt_again = (_, refl)

rebuild_frontier-NoWorse_example : NoWorse projection.cells rebuilt_again.0.cells
rebuild_frontier-NoWorse_example =
    rebuild_frontier-NoWorse gemm whole-LtTrans candidates candidates projection rebuilt_again.0
      rebuilt rebuilt_again.1
