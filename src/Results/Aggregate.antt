-- ===== src/Results/Aggregate.antt =====
-- `aggregate_run_result` of src/kernel_infra/results.py.
use gpu_infra.Prelude.{
  ℕ, String, Bool, true, false, not, ◌&&◌, Option, none, some, List, [], ◌∷◌, map, Dict, get, put,
  length, eqb, is_some, is_empty, or_else, option_or, all, sort_by, text_lt, if◌then◌else◌,
}
use gpu_infra.Json.{Json}
use gpu_infra.Contracts.Spec.{TaskSpec}
use gpu_infra.Results.Types.{
  Status, passed, failed, Validity, valid, invalid, unknown, Row, StageEntry, Outcome, completed,
  rejected, infra_error, StageSummary, RunResult,
}

unfoldable pub is_passed : Status → Bool
is_passed passed = true
is_passed failed = false

unfoldable pub is_valid : Validity → Bool
is_valid valid = true
is_valid _ = false

unfoldable pub is_invalid : Validity → Bool
is_invalid invalid = true
is_invalid _ = false

-- the three tests of the loop: `invalid` stays, and otherwise the last stage speaks
unfoldable pub next_validity : Validity → Validity → Validity
next_validity validity invalid = invalid
next_validity invalid reported = invalid
next_validity validity valid = valid
next_validity validity unknown = unknown

unfoldable pub validity_of : {F : Type 0} → Validity → List (StageEntry F) → Validity
validity_of validity [] = validity
validity_of validity (e ∷ es) = validity_of (next_validity validity e.result.validity) es

-- `d.update(other)`
unfoldable pub update_dict {ℓ} : {V : Type ℓ} → Dict V → Dict V → Dict V
update_dict d [] = d
update_dict d ((k, v) ∷ rest) = update_dict (put d k v) rest

unfoldable pub outcome_of : Bool → Validity → Outcome
outcome_of all_passed validity =
    if all_passed then completed else if is_invalid validity then rejected else infra_error

module _ {F : Type 0} where
  -- `row.update(newer)`
  unfoldable pub update_row : Row F → Row F → Row F
  update_row row newer = record {
    id = newer.id;
    correct = or_else newer.correct row.correct;
    candidate_ms = or_else newer.candidate_ms row.candidate_ms;
    baseline_ms = or_else newer.baseline_ms row.baseline_ms;
    candidate_samples_ms = or_else newer.candidate_samples_ms row.candidate_samples_ms;
    baseline_samples_ms = or_else newer.baseline_samples_ms row.baseline_samples_ms;
    stable = or_else newer.stable row.stable;
    speedup = or_else newer.speedup row.speedup;
    notes = or_else newer.notes row.notes;
  }

  -- `merged.setdefault(row["id"], {}).update(row)`
  unfoldable pub merge_row : Dict (Row F) → Row F → Dict (Row F)
  merge_row merged row = elim (get merged row.id) [
    | none ↦ put merged row.id row
    | some old ↦ put merged row.id (update_row old row)
  ]

  unfoldable pub merge_rows : Dict (Row F) → List (Row F) → Dict (Row F)
  merge_rows merged [] = merged
  merge_rows merged (row ∷ rows) = merge_rows (merge_row merged row) rows

  unfoldable pub merge_results : Dict (Row F) → List (StageEntry F) → Dict (Row F)
  merge_results merged [] = merged
  merge_results merged (e ∷ es) = merge_results (merge_rows merged e.result.workloads) es

  unfoldable pub merge_fingerprints : Dict (Json F) → List (StageEntry F) → Dict (Json F)
  merge_fingerprints d [] = d
  merge_fingerprints d (e ∷ es) =
      merge_fingerprints (update_dict d (option_or e.result.fingerprints [])) es

  -- `if result.get("metrics")`: a missing and an empty object count as false
  unfoldable pub merge_metrics : Dict (Dict (Json F)) → List (StageEntry F) → Dict (Dict (Json F))
  merge_metrics d [] = d
  merge_metrics d (e ∷ es) =
      let found = option_or e.result.metrics [] in
      merge_metrics (if is_empty found then d else put d e.stage_id found) es

  unfoldable pub summary_of : StageEntry F → StageSummary
  summary_of e = record {
    id = e.stage_id;
    kind = e.stage_kind;
    status = e.result.status;
    validity = e.result.validity;
    summary = option_or e.result.summary "";
  }

  unfoldable pub all_stages_passed : ℕ → List (StageEntry F) → Bool
  all_stages_passed stages entries =
      not (is_empty entries)
      && (eqb (length entries) stages && all (λ e. is_passed e.result.status) entries)

  -- `"candidate_ms" in row and "baseline_ms" in row`
  unfoldable pub is_timed : Option (Row F) → Bool
  is_timed none = false
  is_timed (some row) = is_some row.candidate_ms && is_some row.baseline_ms

  unfoldable pub is_stable : Row F → Bool
  is_stable row = option_or row.stable true

  -- `[merged[key] for key in sorted(merged)]`
  unfoldable pub sorted_rows : Dict (Row F) → List (Row F)
  sorted_rows merged = map (λ e. e.1) (sort_by (λ a b. text_lt a.0 b.0) merged)

  unfoldable pub is_eligible : TaskSpec F → List (StageEntry F) → Bool
  is_eligible task entries =
      let merged = merge_results [] entries in
      all_stages_passed (length task.stages) entries
      && (is_valid (validity_of unknown entries)
          && (all (λ w. is_timed (get merged w)) task.workloads && all (λ e. is_stable e.1) merged))

  unfoldable pub aggregate_run_result :
      TaskSpec F → String → String → String → List (StageEntry F) → Option String → RunResult F
  aggregate_run_result task run_id task_digest candidate_digest entries terminal_reason = record {
    run_id = run_id;
    task_id = task.task_id;
    task_sha256 = task_digest;
    candidate_sha256 = candidate_digest;
    outcome =
        outcome_of (all_stages_passed (length task.stages) entries) (validity_of unknown entries);
    validity = validity_of unknown entries;
    frontier_eligible = is_eligible task entries;
    terminal_reason = terminal_reason;
    stages = map summary_of entries;
    workloads = sorted_rows (merge_results [] entries);
    fingerprints = merge_fingerprints [] entries;
    metrics = merge_metrics [] entries;
  }
