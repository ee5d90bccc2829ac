-- ===== src/Results/Eligible.antt =====
-- What a frontier-eligible result offers to the frontier.
use gpu_infra.Prelude.{
  ◌≡◌, ◌≢◌, refl, String, Bool, true, false, Option, none, some, List, [], ◌∷◌, map, Dict, get,
  keys, length, All, All-at, All-of_In, In, Distinct, In-get, In-map_rev, In-map, In-sort_by_rev,
  In-sort_by, Distinct-sort_by, sort_by, text_lt, all, all-All, arith, is_some,
}
use gpu_infra.Json.{Floats, Number}
use gpu_infra.Contracts.Spec.{TaskSpec}
use gpu_infra.Results.Types.{Validity, valid, unknown, Row, StageEntry, completed}
use gpu_infra.Results.Aggregate.{
  is_valid, validity_of, all_stages_passed, outcome_of, is_timed, is_stable, sorted_rows,
  is_eligible, merge_results, aggregate_run_result,
}
use gpu_infra.Results.Verdict.{Validated}
use gpu_infra.Results.Merged.{RowOk, MergedOk, EntryOk, merged_ok}

is_valid-valid : (v : Validity) → is_valid v ≡ true → v ≡ valid
unfolding is_valid
is_valid-valid v h = ground arith

module _ {F : Type 0} ⦃fl : Floats F⦄ where
  -- Both times of the row are there.
  abbrev pub Timed : Row F → Type 0
  Timed row =
      ((c : Number F) × (row.candidate_ms ≡ some c)) × ((b : Number F) × (row.baseline_ms ≡ some b))

  -- A row of the list for this workload, with both times.
  abbrev pub TimedIn : List (Row F) → String → Type 0
  TimedIn rows w = (row : Row F) × In row rows × (row.id ≡ w) × Timed row

  abbrev row_lt : String × Row F → String × Row F → Bool
  row_lt a b = text_lt a.0 b.0

  In-sorted_rows : {e : String × Row F} (d : Dict (Row F)) → In e d → In e.1 (sorted_rows d)
  unfolding sorted_rows
  In-sorted_rows d m = In-map (λ (e : String × Row F). e.1) (In-sort_by row_lt d m)

  In-sorted_rows_rev :
      {row : Row F} (d : Dict (Row F))
      → In row (sorted_rows d)
      → (e : String × Row F) × In e d × (e.1 ≡ row)
  unfolding sorted_rows
  In-sorted_rows_rev d m =
      let (e, k, q) = In-map_rev (λ (e : String × Row F). e.1) (sort_by row_lt d) m in
      (e, In-sort_by_rev row_lt d k, q)

  present : (o : Option (Number F)) → is_some o ≡ true → (n : Number F) × (o ≡ some n)
  present none h = cc
  present (some n) h = (n, refl)

  is_timed-some :
      (o : Option (Row F)) → is_timed o ≡ true → (row : Row F) × (o ≡ some row) × Timed row
  unfolding is_timed
  is_timed-some none h = cc
  is_timed-some (some row) h =
      (row, refl, (present row.candidate_ms (ground arith), present row.baseline_ms (ground arith)))

  timed_row :
      (workloads : List String) (d : Dict (Row F)) (w : String)
      → MergedOk workloads d
      → is_timed (get d w) ≡ true
      → TimedIn (sorted_rows d) w
  timed_row workloads d w m h =
      let (row, found, times) = is_timed-some (get d w) h in
      let member = In-get d w row found in
      (row, In-sorted_rows d member, (All-at (EntryOk workloads) m.entries member).0, times)

  ids-eq-keys :
      (workloads : List String) (es : List (String × Row F))
      → All (EntryOk workloads) es
      → map (λ (row : Row F). row.id) (map (λ (e : String × Row F). e.1) es) ≡ keys es
  ids-eq-keys workloads [] h = refl
  ids-eq-keys workloads (e ∷ es) h = cc (h.0.0, ids-eq-keys workloads es h.1)

  ids-Distinct :
      (workloads : List String) (d : Dict (Row F))
      → MergedOk workloads d
      → Distinct (map (λ (row : Row F). row.id) (sorted_rows d))
  unfolding sorted_rows
  ids-Distinct workloads d m =
      rw
        (ids-eq-keys workloads (sort_by row_lt d) (
          All-of_In (EntryOk workloads) (sort_by row_lt d)
            (λ e k. All-at (EntryOk workloads) m.entries (In-sort_by_rev row_lt d k))))
        (Distinct-sort_by row_lt (λ (e : String × Row F). e.0) d m.own_keys)

  stable_row : (row : Row F) → is_stable row ≡ true → row.stable ≢ some false
  unfolding is_stable
  stable_row row h e = ground arith

  timed_rows :
      (workloads ws : List String) (d : Dict (Row F))
      → MergedOk workloads d
      → All (λ w. is_timed (get d w) ≡ true) ws
      → All (TimedIn (sorted_rows d)) ws
  timed_rows workloads [] d m h = tt
  timed_rows workloads (w ∷ ws) d m h =
      (timed_row workloads d w m h.0, timed_rows workloads ws d m h.1)

module _ {F : Type 0} ⦃fl : Floats F⦄ (task : TaskSpec F)
    (run_id task_digest candidate_digest : String) (entries : List (StageEntry F))
    (reason : Option String) (validated : All (Validated task.workloads) entries) where
  -- The rows of a result carry distinct ids, each declared by the task; every time, sample and speedup
  -- in them is a positive finite float, and a list of samples is not empty.
  pub workloads-aggregate :
      let r = aggregate_run_result task run_id task_digest candidate_digest entries reason in
      Distinct (map (λ (row : Row F). row.id) r.workloads)
      × ((row : Row F) → In row r.workloads → RowOk task.workloads row)
  unfolding aggregate_run_result
  workloads-aggregate =
      let d = merge_results [] entries in
      let m = merged_ok task.workloads entries validated in
      (
        ids-Distinct task.workloads d m,
        λ row k.
            let (e, member, q) = In-sorted_rows_rev d k in
            rw (← q) (All-at (EntryOk task.workloads) m.entries member).1,
      )

  abbrev Parts : Type 0
  Parts =
      (all_stages_passed (length task.stages) entries ≡ true)
      × (is_valid (validity_of unknown entries) ≡ true)
      × (all (λ w. is_timed (get (merge_results [] entries) w)) task.workloads ≡ true)
      × (all (λ (e : String × Row F). is_stable e.1) (merge_results [] entries) ≡ true)

  eligible_parts : is_eligible task entries ≡ true → Parts
  unfolding is_eligible
  eligible_parts h = ground arith

  -- A result is eligible for the frontier only if the run completed validly, every workload of the
  -- task has a row with both times, and no row is marked unstable.
  pub eligible-aggregate :
      let r = aggregate_run_result task run_id task_digest candidate_digest entries reason in
      r.frontier_eligible ≡ true
      → (r.outcome ≡ completed)
        × (r.validity ≡ valid)
        × All (TimedIn r.workloads) task.workloads
        × ((row : Row F) → In row r.workloads → row.stable ≢ some false)
  unfolding aggregate_run_result outcome_of
  eligible-aggregate h =
      let d = merge_results [] entries in
      let (ran, valid_run, timed, stable) = eligible_parts h in
      (
        rw ran,
        is_valid-valid _ valid_run,
        timed_rows task.workloads task.workloads d (merged_ok task.workloads entries validated)
            (all-All (λ w. is_timed (get d w)) task.workloads timed),
        λ row k.
            let (e, member, q) = In-sorted_rows_rev d k in
            rw (← q) (
              stable_row e.1 (
                All-at (λ (e : String × Row F). is_stable e.1 ≡ true)
                  (all-All (λ (e : String × Row F). is_stable e.1) d stable) member)),
      )
