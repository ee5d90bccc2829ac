-- ===== src/Results/Merged.antt =====
-- The merged rows of a run: one per workload id, declared by the task, with usable times.
use mathlib.Core.Path.{subst}
use gpu_infra.Prelude.{
  ◌≡◌, refl, String, true, not, Option, none, some, List, [], ◌∷◌, Dict, get, put, keys, mem,
  or_else, All, All-at, In, Distinct, In-get, All-put, Distinct-keys-put, mem-In, ok, >>=-eq-ok,
  guard-bind-eq-ok, ok-injective, each, false, is_empty, arith, Option-cases, inl, inr,
}
use gpu_infra.Json.{Json, Floats, Number, num, to_float}
use gpu_infra.Contracts.Values.{positive_finite, float_or_overflow, expect_list}
use gpu_infra.Results.Types.{Row, StageResult, StageEntry}
use gpu_infra.Results.Validate.{
  optional, finite_positive, parse_samples, declared_id, validate_workload, validate_workloads,
  validate_stage_result,
}
use gpu_infra.Results.Aggregate.{update_row, merge_row, merge_rows, merge_results}
use gpu_infra.Results.Verdict.{Validated}

module _ {F : Type 0} ⦃fl : Floats F⦄ where
  -- A time that is there is a positive finite float.
  abbrev pub TimeOk : Option (Number F) → Type 0
  TimeOk none = Unit
  TimeOk (some n) = (x : F) × (to_float n ≡ some x) × (positive_finite x ≡ true)

  -- So is every sample of a list that is there, and there is one.
  abbrev pub SamplesOk : Option (List (Number F)) → Type 0
  SamplesOk none = Unit
  SamplesOk (some ns) = (is_empty ns ≡ false) × All (λ n. TimeOk (some n)) ns

  pub record RowOk (workloads : List String) (row : Row F) : Type 0 where
    pub declared : In row.id workloads
    pub candidate : TimeOk row.candidate_ms
    pub baseline : TimeOk row.baseline_ms
    pub faster : TimeOk row.speedup
    pub candidate_samples : SamplesOk row.candidate_samples_ms
    pub baseline_samples : SamplesOk row.baseline_samples_ms

  float_or_overflow-some : (o : Option F) (x : F) → float_or_overflow o ≡ ok x → o ≡ some x
  float_or_overflow-some o x h = ground arith

  finite_positive-TimeOk : (v : Json F) (n : Number F) → finite_positive v ≡ ok n → TimeOk (some n)
  unfolding finite_positive
  finite_positive-TimeOk (num m) n h =
      let (x, e, h1) = >>=-eq-ok (float_or_overflow (to_float m)) _ h in
      let (p, h2) = guard-bind-eq-ok (positive_finite x) _ _ h1 in
      subst (λ (k : Number F). TimeOk (some k)) (ok-injective h2)
        (x, float_or_overflow-some (to_float m) x e, p)
  finite_positive-TimeOk _ n h = cc

  each-TimeOk :
      (vs : List (Json F)) (ns : List (Number F))
      → each finite_positive vs ≡ ok ns
      → (is_empty ns ≡ is_empty vs) × All (λ n. TimeOk (some n)) ns
  unfolding each
  each-TimeOk [] ns h =
      subst (λ (ns : List (Number F)). (is_empty ns ≡ true) × All (λ n. TimeOk (some n)) ns)
        (ok-injective h) (refl, tt)
  each-TimeOk (v ∷ vs) ns h =
      let (n, e, h1) = >>=-eq-ok (finite_positive v) _ h in
      let (rest, e', h2) = >>=-eq-ok (each finite_positive vs) _ h1 in
      subst (λ (ns : List (Number F)). (is_empty ns ≡ false) × All (λ n. TimeOk (some n)) ns)
        (ok-injective h2) (refl, (finite_positive-TimeOk v n e, (each-TimeOk vs rest e').1))

  parse_samples-SamplesOk :
      (v : Json F) (ns : List (Number F)) → parse_samples v ≡ ok ns → SamplesOk (some ns)
  unfolding parse_samples
  parse_samples-SamplesOk v ns h =
      let (vs, e, h1) = >>=-eq-ok (expect_list v "must be a non-empty list") _ h in
      let (some_sample, h2) = guard-bind-eq-ok (not (is_empty vs)) _ _ h1 in
      let (as_long, samples) = each-TimeOk vs ns h2 in
      (ground (arith, as_long, some_sample), samples)

  optional-SamplesOk :
      (d : Dict (Json F)) (k : String) (o : Option (List (Number F)))
      → optional d k parse_samples ≡ ok o
      → SamplesOk o
  unfolding optional
  optional-SamplesOk d k o h = grind (arith, parse_samples-SamplesOk)

  optional-TimeOk :
      (d : Dict (Json F)) (k : String) (o : Option (Number F))
      → optional d k finite_positive ≡ ok o
      → TimeOk o
  unfolding optional
  optional-TimeOk d k o h = grind (arith, finite_positive-TimeOk)

  declared_id-In :
      (workloads : List String) (o : Option (Json F)) (s : String)
      → declared_id workloads o ≡ ok s
      → In s workloads
  unfolding declared_id
  declared_id-In workloads o s h = grind (arith, mem-In)

  validate_workload-RowOk :
      (workloads : List String) (v : Json F) (row : Row F)
      → validate_workload workloads v ≡ ok row
      → RowOk workloads row
  unfolding validate_workload
  validate_workload-RowOk workloads v row h =
      grind (arith, optional-TimeOk, optional-SamplesOk, declared_id-In)

  validate_workloads-RowOk :
      (workloads seen : List String) (vs : List (Json F)) (rows : List (Row F))
      → validate_workloads workloads seen vs ≡ ok rows
      → All (RowOk workloads) rows
  unfolding validate_workloads
  validate_workloads-RowOk workloads seen [] rows h =
      subst (All (RowOk workloads)) (ok-injective h) tt
  validate_workloads-RowOk workloads seen (v ∷ vs) rows h =
      let (row, e, h1) = >>=-eq-ok (validate_workload workloads v) _ h in
      let (_, h2) = guard-bind-eq-ok (not (mem row.id seen)) _ _ h1 in
      let (rest, e', h3) = >>=-eq-ok (validate_workloads workloads (row.id ∷ seen) vs) _ h2 in
      subst (All (RowOk workloads)) (ok-injective h3) (
        validate_workload-RowOk workloads v row e,
        validate_workloads-RowOk workloads (row.id ∷ seen) vs rest e',
      )

  validate_stage_result-RowOk :
      (workloads : List String) (v : Json F) (r : StageResult F)
      → validate_stage_result workloads v ≡ ok r
      → All (RowOk workloads) r.workloads
  unfolding validate_stage_result
  validate_stage_result-RowOk workloads v r h = grind (arith, validate_workloads-RowOk)

  or_else-TimeOk : (a b : Option (Number F)) → TimeOk a → TimeOk b → TimeOk (or_else a b)
  or_else-TimeOk none b ha hb = hb
  or_else-TimeOk (some x) b ha hb = ha

  or_else-SamplesOk :
      (a b : Option (List (Number F))) → SamplesOk a → SamplesOk b → SamplesOk (or_else a b)
  or_else-SamplesOk none b ha hb = hb
  or_else-SamplesOk (some x) b ha hb = ha

  update_row-RowOk :
      (workloads : List String) (old row : Row F)
      → RowOk workloads old
      → RowOk workloads row
      → RowOk workloads (update_row old row)
  unfolding update_row
  update_row-RowOk workloads old row ho hr = record {
    declared = hr.declared;
    candidate = or_else-TimeOk row.candidate_ms old.candidate_ms hr.candidate ho.candidate;
    baseline = or_else-TimeOk row.baseline_ms old.baseline_ms hr.baseline ho.baseline;
    faster = or_else-TimeOk row.speedup old.speedup hr.faster ho.faster;
    candidate_samples =
        or_else-SamplesOk row.candidate_samples_ms old.candidate_samples_ms hr.candidate_samples
          ho.candidate_samples;
    baseline_samples =
        or_else-SamplesOk row.baseline_samples_ms old.baseline_samples_ms hr.baseline_samples
          ho.baseline_samples;
  }

  -- The merged rows are keyed by their ids, once each, and are fit for timing.
  abbrev pub EntryOk : List String → String × Row F → Type 0
  EntryOk workloads e = (e.1.id ≡ e.0) × RowOk workloads e.1

  pub record MergedOk (workloads : List String) (d : Dict (Row F)) : Type 0 where
    pub own_keys : Distinct (keys d)
    pub entries : All (EntryOk workloads) d

  put-MergedOk :
      (workloads : List String) (d : Dict (Row F)) (k : String) (row : Row F)
      → row.id ≡ k
      → RowOk workloads row
      → MergedOk workloads d
      → MergedOk workloads (put d k row)
  put-MergedOk workloads d k row e h m = record {
    own_keys = Distinct-keys-put d k row m.own_keys;
    entries = All-put (EntryOk workloads) d k row (e, h) m.entries;
  }

  merge_row-MergedOk :
      (workloads : List String) (d : Dict (Row F)) (row : Row F)
      → RowOk workloads row
      → MergedOk workloads d
      → MergedOk workloads (merge_row d row)
  unfolding merge_row
  merge_row-MergedOk workloads d row h m = elim (Option-cases (get d row.id)) [
    | inl e ↦ rw (e, merge_row) (put-MergedOk workloads d row.id row refl h m)
    | inr (old, e) ↦
        let old_ok = All-at (EntryOk workloads) m.entries (In-get d row.id old e) in
        rw (e, merge_row)
          (put-MergedOk workloads d row.id (update_row old row) (unfold update_row in refl)
            (update_row-RowOk workloads old row old_ok.1 h) m)
  ]

  merge_rows-MergedOk :
      (workloads : List String) (rows : List (Row F)) (d : Dict (Row F))
      → All (RowOk workloads) rows
      → MergedOk workloads d
      → MergedOk workloads (merge_rows d rows)
  unfolding merge_rows
  merge_rows-MergedOk workloads [] d h m = m
  merge_rows-MergedOk workloads (row ∷ rows) d h m =
      merge_rows-MergedOk workloads rows (merge_row d row) h.1
        (merge_row-MergedOk workloads d row h.0 m)

  merge_results-MergedOk :
      (workloads : List String) (es : List (StageEntry F)) (d : Dict (Row F))
      → All (Validated workloads) es
      → MergedOk workloads d
      → MergedOk workloads (merge_results d es)
  unfolding merge_results
  merge_results-MergedOk workloads [] d h m = m
  merge_results-MergedOk workloads (e ∷ es) d h m =
      merge_results-MergedOk workloads es (merge_rows d e.result.workloads) h.1 (
        merge_rows-MergedOk workloads e.result.workloads d
          (validate_stage_result-RowOk workloads h.0.0 e.result h.0.1) m)

  pub merged_ok :
      (workloads : List String) (es : List (StageEntry F))
      → All (Validated workloads) es
      → MergedOk workloads (merge_results [] es)
  merged_ok workloads es h =
      merge_results-MergedOk workloads es [] h (record { own_keys = tt; entries = tt })
