-- ===== src/Frontier/Reduce.antt =====
-- The loop of `rebuild_frontier`, over the run ids and results that the store lists. The timestamp
-- and the writing of the projection are left out. A message is its constructor and what it names.
use Prim.Native.String
use gpu_infra.Prelude.{
  String, Bool, true, false, ◌&&◌, Option, none, some, List, [], ◌∷◌, ◌++◌, Dict, get, put, any,
  is_empty, Result, ok, err, ◌>>=◌, ◌==◌, if◌then◌else◌,
}
use gpu_infra.Json.{Json, str, Floats, Number, to_float}
use gpu_infra.Fault.{Fault, key_error, zero_division_error}
use gpu_infra.Contracts.Values.{float_or_overflow}
use gpu_infra.Contracts.Spec.{TaskSpec}
use gpu_infra.Results.Types.{Row, RunResult, Validity, Outcome}
use gpu_infra.Results.Aggregate.{is_valid}

pub record Cell (F : Type 0) : Type 0 where
  pub run_id : String
  pub candidate_ms : F
  pub baseline_ms : F
  pub speedup : F

pub data Verdict : Type 0 where
  ineligible measurement_unstable compiler_equivalent regresses_guardrail first_valid : Verdict
  per_cell_pareto improves_primary dominated : Verdict

pub data Reason : Type 0 where
  terminal_reason : Option String → Reason
  unstable_workload no_improvement : Reason
  same_compiler : String → String → Reason
  below_guardrail : String → Reason
  improves : List String → Reason
  improves_and_regresses : List String → List String → Reason

pub record Decision : Type 0 where
  pub run_id : String
  pub decision : Verdict
  pub reason : Reason
  pub validity : Validity
  pub outcome : Outcome

pub record Projection (F : Type 0) : Type 0 where
  pub cells : Dict (Cell F)
  pub decisions : List Decision
  pub seen_compiler : Dict String

-- `d[key]`
unfoldable pub lookup {ℓ} : {V : Type ℓ} → Dict V → String → Result Fault V
lookup d key = elim (get d key) [ none ↦ err (key_error key) | some v ↦ ok v ]

unfoldable pub primary_verdict : List String → List String → Verdict × Reason
primary_verdict [] regressed = (dominated, no_improvement)
primary_verdict improved [] = (improves_primary, improves improved)
primary_verdict improved regressed = (per_cell_pareto, improves_and_regresses improved regressed)

-- decisions that own cells
unfoldable pub is_admitted : Verdict → Bool
is_admitted first_valid = true
is_admitted improves_primary = true
is_admitted per_cell_pareto = true
is_admitted _ = false

-- `compiler_identity`
unfoldable pub identity_of : Option (String × String) → Option String
identity_of none = none
identity_of (some (key, value)) = some (String.◌++◌ key (String.◌++◌ ":" value))

-- `compiler[0]` of the message
unfoldable pub fingerprint_key : Option (String × String) → String
fingerprint_key none = ""
fingerprint_key (some (key, value)) = key

unfoldable pub seen_by : Dict String → Option String → Option String
seen_by seen none = none
seen_by seen (some identity) = get seen identity

-- `seen_compiler.setdefault(compiler_identity, run_id)`
unfoldable pub remember : Dict String → Option String → String → Dict String
remember seen none run_id = seen
remember seen (some identity) run_id = elim (get seen identity) [
  | none ↦ put seen identity run_id
  | some first ↦ seen
]

module _ {F : Type 0} where
  -- `{row["id"]: row for row in ...}`
  unfoldable pub index_rows : Dict (Row F) → List (Row F) → Dict (Row F)
  index_rows d [] = d
  index_rows d (row ∷ rows) = index_rows (put d row.id row) rows

  -- `row.get("stable") is False`
  unfoldable pub is_unstable : String × Row F → Bool
  is_unstable (w, row) = elim row.stable [ some false ↦ true | some true ↦ false | none ↦ false ]

  -- the first fingerprint of the three that is a text and not empty
  unfoldable pub fingerprint_at : Dict (Json F) → String → Option String
  fingerprint_at fingerprints key = elim (get fingerprints key) [
    | some (str value) ↦ if value == "" then none else some value
    | _ ↦ none
  ]

  unfoldable pub first_fingerprint : Dict (Json F) → List String → Option (String × String)
  first_fingerprint fingerprints [] = none
  first_fingerprint fingerprints (key ∷ rest) =
      let later = first_fingerprint fingerprints rest in
      elim (fingerprint_at fingerprints key) [ some value ↦ some (key, value) | none ↦ later ]

  unfoldable pub compiler_fingerprint : RunResult F → Option (String × String)
  compiler_fingerprint result =
      first_fingerprint result.fingerprints ("cubin_sha256" ∷ "sass_sha256" ∷ "binary_sha256" ∷ [])

  -- a valid result with a row that the judge marked unstable
  unfoldable pub unstable : RunResult F → Dict (Row F) → Bool
  unstable result rows = is_valid result.validity && any is_unstable rows

module _ {F : Type 0} ⦃fl : Floats F⦄ where
  -- `float(row["..."])`
  unfoldable pub time_of : Option (Number F) → Result Fault F
  time_of none = err (key_error "time")
  time_of (some n) = float_or_overflow (to_float n)

  -- `x / y`
  unfoldable pub divide : F → F → Result Fault F
  divide x y =
      if fl.le y (fl.lit 0) && fl.le (fl.lit 0) y then err zero_division_error else ok (fl.div x y)

  -- `_guardrail_failure`: the first guardrail that the rows miss
  unfoldable pub guardrail_failure : Dict F → Dict (Row F) → Result Fault (Option String)
  guardrail_failure [] rows = ok none
  guardrail_failure ((workload_id, threshold) ∷ rest) rows = do
    row ← lookup rows workload_id
    baseline_ms ← time_of row.baseline_ms
    candidate_ms ← time_of row.candidate_ms
    speedup ← divide baseline_ms candidate_ms
    let later = guardrail_failure rest rows
    if fl.lt speedup threshold then ok (some workload_id) else later

  -- the loop over the primary workloads: those improved and those regressed
  unfoldable pub compare_primary :
      F → Dict (Cell F) → Dict (Row F) → List String → Result Fault (List String × List String)
  compare_primary noise cells rows [] = ok ([], [])
  compare_primary noise cells rows (w ∷ ws) = elim (get cells w) [
    | none ↦ do
      (improved, regressed) ← compare_primary noise cells rows ws
      ok (w ∷ improved, regressed)
    | some current ↦ do
      row ← lookup rows w
      candidate_ms ← time_of row.candidate_ms
      (improved, regressed) ← compare_primary noise cells rows ws
      let best_ms = current.candidate_ms
      if fl.lt candidate_ms (fl.mul best_ms (fl.sub (fl.lit 1) noise))
          then ok (w ∷ improved, regressed)
          else if fl.lt (fl.mul best_ms (fl.add (fl.lit 1) noise)) candidate_ms
          then ok (improved, w ∷ regressed)
          else ok (improved, regressed)
  ]

  -- `current is None or candidate_ms < float(current["candidate_ms"])`
  unfoldable pub beats : F → Option (Cell F) → Bool
  beats candidate_ms none = true
  beats candidate_ms (some current) = fl.lt candidate_ms current.candidate_ms

  -- the loop that writes cells
  unfoldable pub improve_cells :
      String → Dict (Cell F) → List (String × Row F) → Result Fault (Dict (Cell F))
  improve_cells run_id cells [] = ok cells
  improve_cells run_id cells ((w, row) ∷ rest) = do
    candidate_ms ← time_of row.candidate_ms
    let kept = improve_cells run_id cells rest
    let better = (do
      baseline_ms ← time_of row.baseline_ms
      speedup ← divide baseline_ms candidate_ms
      improve_cells run_id
          (put cells w (record {
            run_id = run_id;
            candidate_ms = candidate_ms;
            baseline_ms = baseline_ms;
            speedup = speedup;
          }))
          rest)
    if beats candidate_ms (get cells w) then better else kept

  unfoldable pub judge :
      TaskSpec F → Dict (Cell F) → Dict (Row F) → Option String → Result Fault (Verdict × Reason)
  judge task cells rows reason = do
    failure ← guardrail_failure task.comparison.guardrails rows
    let compared = (do
      (improved, regressed) ←
          compare_primary task.comparison.relative_noise_floor cells rows
            task.comparison.primary_workloads
      ok (primary_verdict improved regressed))
    elim failure [
      | some w ↦ ok (regresses_guardrail, below_guardrail w)
      | none ↦ if is_empty cells then ok (first_valid, terminal_reason reason) else compared
    ]

  abbrev pub decision_of : String → RunResult F → Verdict → Reason → Decision
  decision_of run_id result verdict reason = record {
    run_id = run_id;
    decision = verdict;
    reason = reason;
    validity = result.validity;
    outcome = result.outcome;
  }

  unfoldable pub decide : Projection F → String → RunResult F → Verdict → Reason → Projection F
  decide p run_id result verdict reason = record p {
    decisions = p.decisions ++ decision_of run_id result verdict reason ∷ [];
  }

  -- an eligible result whose compiler output was not seen
  unfoldable pub admit :
      TaskSpec F
      → Projection F
      → String
      → Dict (Row F)
      → RunResult F
      → Option String
      → Result Fault (Projection F)
  admit task p run_id rows result identity = do
    (verdict, why) ← judge task p.cells rows result.terminal_reason
    cells ← if is_admitted verdict then improve_cells run_id p.cells rows else ok p.cells
    ok (
        decide
          (record p { cells = cells; seen_compiler = remember p.seen_compiler identity run_id })
          run_id result verdict why)

  -- `seen` is the run whose compiler output was the same
  unfoldable pub admit_unseen :
      TaskSpec F
      → Projection F
      → String
      → Dict (Row F)
      → RunResult F
      → Option (String × String)
      → Option String
      → Result Fault (Projection F)
  admit_unseen task p run_id rows result compiler none =
      admit task p run_id rows result (identity_of compiler)
  admit_unseen task p run_id rows result compiler (some first) =
      ok (
        decide p run_id result compiler_equivalent (same_compiler (fingerprint_key compiler) first))

  -- the body of the loop
  unfoldable pub step :
      TaskSpec F → Projection F → String → RunResult F → Result Fault (Projection F)
  step task p run_id result =
      let rows = index_rows [] result.workloads in
      let compiler = compiler_fingerprint result in
      if unstable result rows
      then ok (decide p run_id result measurement_unstable unstable_workload)
      else if result.frontier_eligible
      then admit_unseen task p run_id rows result compiler
          (seen_by p.seen_compiler (identity_of compiler))
      else ok (decide p run_id result ineligible (terminal_reason result.terminal_reason))

  unfoldable pub reduce :
      TaskSpec F → Projection F → List (String × RunResult F) → Result Fault (Projection F)
  reduce task p [] = ok p
  reduce task p ((run_id, result) ∷ rest) = do
    next ← step task p run_id result
    reduce task next rest

  abbrev pub blank : Projection F
  blank = record { cells = []; decisions = []; seen_compiler = [] }

  unfoldable pub rebuild_frontier :
      TaskSpec F → List (String × RunResult F) → Result Fault (Projection F)
  rebuild_frontier task candidates = reduce task blank candidates
