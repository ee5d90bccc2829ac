-- ===== src/Frontier/Total.antt =====
-- The frontier of well-formed results: no lookup, no conversion and no division in it can fail.
use mathlib.Core.Path.{subst}
use gpu_infra.Prelude.{
  ◌≡◌, refl, sym, ◌∙◌, String, true, Option, none, some, List, [], ◌∷◌, map, Dict, get, put, All,
  All-at, All-of_In, In, here, there, Distinct, All-put, get-put, get-put_self, ◌==◌, In-cons,
  eq_iff, arith, Option-cases, Bool-cases, inl, inr, is_empty, ok, Returns, Returns-bind,
  Returns-if, if◌then◌else◌,
}
use gpu_infra.Json.{Floats, Number}
use gpu_infra.Contracts.Values.{positive_finite}
use gpu_infra.Contracts.Spec.{TaskSpec}
use gpu_infra.Contracts.TaskSound.{TaskOk, GuardOk}
use gpu_infra.Results.Types.{Row, RunResult}
use gpu_infra.Results.Merged.{RowOk, TimeOk}
use gpu_infra.Results.Eligible.{Timed, TimedIn}
use gpu_infra.Frontier.Reduce.{
  unstable, seen_by, admit_unseen, identity_of, compiler_equivalent, same_compiler, fingerprint_key,
  compiler_fingerprint, measurement_unstable, unstable_workload, ineligible, blank, Cell,
  Projection, index_rows, lookup, time_of, divide, guardrail_failure, compare_primary, beats,
  improve_cells, judge, is_admitted, primary_verdict, first_valid, regresses_guardrail,
  below_guardrail, terminal_reason, remember, admit, step, reduce, rebuild_frontier, decide,
}

pub lookup-some {ℓ} :
    {V : Type ℓ} (d : Dict V) (k : String) (v : V) → get d k ≡ some v → lookup d k ≡ ok v
unfolding lookup
lookup-some d k v e = rw (e, lookup)

module _ {F : Type 0} where
  abbrev pub row_ids : List (Row F) → List String
  row_ids rows = map (λ (row : Row F). row.id) rows

  pub All-index_rows {ν} :
      (P : String × Row F → Type ν) (rows : List (Row F)) (d : Dict (Row F))
      → All P d
      → ((row : Row F) → In row rows → P (row.id, row))
      → All P (index_rows d rows)
  unfolding index_rows
  All-index_rows P [] d h k = h
  All-index_rows P (row ∷ rows) d h k =
      All-index_rows P rows (put d row.id row) (All-put P d row.id row (k row here) h)
        (λ r m. k r (there m))

  get-index_rows_miss :
      (w : String) (rows : List (Row F)) (d : Dict (Row F))
      → ¬ In w (row_ids rows)
      → get (index_rows d rows) w ≡ get d w
  unfolding index_rows
  get-index_rows_miss w [] d h = refl
  get-index_rows_miss w (row ∷ rows) d h =
      get-index_rows_miss w rows (put d row.id row) (λ m. h (there m)) ∙ other
    where
      other : get (put d row.id row) w ≡ get d w
      other = elim (Bool-cases (row.id == w)) [
        | inl e ↦ absurd (h (rw ((eq_iff row.id w).0 e) here))
        | inr e ↦ get-put d row.id w row ∙ (rw e)
      ]

  pub get-index_rows :
      (row : Row F) (rows : List (Row F)) (d : Dict (Row F))
      → Distinct (row_ids rows)
      → In row rows
      → get (index_rows d rows) row.id ≡ some row
  unfolding index_rows
  get-index_rows row [] d h m = elim m [ ]
  get-index_rows row (r ∷ rows) d h m = elim (In-cons m) [
    | inl e ↦
        subst (λ (x : Row F). get (index_rows (put d r.id r) rows) x.id ≡ some x) (sym e)
          (get-index_rows_miss r.id rows (put d r.id r) h.0 ∙ get-put_self d r.id r)
    | inr n ↦ get-index_rows row rows (put d r.id r) h.1 n
  ]

module _ {F : Type 0} ⦃fl : Floats F⦄ where
  -- What the frontier needs of a result: rows with distinct declared ids and good times, and, if it
  -- is eligible, both times for every workload of the task.
  pub record ResultOk (task : TaskSpec F) (result : RunResult F) : Type 0 where
    pub own_ids : Distinct (row_ids result.workloads)
    pub rows_ok : (row : Row F) → In row result.workloads → RowOk task.workloads row
    pub complete : result.frontier_eligible ≡ true → All (TimedIn result.workloads) task.workloads

  -- Both times of a row as floats.
  pub record Usable (row : Row F) : Type 0 where
    pub candidate : F
    pub baseline : F
    pub candidate_read : time_of row.candidate_ms ≡ ok candidate
    pub baseline_read : time_of row.baseline_ms ≡ ok baseline
    pub candidate_good : positive_finite candidate ≡ true

  time_of-TimeOk :
      (o : Option (Number F)) (n : Number F)
      → o ≡ some n
      → TimeOk o
      → (x : F) × (time_of o ≡ ok x) × (positive_finite x ≡ true)
  unfolding time_of
  time_of-TimeOk none n e h = cc
  time_of-TimeOk (some m) n e h = (h.0, rw h.1, h.2)

  Timed-Usable :
      (workloads : List String) (row : Row F) → RowOk workloads row → Timed row → Usable row
  Timed-Usable workloads row h t =
      let (c, read_c, good) = time_of-TimeOk row.candidate_ms t.0.0 t.0.1 h.candidate in
      let (b, read_b, _) = time_of-TimeOk row.baseline_ms t.1.0 t.1.1 h.baseline in
      record {
        candidate = c;
        baseline = b;
        candidate_read = read_c;
        baseline_read = read_b;
        candidate_good = good;
      }

  -- A row that the lookup of a workload finds.
  abbrev pub Found : Dict (Row F) → String → Type 0
  Found rows w = (row : Row F) × (get rows w ≡ some row) × Usable row

  divide-good : (x y : F) → positive_finite y ≡ true → divide x y ≡ ok (fl.div x y)
  unfolding divide
  divide-good x y h = ground arith

  guardrail_failure-Returns :
      (guards : Dict F) (rows : Dict (Row F))
      → All (λ e. Found rows e.0) guards
      → Returns (guardrail_failure guards rows)
  unfolding guardrail_failure
  guardrail_failure-Returns [] rows h = (none, refl)
  guardrail_failure-Returns ((w, threshold) ∷ guards) rows h =
      let (row, found, u) = h.0 in
      let (later, e) = guardrail_failure-Returns guards rows h.1 in
      let s = fl.div u.baseline u.candidate in
      (
        if fl.lt s threshold then some w else later,
        ground (
          arith,
          lookup-some rows w row found,
          u.baseline_read,
          u.candidate_read,
          divide-good u.baseline u.candidate u.candidate_good,
          e,
        ),
      )

  compare_primary-Returns :
      (noise : F) (cells : Dict (Cell F)) (rows : Dict (Row F)) (ws : List String)
      → All (Found rows) ws
      → Returns (compare_primary noise cells rows ws)
  unfolding compare_primary
  compare_primary-Returns noise cells rows [] h = (([], []), refl)
  compare_primary-Returns noise cells rows (w ∷ ws) h =
      let (row, found, u) = h.0 in
      let ((improved, regressed), e) = compare_primary-Returns noise cells rows ws h.1 in
      elim (Option-cases (get cells w)) [
        | inl new ↦ ((w ∷ improved, regressed), ground (arith, e))
        | inr (current, old) ↦
            let best = current.candidate_ms in
            (
              if fl.lt u.candidate (fl.mul best (fl.sub (fl.lit 1) noise))
                  then (w ∷ improved, regressed)
                  else if fl.lt (fl.mul best (fl.add (fl.lit 1) noise)) u.candidate
                  then (improved, w ∷ regressed)
                  else (improved, regressed),
              ground (arith, lookup-some rows w row found, u.candidate_read, e),
            )
      ]

  abbrev new_cell : String → F → F → Cell F
  new_cell run_id c b = record {
    run_id = run_id;
    candidate_ms = c;
    baseline_ms = b;
    speedup = fl.div b c;
  }

  improve_cells-Returns :
      (run_id : String) (cells : Dict (Cell F)) (rows : List (String × Row F))
      → All (λ e. Usable e.1) rows
      → Returns (improve_cells run_id cells rows)
  unfolding improve_cells
  improve_cells-Returns run_id cells [] h = (cells, refl)
  improve_cells-Returns run_id cells ((w, row) ∷ rows) h =
      let u = h.0 in
      let (kept, e) = improve_cells-Returns run_id cells rows h.1 in
      let (better, e') =
        improve_cells-Returns run_id (put cells w (new_cell run_id u.candidate u.baseline)) rows
          h.1 in
      (
        if beats u.candidate (get cells w) then better else kept,
        ground (
          arith,
          u.candidate_read,
          u.baseline_read,
          divide-good u.baseline u.candidate u.candidate_good,
          e,
          e',
        ),
      )

  module _ (task : TaskSpec F) (task_ok : TaskOk task) (result : RunResult F)
      (result_ok : ResultOk task result) (eligible : result.frontier_eligible ≡ true) where
    abbrev indexed : Dict (Row F)
    indexed = index_rows [] result.workloads

    hit_one : (w : String) → TimedIn result.workloads w → Found indexed w
    hit_one w (row, member, named, timed) = (
      row,
      subst (λ x. get indexed x ≡ some row) named
          (get-index_rows row result.workloads [] result_ok.own_ids member),
      Timed-Usable task.workloads row (result_ok.rows_ok row member) timed,
    )

    found : (w : String) → In w task.workloads → Found indexed w
    found w m = hit_one w (All-at (TimedIn result.workloads) (result_ok.complete eligible) m)

    hit_guards : All (λ e. Found indexed e.0) task.comparison.guardrails
    hit_guards =
        All-of_In (λ e. Found indexed e.0) task.comparison.guardrails
          (λ e m. found e.0 (All-at (GuardOk task.workloads) task_ok.comparable.guarded m).0)

    hit_primary : All (Found indexed) task.comparison.primary_workloads
    hit_primary =
        All-of_In (Found indexed) task.comparison.primary_workloads
          (λ w m. found w (All-at (λ v. In v task.workloads) task_ok.comparable.declared m))

    good_row : (row : Row F) → In row result.workloads → Usable row
    good_row row m =
        let (other, e, u) = found row.id (result_ok.rows_ok row m).declared in
        let both : some other ≡ some row =
          sym e ∙ get-index_rows row result.workloads [] result_ok.own_ids m in
        let same : other ≡ row = cc in subst Usable same u

    good_rows : All (λ e. Usable e.1) indexed
    good_rows = All-index_rows (λ e. Usable e.1) result.workloads [] tt good_row

    judge-Returns :
        (cells : Dict (Cell F)) (reason : Option String) → Returns (judge task cells indexed reason)
    unfolding judge
    judge-Returns cells reason =
        let (failure, e) =
          guardrail_failure-Returns task.comparison.guardrails indexed hit_guards in
        let ((improved, regressed), e') =
          compare_primary-Returns task.comparison.relative_noise_floor cells indexed
            task.comparison.primary_workloads hit_primary in
        (
          elim failure [
            | some w ↦ (regresses_guardrail, below_guardrail w)
            | none ↦
                if is_empty cells
                then (first_valid, terminal_reason reason)
                else primary_verdict improved regressed
          ],
          ground (arith, e, e'),
        )

    admit-Returns :
        (p : Projection F) (run_id : String) (from : RunResult F) (identity : Option String)
        → Returns (admit task p run_id indexed from identity)
    unfolding admit
    admit-Returns p run_id from identity =
        let ((verdict, why), e) = judge-Returns p.cells from.terminal_reason in
        let (cells, e') = improve_cells-Returns run_id p.cells indexed good_rows in
        (
          decide
              (record p {
                cells = if is_admitted verdict then cells else p.cells;
                seen_compiler = remember p.seen_compiler identity run_id;
              })
              run_id from verdict why,
          ground (arith, e, e'),
        )

    admit_unseen-Returns :
        (p : Projection F) (run_id : String) (from : RunResult F)
        (compiler : Option (String × String)) (seen : Option String)
        → Returns (admit_unseen task p run_id indexed from compiler seen)
    unfolding admit_unseen
    admit_unseen-Returns p run_id from compiler none =
        admit-Returns p run_id from (identity_of compiler)
    admit_unseen-Returns p run_id from compiler (some first) = (
      decide p run_id from compiler_equivalent (same_compiler (fingerprint_key compiler) first),
      refl,
    )

  step-Returns :
      (task : TaskSpec F) (p : Projection F) (run_id : String) (result : RunResult F)
      → TaskOk task
      → ResultOk task result
      → Returns (step task p run_id result)
  unfolding step
  step-Returns task p run_id result task_ok result_ok =
      let rows = index_rows [] result.workloads in
      let compiler = compiler_fingerprint result in
      let seen = seen_by p.seen_compiler (identity_of compiler) in
      let marked = decide p run_id result measurement_unstable unstable_workload in
      let refused = decide p run_id result ineligible (terminal_reason result.terminal_reason) in
      let admitted = admit_unseen task p run_id rows result compiler seen in
      Returns-if (unstable result rows) (ok marked)
        (if result.frontier_eligible then admitted else ok refused) (λ e. (marked, refl))
        (λ e.
          Returns-if result.frontier_eligible admitted (ok refused)
            (λ eligible.
              admit_unseen-Returns task task_ok result result_ok eligible p run_id result compiler
                seen)
            (λ e. (refused, refl)))

  reduce-Returns :
      (task : TaskSpec F) (candidates : List (String × RunResult F)) (p : Projection F)
      → TaskOk task
      → All (λ c. ResultOk task c.1) candidates
      → Returns (reduce task p candidates)
  unfolding reduce
  reduce-Returns task [] p task_ok h = (p, refl)
  reduce-Returns task ((run_id, result) ∷ rest) p task_ok h =
      Returns-bind (step task p run_id result) (λ next. reduce task next rest)
        (step-Returns task p run_id result task_ok h.0)
        (λ next e. reduce-Returns task rest next task_ok h.1)

  -- Over a well-formed task and results that the aggregation made, the rebuild never raises.
  pub rebuild_frontier-Returns :
      (task : TaskSpec F) (candidates : List (String × RunResult F))
      → TaskOk task
      → All (λ c. ResultOk task c.1) candidates
      → Returns (rebuild_frontier task candidates)
  unfolding rebuild_frontier
  rebuild_frontier-Returns task candidates task_ok h =
      reduce-Returns task candidates blank task_ok h
