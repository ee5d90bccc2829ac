-- ===== src/Frontier/Cells.antt =====
-- What the cells of the frontier are: each is the time of an eligible run that met every guardrail,
-- and no later run makes one worse.
use mathlib.Core.Path.{subst}
use gpu_infra.Prelude.{
  ◌≡◌, refl, String, true, Option, none, some, List, [], ◌∷◌, Dict, get, put, All, In, here, there,
  All-put, arith, Bool-cases, inl, inr, Result, ok, >>=-eq-ok, if-eq-ok, ok-injective,
  if◌then◌else◌,
}
use gpu_infra.Json.{Floats}
use gpu_infra.Fault.{Fault}
use gpu_infra.Contracts.Spec.{TaskSpec}
use gpu_infra.Results.Types.{Row, RunResult}
use gpu_infra.Frontier.Reduce.{
  unstable, seen_by, identity_of, compiler_fingerprint, measurement_unstable, unstable_workload,
  ineligible, terminal_reason, Cell, Projection, Verdict, Reason, index_rows, time_of, divide,
  guardrail_failure, beats, improve_cells, judge, is_admitted, admit, admit_unseen, step, reduce,
  decide,
}

module _ {F : Type 0} ⦃fl : Floats F⦄ where
  -- The cell that a row of a run makes.
  pub record Made (run_id : String) (row : Row F) (cell : Cell F) : Type 0 where
    pub owner : cell.run_id ≡ run_id
    pub candidate_read : time_of row.candidate_ms ≡ ok cell.candidate_ms
    pub baseline_read : time_of row.baseline_ms ≡ ok cell.baseline_ms
    pub ratio : divide cell.baseline_ms cell.candidate_ms ≡ ok cell.speedup

  module _ (P : String × Cell F → Type 0) (run_id : String) where
    abbrev pub Makes : List (String × Row F) → Type 0
    Makes rows =
        (e : String × Row F) → In e rows → (cell : Cell F) → Made run_id e.1 cell → P (e.0, cell)

    abbrev cell_of : F → F → F → Cell F
    cell_of c b s = record { run_id = run_id; candidate_ms = c; baseline_ms = b; speedup = s }

    -- The rule for a property of single cells.
    improve_cells-All :
        (rows : List (String × Row F)) (cells cells' : Dict (Cell F))
        → Makes rows
        → All P cells
        → improve_cells run_id cells rows ≡ ok cells'
        → All P cells'
    unfolding improve_cells
    improve_cells-All [] cells cells' make h e = subst (All P) (ok-injective e) h
    improve_cells-All ((w, row) ∷ rows) cells cells' make h e =
        let (c, read_c, e1) = >>=-eq-ok (time_of row.candidate_ms) _ e in
        let make' : Makes rows = λ x m. make x (there m) in
        elim (Bool-cases (beats c (get cells w))) [
          | inr worse ↦ improve_cells-All rows cells cells' make' h (rw worse at e1)
          | inl better ↦
              let e2 = rw better at e1 in
              let (b, read_b, e3) = >>=-eq-ok (time_of row.baseline_ms) _ e2 in
              let (s, ratio, e4) = >>=-eq-ok (divide b c) _ e3 in
              improve_cells-All rows (put cells w (cell_of c b s)) cells' make'
                (All-put P cells w (cell_of c b s)
                  (make (w, row) here (cell_of c b s)
                    (record {
                      owner = refl;
                      candidate_read = read_c;
                      baseline_read = read_b;
                      ratio = ratio;
                    }))
                  h)
                e4
        ]

  judge_met_guardrails :
      (task : TaskSpec F) (cells : Dict (Cell F)) (rows : Dict (Row F)) (reason : Option String)
      (v : Verdict) (why : Reason)
      → judge task cells rows reason ≡ ok (v, why)
      → is_admitted v ≡ true
      → guardrail_failure task.comparison.guardrails rows ≡ ok none
  unfolding judge is_admitted
  judge_met_guardrails task cells rows reason v why h a = ground arith

  module _ (P : String × Cell F → Type 0) (task : TaskSpec F) (run_id : String)
      (result : RunResult F) where
    abbrev rows_of : Dict (Row F)
    rows_of = index_rows [] result.workloads

    -- an eligible run that meets the guardrails makes cells with the property
    abbrev pub Offers : Type 0
    Offers =
        result.frontier_eligible ≡ true
        → guardrail_failure task.comparison.guardrails rows_of ≡ ok none
        → Makes P run_id rows_of

    admit-All :
        (p p' : Projection F) (identity : Option String)
        → Offers
        → result.frontier_eligible ≡ true
        → All P p.cells
        → admit task p run_id rows_of result identity ≡ ok p'
        → All P p'.cells
    unfolding admit decide
    admit-All p p' identity offers eligible h e =
        let ((v, why), judged, e1) =
          >>=-eq-ok (judge task p.cells rows_of result.terminal_reason) _ e in
        let improved = improve_cells run_id p.cells rows_of in
        let choice = if is_admitted v then improved else ok p.cells in
        let (cells, wrote, e2) = >>=-eq-ok choice _ e1 in
        let same : cells ≡ p'.cells = ground arith in
        subst (All P) same (elim (if-eq-ok (is_admitted v) improved (ok p.cells) wrote) [
          | inl (a, done) ↦
              improve_cells-All P run_id rows_of p.cells cells
                (offers eligible
                  (judge_met_guardrails task p.cells rows_of result.terminal_reason v why judged a))
                h done
          | inr (a, done) ↦ subst (All P) (ok-injective done) h
        ])

    admit_unseen-All :
        (p p' : Projection F) (compiler : Option (String × String)) (seen : Option String)
        → Offers
        → result.frontier_eligible ≡ true
        → All P p.cells
        → admit_unseen task p run_id rows_of result compiler seen ≡ ok p'
        → All P p'.cells
    unfolding admit_unseen decide
    admit_unseen-All p p' compiler none offers eligible h e =
        admit-All p p' (identity_of compiler) offers eligible h e
    admit_unseen-All p p' compiler (some first) offers eligible h e =
        let same : p.cells ≡ p'.cells = ground arith in subst (All P) same h

    decide-All :
        (p p' : Projection F) (v : Verdict) (why : Reason)
        → All P p.cells
        → ◌≡◌ {A = Result Fault (Projection F)} (ok (decide p run_id result v why)) (ok p')
        → All P p'.cells
    unfolding decide
    decide-All p p' v why h e = let same : p.cells ≡ p'.cells = ground arith in subst (All P) same h

    step-All :
        (p p' : Projection F)
        → Offers
        → All P p.cells
        → step task p run_id result ≡ ok p'
        → All P p'.cells
    unfolding step
    step-All p p' offers h e =
        let compiler = compiler_fingerprint result in
        let seen = seen_by p.seen_compiler (identity_of compiler) in
        let admitted = admit_unseen task p run_id rows_of result compiler seen in
        let refused = decide p run_id result ineligible (terminal_reason result.terminal_reason) in
        let choice = if result.frontier_eligible then admitted else ok refused in
        let marked = decide p run_id result measurement_unstable unstable_workload in
        elim (if-eq-ok (unstable result rows_of) (ok marked) choice e) [
          | inl (_, done) ↦ decide-All p p' measurement_unstable unstable_workload h done
          | inr (_, rest) ↦ elim (if-eq-ok result.frontier_eligible admitted (ok refused) rest) [
            | inl (eligible, done) ↦ admit_unseen-All p p' compiler seen offers eligible h done
            | inr (_, done) ↦
                decide-All p p' ineligible (terminal_reason result.terminal_reason) h done
          ]
        ]

  module _ (P : String × Cell F → Type 0) (task : TaskSpec F) where
    pub reduce-All :
        (candidates : List (String × RunResult F)) (p p' : Projection F)
        → ((c : String × RunResult F) → In c candidates → Offers P task c.0 c.1)
        → All P p.cells
        → reduce task p candidates ≡ ok p'
        → All P p'.cells
    unfolding reduce
    reduce-All [] p p' offers h e = subst (λ (q : Projection F). All P q.cells) (ok-injective e) h
    reduce-All ((run_id, result) ∷ rest) p p' offers h e =
        let (next, first, later) = >>=-eq-ok (step task p run_id result) _ e in
        reduce-All rest next p' (λ c m. offers c (there m))
          (step-All P task run_id result p next (offers (run_id, result) here) h first) later
