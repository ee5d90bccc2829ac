-- ===== src/Frontier/Owned.antt =====
-- Where the cells of the frontier come from.
use mathlib.Core.Path.{subst}
use gpu_infra.Prelude.{
  ◌≡◌, refl, sym, String, true, false, none, some, List, [], ◌∷◌, Dict, get, put, keys, All, All-at,
  In, Distinct, Distinct-keys-put, get_of_In, In-cons, arith, ok, inl, inr,
}
use gpu_infra.Json.{Floats}
use gpu_infra.Contracts.Spec.{TaskSpec}
use gpu_infra.Results.Types.{Row, RunResult}
use gpu_infra.Frontier.Reduce.{
  Cell, Projection, index_rows, guardrail_failure, rebuild_frontier, blank,
}
use gpu_infra.Frontier.Total.{All-index_rows, lookup-some}
use gpu_infra.Frontier.Cells.{Made, Offers, reduce-All}

module _ {F : Type 0} where
  Distinct-index_rows :
      (rows : List (Row F)) (d : Dict (Row F))
      → Distinct (keys d)
      → Distinct (keys (index_rows d rows))
  unfolding index_rows
  Distinct-index_rows [] d h = h
  Distinct-index_rows (row ∷ rows) d h =
      Distinct-index_rows rows (put d row.id row) (Distinct-keys-put d row.id row h)

  abbrev FromRows : List (Row F) → String × Row F → Type 0
  FromRows rows e = (e.1.id ≡ e.0) × In e.1 rows

  indexed_from : (rows : List (Row F)) → All (FromRows rows) (index_rows [] rows)
  indexed_from rows = All-index_rows (FromRows rows) rows [] tt (λ row m. (refl, m))

module _ {F : Type 0} ⦃fl : Floats F⦄ where
  -- The run, and the row of its result, that a cell was taken from.
  pub record CellOk (task : TaskSpec F) (candidates : List (String × RunResult F))
      (e : String × Cell F) : Type 0 where
    pub result : RunResult F
    pub listed : In (e.1.run_id, result) candidates
    pub eligible : result.frontier_eligible ≡ true
    pub row : Row F
    pub measured : In row result.workloads
    pub named : row.id ≡ e.0
    pub made : Made e.1.run_id row e.1
    pub guarded : (t : F) → In (e.0, t) task.comparison.guardrails → fl.lt e.1.speedup t ≡ false

  guardrail_rest :
      (v : String) (u : F) (guards : Dict F) (rows : Dict (Row F))
      → guardrail_failure ((v, u) ∷ guards) rows ≡ ok none
      → guardrail_failure guards rows ≡ ok none
  unfolding guardrail_failure
  guardrail_rest v u guards rows h = ground arith

  guardrail_met :
      (guards : Dict F) (rows : Dict (Row F)) (w run_id : String) (t : F) (row : Row F)
      (cell : Cell F)
      → guardrail_failure guards rows ≡ ok none
      → In (w, t) guards
      → get rows w ≡ some row
      → Made run_id row cell
      → fl.lt cell.speedup t ≡ false
  unfolding guardrail_failure
  guardrail_met [] rows w run_id t row cell h m found made = elim m [ ]
  guardrail_met ((v, u) ∷ guards) rows w run_id t row cell h m found made = elim (In-cons m) [
    | inl same ↦ ground (arith, lookup-some rows w row found, made)
    | inr n ↦
        guardrail_met guards rows w run_id t row cell (guardrail_rest v u guards rows h) n found
          made
  ]

  -- Every cell of a rebuilt frontier comes from a listed, eligible run: its times are those of that
  -- run's row for the workload, and its speedup misses no guardrail of the workload.
  pub rebuild_frontier-CellOk :
      (task : TaskSpec F) (candidates : List (String × RunResult F)) (p : Projection F)
      → rebuild_frontier task candidates ≡ ok p
      → All (CellOk task candidates) p.cells
  unfolding rebuild_frontier
  rebuild_frontier-CellOk task candidates p e =
      reduce-All (CellOk task candidates) task candidates blank p offers tt e
    where
      offers :
          (c : String × RunResult F)
          → In c candidates
          → Offers (CellOk task candidates) task c.0 c.1
      offers c listed eligible met entry m cell made =
          let rows = index_rows [] c.1.workloads in
          let own = Distinct-index_rows c.1.workloads [] tt in
          let (named, measured) = All-at (FromRows c.1.workloads) (indexed_from c.1.workloads) m in
          record {
            result = c.1;
            listed = subst (λ r. In (r, c.1) candidates) (sym made.owner) listed;
            eligible = eligible;
            row = entry.1;
            measured = measured;
            named = named;
            made = record {
              owner = refl;
              candidate_read = made.candidate_read;
              baseline_read = made.baseline_read;
              ratio = made.ratio;
            };
            guarded = λ t g.
                guardrail_met task.comparison.guardrails rows entry.0 c.0 t entry.1 cell met g
                  (get_of_In rows entry.0 entry.1 own m) made;
          }
