-- ===== src/Frontier/Steps.antt =====
-- The runs that `rebuild_frontier` of src/kernel_infra/frontier.py goes through: a decision on each, and
-- cells that no later run makes worse.
use mathlib.Core.Path.{subst}
use gpu_infra.Prelude.{
  append_assoc, append_nil, ◌≡◌, refl, sym, ap, ◌∙◌, String, true, Option, none, some, List, [],
  ◌∷◌, ◌++◌, map, Dict, get, put, get-put, eq_iff, ◌==◌, arith, Bool-cases, ◌⊎◌, inl, inr, ok,
  >>=-eq-ok, if-eq-ok, ok-injective, if◌then◌else◌,
}
use gpu_infra.Json.{Floats}
use gpu_infra.Contracts.Spec.{TaskSpec}
use gpu_infra.Results.Types.{Row, RunResult}
use gpu_infra.Frontier.Reduce.{
  unstable, identity_of, Cell, Projection, Decision, Verdict, Reason, index_rows, time_of, divide,
  beats, improve_cells, judge, is_admitted, admit, admit_unseen, step, reduce, decide, decision_of,
  rebuild_frontier, blank,
}

map-append :
    {A : Type 0} {B : Type 0} (f : A → B) (xs ys : List A) → map f (xs ++ ys) ≡ map f xs ++ map f ys
map-append f [] ys = refl
map-append f (x ∷ xs) ys = ap (λ l. f x ∷ l) (map-append f xs ys)

-- What `<` of floats has: it is transitive, also where one of them is no number.
abbrev pub LtTrans : {F : Type 0} → Floats F → Type 0
LtTrans {F} fl = (x y z : F) → fl.lt x y ≡ true → fl.lt y z ≡ true → fl.lt x z ≡ true

module _ {F : Type 0} ⦃fl : Floats F⦄ where
  -- The cell is the same, or its time is below.
  abbrev pub UpTo : Cell F → Cell F → Type 0
  UpTo new old = (new ≡ old) ⊎ (fl.lt new.candidate_ms old.candidate_ms ≡ true)

  -- Every cell is still there, and none has become slower.
  abbrev pub NoWorse : Dict (Cell F) → Dict (Cell F) → Type 0
  NoWorse cells cells' =
      (w : String) (old : Cell F)
      → get cells w ≡ some old
      → (new : Cell F) × (get cells' w ≡ some new) × UpTo new old

  NoWorse-self : (cells : Dict (Cell F)) → NoWorse cells cells
  NoWorse-self cells w old h = (old, h, inl refl)

  UpTo-then : LtTrans fl → (a b c : Cell F) → UpTo a b → UpTo b c → UpTo a c
  UpTo-then trans a b c (inl e) k = subst (λ x. UpTo x c) (sym e) k
  UpTo-then trans a b c (inr h) (inl e) =
      inr (subst (λ x. fl.lt a.candidate_ms x.candidate_ms ≡ true) e h)
  UpTo-then trans a b c (inr h) (inr k) =
      inr (trans a.candidate_ms b.candidate_ms c.candidate_ms h k)

  NoWorse-then : LtTrans fl → (a b c : Dict (Cell F)) → NoWorse a b → NoWorse b c → NoWorse a c
  NoWorse-then trans a b c h k w old found =
      let (mid, there_is, below) = h w old found in
      let (new, there, further) = k w mid there_is in
      (new, there, UpTo-then trans new mid old further below)

  NoWorse-put :
      (cells : Dict (Cell F)) (w : String) (cell : Cell F)
      → beats cell.candidate_ms (get cells w) ≡ true
      → NoWorse cells (put cells w cell)
  unfolding beats
  NoWorse-put cells w cell better k old found = elim (Bool-cases (w == k)) [
    | inl e ↦
        let same = (eq_iff w k).0 e in
        let here_is : get cells w ≡ some old = rw same found in
        let less : fl.lt cell.candidate_ms old.candidate_ms ≡ true =
          ground (arith, better, here_is) in
        (cell, ground (arith, get-put cells w k cell, e), inr less)
    | inr e ↦ (old, ground (arith, get-put cells w k cell, e, found), inl refl)
  ]

  improve_cells-NoWorse :
      LtTrans fl
      → (run_id : String) (rows : List (String × Row F)) (cells cells' : Dict (Cell F))
      → improve_cells run_id cells rows ≡ ok cells'
      → NoWorse cells cells'
  unfolding improve_cells
  improve_cells-NoWorse trans run_id [] cells cells' h =
      subst (NoWorse cells) (ok-injective h) (NoWorse-self cells)
  improve_cells-NoWorse trans run_id ((w, row) ∷ rows) cells cells' h =
      let (c, read_c, h1) = >>=-eq-ok (time_of row.candidate_ms) _ h in
      elim (Bool-cases (beats c (get cells w))) [
        | inr worse ↦ improve_cells-NoWorse trans run_id rows cells cells' (rw worse at h1)
        | inl better ↦
            let h2 = rw better at h1 in
            let (b, read_b, h3) = >>=-eq-ok (time_of row.baseline_ms) _ h2 in
            let (s, ratio, h4) = >>=-eq-ok (divide b c) _ h3 in
            let cell : Cell F = record {
              run_id = run_id;
              candidate_ms = c;
              baseline_ms = b;
              speedup = s;
            } in
            NoWorse-then trans cells (put cells w cell) cells' (NoWorse-put cells w cell better)
              (improve_cells-NoWorse trans run_id rows (put cells w cell) cells' h4)
      ]

  -- One run was gone through: a decision on it came last, and no cell became worse.
  pub record Gone (run_id : String) (p p' : Projection F) : Type 0 where
    pub decision : Decision
    pub about : decision.run_id ≡ run_id
    pub last : p'.decisions ≡ p.decisions ++ (decision ∷ [])
    pub cells : LtTrans fl → NoWorse p.cells p'.cells

  decide-Gone :
      (run_id : String) (result : RunResult F) (p q : Projection F) (v : Verdict) (why : Reason)
      → q.decisions ≡ p.decisions
      → (LtTrans fl → NoWorse p.cells q.cells)
      → Gone run_id p (decide q run_id result v why)
  unfolding decide
  decide-Gone run_id result p q v why same cells = record {
    decision = decision_of run_id result v why;
    about = refl;
    last = ap (λ ds. ds ++ (decision_of run_id result v why ∷ [])) same;
    cells = cells;
  }

  module _ (task : TaskSpec F) (run_id : String) where
    admit-Gone :
        (p p' : Projection F) (rows : Dict (Row F)) (result : RunResult F)
        (identity : Option String)
        → admit task p run_id rows result identity ≡ ok p'
        → Gone run_id p p'
    unfolding admit
    admit-Gone p p' rows result identity h =
        let ((v, why), judged, h1) =
          >>=-eq-ok (judge task p.cells rows result.terminal_reason) _ h in
        let improved = improve_cells run_id p.cells rows in
        let (cells, wrote, h2) = >>=-eq-ok (if is_admitted v then improved else ok p.cells) _ h1 in
        let kept : LtTrans fl → NoWorse p.cells cells = (λ trans.
          elim (if-eq-ok (is_admitted v) improved (ok p.cells) wrote) [
            | inl (a, done) ↦ improve_cells-NoWorse trans run_id rows p.cells cells done
            | inr (a, done) ↦ subst (NoWorse p.cells) (ok-injective done) (NoWorse-self p.cells)
          ]) in
        subst (Gone run_id p) (ok-injective h2)
          (decide-Gone run_id result p _ v why refl (λ trans. kept trans))

    admit_unseen-Gone :
        (p p' : Projection F) (rows : Dict (Row F)) (result : RunResult F)
        (compiler : Option (String × String)) (seen : Option String)
        → admit_unseen task p run_id rows result compiler seen ≡ ok p'
        → Gone run_id p p'
    unfolding admit_unseen
    admit_unseen-Gone p p' rows result compiler none h =
        admit-Gone p p' rows result (identity_of compiler) h
    admit_unseen-Gone p p' rows result compiler (some first) h =
        subst (Gone run_id p) (ok-injective h)
          (decide-Gone run_id result p p _ _ refl (λ trans. NoWorse-self p.cells))

    step-Gone :
        (p p' : Projection F) (result : RunResult F)
        → step task p run_id result ≡ ok p'
        → Gone run_id p p'
    unfolding step
    step-Gone p p' result h =
        elim (if-eq-ok (unstable result (index_rows [] result.workloads)) _ _ h) [
          | inl (u, q) ↦
              subst (Gone run_id p) (ok-injective q)
                (decide-Gone run_id result p p _ _ refl (λ trans. NoWorse-self p.cells))
          | inr (u, q) ↦ elim (if-eq-ok result.frontier_eligible _ _ q) [
            | inl (e, r) ↦ admit_unseen-Gone p p' _ _ _ _ r
            | inr (e, r) ↦
                subst (Gone run_id p) (ok-injective r)
                  (decide-Gone run_id result p p _ _ refl (λ trans. NoWorse-self p.cells))
          ]
        ]

  module _ (task : TaskSpec F) where
    -- Runs were gone through, in order.
    abbrev AllGone : List (String × RunResult F) → Projection F → Projection F → Type 0
    AllGone candidates p q =
        (map (λ d. d.run_id) q.decisions
          ≡ map (λ d. d.run_id) p.decisions ++ map (λ c. c.0) candidates)
        × (LtTrans fl → NoWorse p.cells q.cells)

    reduce-gone :
        (candidates : List (String × RunResult F)) (p q : Projection F)
        → reduce task p candidates ≡ ok q
        → AllGone candidates p q
    unfolding reduce
    reduce-gone [] p q h =
        subst (AllGone [] p) (ok-injective h) (sym (append_nil _), λ trans. NoWorse-self p.cells)
    reduce-gone ((run_id, result) ∷ rest) p q h =
        let (next, stepped, h1) = >>=-eq-ok (step task p run_id result) _ h in
        let g = step-Gone task run_id p next result stepped in
        let (later, cells) = reduce-gone rest next q h1 in
        let ids : map (λ d. d.run_id) next.decisions
            ≡ map (λ d. d.run_id) p.decisions ++ (run_id ∷ []) =
          ap (map (λ d. d.run_id)) g.last
          ∙ (map-append (λ d. d.run_id) p.decisions (g.decision ∷ [])
              ∙ ap (λ id. map (λ d. d.run_id) p.decisions ++ (id ∷ [])) g.about) in
        (
          later
              ∙ (ap (λ l. l ++ map (λ c. c.0) rest) ids
                  ∙ append_assoc (map (λ d. d.run_id) p.decisions) (run_id ∷ []) _),
          λ trans. NoWorse-then trans p.cells next.cells q.cells (g.cells trans) (cells trans),
        )

    reduce-append :
        (candidates more : List (String × RunResult F)) (p q : Projection F)
        → reduce task p candidates ≡ ok q
        → reduce task p (candidates ++ more) ≡ reduce task q more
    unfolding reduce
    reduce-append [] more p q h = ap (λ x. reduce task x more) (ok-injective h)
    reduce-append ((run_id, result) ∷ rest) more p q h =
        let (next, stepped, h1) = >>=-eq-ok (step task p run_id result) _ h in
        rw stepped (reduce-append rest more next q h1)

    -- A frontier has one decision on each candidate, in order.
    pub rebuild_frontier-decided :
        (candidates : List (String × RunResult F)) (p : Projection F)
        → rebuild_frontier task candidates ≡ ok p
        → map (λ d. d.run_id) p.decisions ≡ map (λ c. c.0) candidates
    unfolding rebuild_frontier
    rebuild_frontier-decided candidates p h = (reduce-gone candidates blank p h).0

    -- With more runs after those of a frontier, and a transitive order of floats, every cell is still
    -- there, and is the same or has a smaller time.
    pub rebuild_frontier-NoWorse :
        LtTrans fl
        → (candidates more : List (String × RunResult F)) (p q : Projection F)
        → rebuild_frontier task candidates ≡ ok p
        → rebuild_frontier task (candidates ++ more) ≡ ok q
        → NoWorse p.cells q.cells
    unfolding rebuild_frontier
    rebuild_frontier-NoWorse trans candidates more p q h k =
        (reduce-gone more p q (sym (reduce-append candidates more blank p h) ∙ k)).1 trans
