-- ===== src/Fleet/Planned.antt =====
-- The rounds of `plan_batch_nodes` of src/kernel_infra/fleet.py.
use gpu_infra.Prelude.{
  ℕ, ◌+◌, ◌≤◌, zero, suc, String, false, not, some, List, [], ◌∷◌, map, Dict, get, ltb, length,
  count_by, ◌≡◌, refl, sym, ap, ◌∙◌, All-at, In, In-map, In-map_rev, inl, inr, ok, >>=-eq-ok,
  ok-injective, guard-bind-eq-ok, arith,
}
use mathlib.Core.Path.{subst}
use gpu_infra.Json.{Floats}
use gpu_infra.Fleet.Types.{FleetNode, FleetCatalog}
use gpu_infra.Fleet.Selection.{
  NodeStatus, Observation, NodeDecision, Needs, rank_lt, nodes_by_id, select_node, Choice,
}
use gpu_infra.Fleet.Fits.{nodes_by_id-In}
use gpu_infra.Fleet.Batch.{
  max_candidates, Assignment, eligible_ids, bump, Candidate, observed_by_id, candidate_lt, least_of,
  projected, rank_all, assign, plan_loop, plan_batch_nodes,
}
use gpu_infra.Fleet.Plan.{
  share, Tallied, Tallied-bump, Ranked, rank_all-Ranked, observed_candidate, least_of-least,
}

keys-bump :
    (id : String) (assigned : List (String × ℕ))
    → map (λ e. e.0) (bump id assigned) ≡ map (λ e. e.0) assigned
unfolding bump
keys-bump id [] = refl
keys-bump id (e ∷ assigned) = ap (λ xs. e.0 ∷ xs) (keys-bump id assigned)

keys-zero : (ids : List String) → map (λ (e : String × ℕ). e.0) (map (λ id. (id, 0)) ids) ≡ ids
keys-zero [] = refl
keys-zero (id ∷ ids) = ap (λ xs. id ∷ xs) (keys-zero ids)

Tallied-zero :
    (F : Type 0) ⦃fl : Floats F⦄ (ids : List String) → Tallied {F = F} [] (map (λ id. (id, 0)) ids)
unfolding count_by
Tallied-zero F [] = tt
Tallied-zero F (id ∷ ids) = (refl, Tallied-zero F ids)

module _ {F : Type 0} ⦃fl : Floats F⦄ (by_id : Dict FleetNode) (observed : Dict (Observation F))
    (ids : List String) where
  -- One assignment, after those of `before`.
  pub record Turn (before : List (Assignment F)) (a : Assignment F) : Type 0 where
    pub index : a.index ≡ length before
    pub eligible : In a.node.node_id ids
    pub counted : a.assigned_before ≡ share before a.node.node_id
    pub status : NodeStatus F
    pub seen : a.observation.node ≡ some status
    pub ranked : a.projected_rank ≡ projected a.node status a.assigned_before
    pub least :
        (id : String) (node : FleetNode) (o : Observation F) (s : NodeStatus F)
        → In id ids
        → get by_id id ≡ some node
        → get observed id ≡ some o
        → o.node ≡ some s
        → rank_lt (projected node s (share before id)) a.projected_rank ≡ false

  abbrev pub Turns : List (Assignment F) → List (Assignment F) → Type 0
  Turns before [] = Unit
  Turns before (a ∷ later) = Turn before a × Turns (a ∷ before) later

  assign-Turn :
      (before : List (Assignment F)) (index : ℕ) (assigned : List (String × ℕ))
      (ranked : List (Candidate F)) (best : Candidate F)
      → ((id : String) (n : FleetNode) → get by_id id ≡ some n → n.node_id ≡ id)
      → index ≡ length before
      → map (λ e. e.0) assigned ≡ ids
      → Tallied before assigned
      → rank_all by_id observed assigned ≡ ok ranked
      → least_of ranked ≡ ok best
      → Turn before (assign index best)
  assign-Turn before index assigned ranked best named at same tallied all chosen =
      let (m, least) = least_of-least by_id observed ranked best chosen in
      let r =
        All-at (Ranked by_id observed assigned) (rank_all-Ranked by_id observed assigned ranked all)
          m in
      let id_ok = named r.id best.node r.named in
      let entry_id : In r.id ids = subst (In r.id) same (In-map (λ e. e.0) r.entry) in
      let count = All-at (λ e. e.1 ≡ share before e.0) tallied r.entry in
      record {
        index = at;
        eligible = subst (λ i. In i ids) (sym id_ok) entry_id;
        counted = subst (λ i. best.assigned_before ≡ share before i) (sym id_ok) count;
        status = r.status;
        seen = r.seen;
        ranked = r.ranked;
        least = λ id node o s i e q k.
            let ((j, n), inside, same_id) =
              In-map_rev (λ e. e.0) assigned (subst (In id) (sym same) i) in
            let there_is = subst (λ x. In x assigned) (ap (λ x. (x, n)) same_id) inside in
            let counted = All-at (λ e. e.1 ≡ share before e.0) tallied there_is in
            let candidate =
              observed_candidate by_id observed assigned ranked all id n there_is node o s e q k in
            let below = All-at (λ d. candidate_lt d best ≡ false) least candidate in
            subst (λ c. rank_lt (projected node s c) best.rank ≡ false) counted below;
      }

  plan_loop-Turns :
      (n index : ℕ) (assigned : List (String × ℕ)) (before later : List (Assignment F))
      → ((id : String) (n : FleetNode) → get by_id id ≡ some n → n.node_id ≡ id)
      → index ≡ length before
      → map (λ e. e.0) assigned ≡ ids
      → Tallied before assigned
      → plan_loop by_id observed n index assigned ≡ ok later
      → (length later ≡ n) × Turns before later
  unfolding plan_loop
  plan_loop-Turns zero index assigned before later named at same tallied h =
      subst (λ later. (length later ≡ 0) × Turns before later) (ok-injective h) (refl, tt)
  plan_loop-Turns (suc n) index assigned before later named at same tallied h =
      let (ranked, all, h1) = >>=-eq-ok (rank_all by_id observed assigned) _ h in
      let (best, chosen, h2) = >>=-eq-ok (least_of ranked) _ h1 in
      let (rest, more, h3) =
        >>=-eq-ok (plan_loop by_id observed n (index + 1) (bump best.node.node_id assigned)) _ h2 in
      let a : Assignment F = assign index best in
      let turn = assign-Turn before index assigned ranked best named at same tallied all chosen in
      let (count, turns) =
        plan_loop-Turns n (index + 1) (bump best.node.node_id assigned) (a ∷ before) rest named
          (omega (arith, at)) (keys-bump best.node.node_id assigned ∙ same)
          (Tallied-bump before a best.node.node_id assigned refl tallied) more in
      subst (λ later. (length later ≡ suc n) × Turns before later) (ok-injective h3)
        (ap suc count, (turn, turns))

module _ {F : Type 0} ⦃fl : Floats F⦄ where
  by_id-named :
      (catalog : FleetCatalog F) (id : String) (n : FleetNode)
      → get (nodes_by_id catalog.nodes []) id ≡ some n
      → n.node_id ≡ id
  unfolding get
  by_id-named catalog id n h = elim (nodes_by_id-In catalog.nodes [] id n h) [
    | inl q ↦ q.1
    | inr q ↦ absurd cc
  ]

  -- What a plan is: as many assignments as were asked for, within the limit.
  pub record Planned (catalog : FleetCatalog F) (observations : List (Observation F))
      (needs : Needs) (count : ℕ) (assignments : List (Assignment F))
      (decisions : List NodeDecision) : Type 0 where
    pub choice : Choice F
    pub selected : select_node catalog observations needs ≡ ok (choice, decisions)
    pub enough : length assignments ≡ count
    pub some_asked : 1 ≤ count
    pub within : count ≤ max_candidates
    pub turns :
        Turns
          (nodes_by_id catalog.nodes [])
          (observed_by_id observations [])
          (eligible_ids decisions)
          []
          assignments

  -- A plan has one assignment for each of 1 to 64 candidates; each goes to a node that was found
  -- eligible, is numbered by its place, knows how many went to that node before, and has a projected
  -- rank that no eligible node's is below.
  pub plan_batch_nodes-Planned :
      (catalog : FleetCatalog F) (observations : List (Observation F)) (needs : Needs) (count : ℕ)
      (out : List (Assignment F) × List NodeDecision)
      → plan_batch_nodes catalog observations needs count ≡ ok out
      → Planned catalog observations needs count out.0 out.1
  unfolding plan_batch_nodes
  plan_batch_nodes-Planned catalog observations needs count out h =
      let (positive, h1) = guard-bind-eq-ok (not (ltb count 1)) _ _ h in
      let (small, h2) = guard-bind-eq-ok (not (ltb max_candidates count)) _ _ h1 in
      let (found, selected, h3) = >>=-eq-ok (select_node catalog observations needs) _ h2 in
      let ids = eligible_ids found.1 in
      let (assignments, looped, h4) =
        >>=-eq-ok
          (plan_loop (nodes_by_id catalog.nodes []) (observed_by_id observations []) count 0
            (map (λ id. (id, 0)) ids))
          _ h3 in
      let (enough, turns) =
        plan_loop-Turns (nodes_by_id catalog.nodes []) (observed_by_id observations []) ids count 0
          (map (λ id. (id, 0)) ids) [] assignments (by_id-named catalog) refl (keys-zero ids)
          (Tallied-zero F ids) looped in
      subst (λ out. Planned catalog observations needs count out.0 out.1) (ok-injective h4)
        (record {
          choice = found.0;
          selected = selected;
          enough = enough;
          some_asked = ground (arith, positive);
          within = ground (arith, small);
          turns = turns;
        })
