-- ===== src/Fleet/Plan.antt =====
-- What `plan_batch_nodes` of src/kernel_infra/fleet.py plans.
use gpu_infra.Prelude.{
  ℕ, ◌+◌, String, false, Option, none, some, List, [], ◌∷◌, Dict, get, count_by, ◌≡◌, refl, sym, ap,
  ◌∙◌, All, In, here, there, In-cons, inl, inr, Bool-cases, Option-cases, if◌then◌else◌, ok,
  >>=-eq-ok, ok-injective, arith, eq_iff, eq_refl, ◌==◌, IsOrder, In-first_min, first_min-All,
}
use mathlib.Core.Path.{subst}
use gpu_infra.Json.{Floats}
use gpu_infra.Fleet.Types.{FleetNode}
use gpu_infra.Fleet.Selection.{NodeStatus, Observation, node_at}
use gpu_infra.Fleet.Fits.{some-injective, node_at-eq-ok}
use gpu_infra.Fleet.Chosen.{rank_lt_irrefl, rank_lt_trans}
use gpu_infra.Fleet.Batch.{
  Assignment, bump, Candidate, observation_at, status_of, candidate_lt, least_of, projected,
  rank_all,
}

module _ {F : Type 0} ⦃fl : Floats F⦄ where
  -- how many of the assignments went to the node
  abbrev pub share : List (Assignment F) → String → ℕ
  share assignments id = count_by (λ a. a.node.node_id == id) assignments

  -- The shares are what was counted.
  abbrev pub Tallied : List (Assignment F) → List (String × ℕ) → Type 0
  Tallied before assigned = All (λ e. e.1 ≡ share before e.0) assigned

  bump-step :
      (before : List (Assignment F)) (a : Assignment F) (id i : String) (k : ℕ)
      → a.node.node_id ≡ id
      → k ≡ share before i
      → (if i == id then k + 1 else k) ≡ share (a ∷ before) i
  unfolding count_by
  bump-step before a id i k e h = elim (Bool-cases (i == id)) [
    | inl q ↦ ground (arith, q, (eq_iff i id).0 q, e, h, eq_refl id)
    | inr q ↦ ground (arith, q, (eq_iff a.node.node_id i).0, (eq_iff i id).1, e, h)
  ]

  pub Tallied-bump :
      (before : List (Assignment F)) (a : Assignment F) (id : String) (assigned : List (String × ℕ))
      → a.node.node_id ≡ id
      → Tallied before assigned
      → Tallied (a ∷ before) (bump id assigned)
  unfolding bump
  Tallied-bump before a id [] e h = tt
  Tallied-bump before a id ((i, k) ∷ assigned) e h =
      (bump-step before a id i k e h.0, Tallied-bump before a id assigned e h.1)

  candidate_lt-IsOrder : IsOrder (candidate_lt {F = F})
  candidate_lt-IsOrder = record {
    irrefl = λ x. rank_lt_irrefl x.rank;
    trans = λ x y z. rank_lt_trans x.rank y.rank z.rank;
  }

  module _ (by_id : Dict FleetNode) (observed : Dict (Observation F)) where
    -- The candidate of an entry of `assigned`.
    pub record Ranked (assigned : List (String × ℕ)) (c : Candidate F) : Type 0 where
      pub id : String
      pub entry : In (id, c.assigned_before) assigned
      pub named : get by_id id ≡ some c.node
      pub status : NodeStatus F
      pub seen : c.observation.node ≡ some status
      pub ranked : c.rank ≡ projected c.node status c.assigned_before

    status_of-eq-ok :
        (o : Option (NodeStatus F)) (s : NodeStatus F) → status_of o ≡ ok s → o ≡ some s
    unfolding status_of
    status_of-eq-ok none s h = cc
    status_of-eq-ok (some t) s h = ap some (ok-injective h)

    Ranked-there :
        (e : String × ℕ) (assigned : List (String × ℕ)) (cs : List (Candidate F))
        → All (Ranked assigned) cs
        → All (Ranked (e ∷ assigned)) cs
    Ranked-there e assigned [] h = tt
    Ranked-there e assigned (c ∷ cs) h = (
      record {
        id = h.0.id;
        entry = there h.0.entry;
        named = h.0.named;
        status = h.0.status;
        seen = h.0.seen;
        ranked = h.0.ranked;
      },
      Ranked-there e assigned cs h.1,
    )

    pub rank_all-Ranked :
        (assigned : List (String × ℕ)) (cs : List (Candidate F))
        → rank_all by_id observed assigned ≡ ok cs
        → All (Ranked assigned) cs
    unfolding rank_all
    rank_all-Ranked [] cs h = subst (All (Ranked [])) (ok-injective h) tt
    rank_all-Ranked ((id, k) ∷ assigned) cs h =
        let (node, at, h1) = >>=-eq-ok (node_at by_id id) _ h in
        let (o, seen, h2) = >>=-eq-ok (observation_at observed id) _ h1 in
        let (status, known, h3) = >>=-eq-ok (status_of o.node) _ h2 in
        let (rest, later, h4) = >>=-eq-ok (rank_all by_id observed assigned) _ h3 in
        subst (All (Ranked ((id, k) ∷ assigned))) (ok-injective h4) (
          record {
            id = id;
            entry = here;
            named = node_at-eq-ok by_id id node at;
            status = status;
            seen = status_of-eq-ok o.node status known;
            ranked = refl;
          },
          Ranked-there (id, k) assigned rest (rank_all-Ranked assigned rest later),
        )

    -- the candidate that the loop makes
    abbrev pub candidate_of : FleetNode → Observation F → NodeStatus F → ℕ → Candidate F
    candidate_of node o status k = record {
      rank = projected node status k;
      node = node;
      observation = o;
      assigned_before = k;
    }

    observation_at-eq-ok :
        (id : String) (o : Observation F)
        → observation_at observed id ≡ ok o
        → get observed id ≡ some o
    unfolding observation_at
    observation_at-eq-ok id o h = elim (Option-cases (get observed id)) [
      | inl e ↦ absurd (ground (arith, e, h))
      | inr (p, e) ↦ e ∙ ap some (ground (arith, e, h))
    ]

    same_candidate :
        (id i : String) (k j : ℕ) (node node' : FleetNode) (o o' : Observation F)
        (status status' : NodeStatus F)
        → ◌≡◌ {A = String × ℕ} (id, k) (i, j)
        → get by_id id ≡ some node
        → get by_id i ≡ some node'
        → get observed id ≡ some o
        → get observed i ≡ some o'
        → o.node ≡ some status
        → o'.node ≡ some status'
        → candidate_of node' o' status' j ≡ candidate_of node o status k
    same_candidate id i k j node node' o o' status status' e a b c d f g =
        let ids : id ≡ i = ap (λ p. p.0) e in
        let ks : k ≡ j = ap (λ p. p.1) e in
        let nodes : node' ≡ node = some-injective (sym b ∙ (ap (get by_id) (sym ids) ∙ a)) in
        let os : o' ≡ o = some-injective (sym d ∙ (ap (get observed) (sym ids) ∙ c)) in
        let statuses : status' ≡ status = some-injective (sym g ∙ (ap (λ x. x.node) os ∙ f)) in
        ap (λ x. candidate_of x o' status' j) nodes
        ∙ (ap (λ x. candidate_of node x status' j) os
            ∙ (ap (λ x. candidate_of node o x j) statuses
                ∙ ap (λ x. candidate_of node o status x) (sym ks)))

    pub observed_candidate :
        (assigned : List (String × ℕ)) (cs : List (Candidate F))
        → rank_all by_id observed assigned ≡ ok cs
        → (id : String) (k : ℕ) → In (id, k) assigned
        → (node : FleetNode) (o : Observation F) (status : NodeStatus F) → get by_id id ≡ some node
        → get observed id ≡ some o
        → o.node ≡ some status
        → In (candidate_of node o status k) cs
    unfolding rank_all
    observed_candidate [] cs h id k m node o status e q r = elim m [ ]
    observed_candidate ((i, j) ∷ assigned) cs h id k m node o status e q r =
        let (node', at, h1) = >>=-eq-ok (node_at by_id i) _ h in
        let (o', seen, h2) = >>=-eq-ok (observation_at observed i) _ h1 in
        let (status', known, h3) = >>=-eq-ok (status_of o'.node) _ h2 in
        let (rest, later, h4) = >>=-eq-ok (rank_all by_id observed assigned) _ h3 in
        subst (In (candidate_of node o status k)) (ok-injective h4) (elim (In-cons m) [
          | inl e' ↦
              let same =
                same_candidate id i k j node node' o o' status status' e' e
                  (node_at-eq-ok by_id i node' at) q (observation_at-eq-ok i o' seen) r
                  (status_of-eq-ok o'.node status' known) in
              subst (λ c. In c (candidate_of node' o' status' j ∷ rest)) same here
          | inr n ↦ there (observed_candidate assigned rest later id k n node o status e q r)
        ])

    pub least_of-least :
        (cs : List (Candidate F)) (c : Candidate F)
        → least_of cs ≡ ok c
        → In c cs × All (λ d. candidate_lt d c ≡ false) cs
    unfolding least_of
    least_of-least [] c h = cc
    least_of-least (d ∷ cs) c h =
        subst (λ c. In c (d ∷ cs) × All (λ e. candidate_lt e c ≡ false) (d ∷ cs)) (ok-injective h)
          (In-first_min candidate_lt d cs, first_min-All candidate_lt candidate_lt-IsOrder d cs)
