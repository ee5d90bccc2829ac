-- ===== src/Fleet/Chosen.antt =====
-- Which node `select_node` of src/kernel_infra/fleet.py returns.
use gpu_infra.Prelude.{
  String, true, false, some, List, [], ◌∷◌, ◌++◌, map, Dict, get, ◌≡◌, refl, sym, ap, ◌∙◌, All,
  All-at, All-append, In, here, there, In-cons, inl, inr, ok, >>=-eq-ok, ok-injective, arith,
  IsOrder, In-first_min, first_min-All, text_lt_irrefl, text_lt_trans,
}
use mathlib.Core.Path.{subst}
use gpu_infra.Json.{Floats}
use gpu_infra.Fleet.Types.{FleetNode, FleetCatalog}
use gpu_infra.Fleet.Selection.{
  NodeStatus, Observation, Choice, NodeDecision, Needs, Rank, rank_lt, nodes_by_id, node_at,
  reasons_of, decision_of, rank_of, choice_lt, choice_if, weigh, choose, select_node,
}
use gpu_infra.Fleet.Fits.{
  some-injective, Fits, Eligible, nodes_by_id-In, Fits-status_reasons, choice_if-step,
  node_at-eq-ok,
}

pub rank_lt_irrefl : (a : Rank) → rank_lt a a ≡ false
unfolding rank_lt
rank_lt_irrefl a = ground (arith, text_lt_irrefl a.node_id)

pub rank_lt_trans : (a b c : Rank) → rank_lt a b ≡ true → rank_lt b c ≡ true → rank_lt a c ≡ true
unfolding rank_lt
rank_lt_trans a b c h k = ground (arith, text_lt_trans a.node_id b.node_id c.node_id, h, k)

In-append_left : {A : Type 0} {x : A} {xs : List A} (ys : List A) → In x xs → In x (xs ++ ys)
In-append_left ys here = here
In-append_left ys (there m) = there (In-append_left ys m)

In-append_right : {A : Type 0} {x : A} (xs : List A) {ys : List A} → In x ys → In x (xs ++ ys)
In-append_right [] m = m
In-append_right (y ∷ xs) m = there (In-append_right xs m)

module _ {F : Type 0} ⦃fl : Floats F⦄ where
  choice_lt-IsOrder : IsOrder (choice_lt {F = F})
  choice_lt-IsOrder = record {
    irrefl = λ x. rank_lt_irrefl (rank_of x.node x.status);
    trans = λ x y z.
        rank_lt_trans (rank_of x.node x.status) (rank_of y.node y.status) (rank_of z.node z.status);
  }

  choice_if-In :
      (needs : Needs) (node : FleetNode) (o : Observation F) (status : NodeStatus F)
      → o.node ≡ some status
      → Fits needs node status
      → In
          (record { node = node; status = status; observation = o })
          (choice_if (reasons_of needs node o.node) node o o.node)
  unfolding choice_if reasons_of
  choice_if-In needs node o status e f = rw (e, Fits-status_reasons needs node status f) here

  module _ (catalog : FleetCatalog F) (needs : Needs) where
    abbrev by_id : Dict FleetNode
    by_id = nodes_by_id catalog.nodes []

    -- What the loop has found for the observations.
    pub record Weighed (all observations : List (Observation F)) (decisions : List NodeDecision)
        (eligible : List (Choice F)) : Type 0 where
      pub ids : map (λ d. d.node_id) decisions ≡ map (λ o. o.node_id) observations
      pub sound : All (Eligible catalog all needs) eligible
      pub complete :
          (o : Observation F) (node : FleetNode) (status : NodeStatus F)
          → In o observations
          → get by_id o.node_id ≡ some node
          → o.node ≡ some status
          → Fits needs node status
          → In (record { node = node; status = status; observation = o }) eligible

    by_id-listed :
        (id : String) (n : FleetNode)
        → get by_id id ≡ some n
        → In n catalog.nodes × (n.node_id ≡ id)
    unfolding get
    by_id-listed id n h = elim (nodes_by_id-In catalog.nodes [] id n h) [
      | inl q ↦ q
      | inr q ↦ absurd cc
    ]

    complete_cons :
        (o : Observation F) (observations : List (Observation F)) (node : FleetNode)
        (eligible : List (Choice F))
        → get by_id o.node_id ≡ some node
        → ((p : Observation F) (n : FleetNode) (status : NodeStatus F)
            → In p observations
            → get by_id p.node_id ≡ some n
            → p.node ≡ some status
            → Fits needs n status
            → In (record { node = n; status = status; observation = p }) eligible)
        → (p : Observation F) (n : FleetNode) (status : NodeStatus F) → In p (o ∷ observations)
        → get by_id p.node_id ≡ some n
        → p.node ≡ some status
        → Fits needs n status
        → In
            (record { node = n; status = status; observation = p })
            (choice_if (reasons_of needs node o.node) node o o.node ++ eligible)
    complete_cons o observations node eligible found rest p n status m at seen fits =
        elim (In-cons m) [
          | inl e ↦
              let same : node ≡ n =
                some-injective (sym found ∙ (ap (λ q. get by_id q.node_id) (sym e) ∙ at)) in
              subst
                (λ k.
                  In (record { node = n; status = status; observation = p })
                    (choice_if (reasons_of needs k o.node) k o o.node ++ eligible))
                (sym same)
                (subst
                  (λ q.
                    In (record { node = n; status = status; observation = p })
                      (choice_if (reasons_of needs n q.node) n q q.node ++ eligible))
                  e (In-append_left eligible (choice_if-In needs n p status seen fits)))
          | inr i ↦ In-append_right _ (rest p n status i at seen fits)
        ]

    Weighed-cons :
        (all : List (Observation F)) (o : Observation F) (observations : List (Observation F))
        (node : FleetNode) (decisions : List NodeDecision) (eligible : List (Choice F))
        → In o all
        → get by_id o.node_id ≡ some node
        → Weighed all observations decisions eligible
        → Weighed all
            (o ∷ observations)
            (decision_of needs node o ∷ decisions)
            (choice_if (reasons_of needs node o.node) node o o.node ++ eligible)
    unfolding decision_of
    Weighed-cons all o observations node decisions eligible seen found tail =
        let (listed, same) = by_id-listed o.node_id node found in
        record {
          ids = (let ids = tail.ids in cc);
          sound =
              All-append (Eligible catalog all needs) _ eligible
                (choice_if-step catalog needs all node o listed seen (sym same) o.node _ refl refl)
                tail.sound;
          complete = complete_cons o observations node eligible found tail.complete;
        }

    pub weigh-Weighed :
        (all observations : List (Observation F)) (out : List NodeDecision × List (Choice F))
        → ((o : Observation F) → In o observations → In o all)
        → weigh needs by_id observations ≡ ok out
        → Weighed all observations out.0 out.1
    unfolding weigh decision_of get
    weigh-Weighed all [] out inside h =
        subst (λ out. Weighed all [] out.0 out.1) (ok-injective h)
          (record { ids = refl; sound = tt; complete = λ o node status m. elim m [ ] })
    weigh-Weighed all (o ∷ observations) out inside h =
        let (node, at, h1) = >>=-eq-ok (node_at by_id o.node_id) _ h in
        let (rest, later, h2) = >>=-eq-ok (weigh needs by_id observations) _ h1 in
        let tail = weigh-Weighed all observations rest (λ p m. inside p (there m)) later in
        let found = node_at-eq-ok by_id o.node_id node at in
        subst (λ out. Weighed all (o ∷ observations) out.0 out.1) (ok-injective h2)
          (Weighed-cons all o observations node rest.0 rest.1 (inside o here) found tail)

  -- What is chosen: an eligible node of the catalog, such that no node which fits ranks below it.
  pub record Chosen (catalog : FleetCatalog F) (observations : List (Observation F)) (needs : Needs)
      (c : Choice F) (decisions : List NodeDecision) : Type 0 where
    pub ids : map (λ d. d.node_id) decisions ≡ map (λ o. o.node_id) observations
    pub eligible : Eligible catalog observations needs c
    pub least :
        (o : Observation F) (node : FleetNode) (status : NodeStatus F)
        → In o observations
        → get (nodes_by_id catalog.nodes []) o.node_id ≡ some node
        → o.node ≡ some status
        → Fits needs node status
        → rank_lt (rank_of node status) (rank_of c.node c.status) ≡ false

  choose-least :
      (decisions : List NodeDecision) (eligible : List (Choice F)) (c : Choice F)
      → choose decisions eligible ≡ ok c
      → In c eligible × All (λ d. choice_lt d c ≡ false) eligible
  unfolding choose
  choose-least decisions [] c h = cc
  choose-least decisions (d ∷ eligible) c h =
      subst (λ c. In c (d ∷ eligible) × All (λ e. choice_lt e c ≡ false) (d ∷ eligible))
        (ok-injective h)
        (In-first_min choice_lt d eligible, first_min-All choice_lt choice_lt-IsOrder d eligible)

  -- A node that is selected is in the catalog, was seen, and has every capability and deployment that
  -- is required, enough free bytes and a broker without a probe error; no node that fits ranks below
  -- it; and there is one decision for each observation, in order.
  pub select_node-Chosen :
      (catalog : FleetCatalog F) (observations : List (Observation F)) (needs : Needs)
      (out : Choice F × List NodeDecision)
      → select_node catalog observations needs ≡ ok out
      → Chosen catalog observations needs out.0 out.1
  unfolding select_node
  select_node-Chosen catalog observations needs out h =
      let (found, weighed, h1) =
        >>=-eq-ok (weigh needs (nodes_by_id catalog.nodes []) observations) _ h in
      let (c, chosen, h2) = >>=-eq-ok (choose found.0 found.1) _ h1 in
      let w = weigh-Weighed catalog needs observations observations found (λ o m. m) weighed in
      let (m, least) = choose-least found.0 found.1 c chosen in
      subst (λ out. Chosen catalog observations needs out.0 out.1) (ok-injective h2)
        (record {
          ids = w.ids;
          eligible = All-at (Eligible catalog observations needs) w.sound m;
          least = λ o node status seen at known fits.
              All-at (λ d. choice_lt d c ≡ false) least
                (w.complete o node status seen at known fits);
        })
