-- ===== src/Fleet/Found.antt =====
-- When `select_node` of src/kernel_infra/fleet.py finds a node.
use gpu_infra.Prelude.{
  String, some, List, [], ◌∷◌, Dict, get, ◌≡◌, refl, In, here, there, Returns, Returns-bind,
  first_min, arith,
}
use gpu_infra.Json.{Floats}
use gpu_infra.Fleet.Types.{FleetNode, FleetCatalog}
use gpu_infra.Fleet.Selection.{
  NodeStatus, Observation, Choice, NodeDecision, Needs, nodes_by_id, node_at, weigh, choose,
  choice_lt, select_node,
}
use gpu_infra.Fleet.Fits.{Fits}
use gpu_infra.Fleet.Chosen.{weigh-Weighed}

-- The id is that of a node.
abbrev pub Known : Dict FleetNode → String → Type 0
Known by_id id = (n : FleetNode) × (get by_id id ≡ some n)

node_at-Returns :
    (by_id : Dict FleetNode) (id : String) → Known by_id id → Returns (node_at by_id id)
unfolding node_at
node_at-Returns by_id id (n, e) = (n, ground (arith, e))

module _ {F : Type 0} ⦃fl : Floats F⦄ where
  weigh-Returns :
      (needs : Needs) (by_id : Dict FleetNode) (observations : List (Observation F))
      → ((o : Observation F) → In o observations → Known by_id o.node_id)
      → Returns (weigh needs by_id observations)
  unfolding weigh
  weigh-Returns needs by_id [] known = (([], []), refl)
  weigh-Returns needs by_id (o ∷ observations) known =
      Returns-bind (node_at by_id o.node_id) _ (node_at-Returns by_id o.node_id (known o here))
        (λ n at.
          Returns-bind (weigh needs by_id observations) _
            (weigh-Returns needs by_id observations (λ p m. known p (there m)))
            (λ rest later. (_, refl)))

  choose-Returns :
      (decisions : List NodeDecision) (eligible : List (Choice F)) {c : Choice F}
      → In c eligible
      → Returns (choose decisions eligible)
  unfolding choose
  choose-Returns decisions [] m = elim m [ ]
  choose-Returns decisions (d ∷ eligible) m = (first_min choice_lt d eligible, refl)

  -- Where every observation is of a node of the catalog and one of the nodes fits, a node is
  -- selected.
  pub select_node-Returns :
      (catalog : FleetCatalog F) (observations : List (Observation F)) (needs : Needs)
      → ((o : Observation F) → In o observations → Known (nodes_by_id catalog.nodes []) o.node_id)
      → (o : Observation F) (node : FleetNode) (status : NodeStatus F) → In o observations
      → get (nodes_by_id catalog.nodes []) o.node_id ≡ some node
      → o.node ≡ some status
      → Fits needs node status
      → Returns (select_node catalog observations needs)
  unfolding select_node
  select_node-Returns catalog observations needs known o node status seen at observed fits =
      Returns-bind (weigh needs (nodes_by_id catalog.nodes []) observations) _
        (weigh-Returns needs (nodes_by_id catalog.nodes []) observations known)
        (λ found weighed.
          let w = weigh-Weighed catalog needs observations observations found (λ o m. m) weighed in
          Returns-bind (choose found.0 found.1) _
            (choose-Returns found.0 found.1 (w.complete o node status seen at observed fits))
            (λ c chosen. (_, refl)))
