-- ===== src/Fleet/Batch.antt =====
-- `plan_batch_nodes` of src/kernel_infra/fleet.py.
use gpu_infra.Prelude.{
  ℕ, ◌+◌, ◌-◌, zero, suc, String, Bool, Option, none, some, List, [], ◌∷◌, map, Dict, get, put, ltb,
  mem, length, first_min, if◌then◌else◌, Result, ok, err, ◌>>=◌, ◌>>◌, guard, not, ◌==◌,
}
use gpu_infra.Json.{Floats}
use gpu_infra.Fault.{key_error, type_error, value_error}
use gpu_infra.Fleet.Types.{FleetNode, FleetCatalog}
use gpu_infra.Fleet.Selection.{
  NodeStatus, Observation, NodeDecision, Needs, FleetError, raised, Rank, rank_lt, nodes_by_id,
  node_at, idle_gpus, select_node,
}

-- `MAX_FLEET_BATCH_CANDIDATES`
abbrev pub max_candidates : ℕ
max_candidates = 64

-- `FleetBatchAssignment`
pub record Assignment (F : Type 0) : Type 0 where
  pub index : ℕ
  pub node : FleetNode
  pub observation : Observation F
  pub projected_rank : Rank
  pub assigned_before : ℕ

-- The set of the ids that are eligible. Its order does not matter, since no two ranks are equal.
unfoldable pub eligible_ids : List NodeDecision → List String
eligible_ids [] = []
eligible_ids (d ∷ decisions) =
    let rest = eligible_ids decisions in
    if d.eligible then (if mem d.node_id rest then rest else d.node_id ∷ rest) else rest

-- `assigned[node_id] += 1`, for an id that is there
unfoldable pub bump : String → List (String × ℕ) → List (String × ℕ)
bump node_id assigned = map (λ e. (e.0, if e.0 == node_id then e.1 + 1 else e.1)) assigned

-- a place of the list `ranked`
pub record Candidate (F : Type 0) : Type 0 where
  pub rank : Rank
  pub node : FleetNode
  pub observation : Observation F
  pub assigned_before : ℕ

module _ {F : Type 0} where
  -- `{item["node_id"]: item for item in observations}`
  unfoldable pub observed_by_id : List (Observation F) → Dict (Observation F) → Dict (Observation F)
  observed_by_id [] found = found
  observed_by_id (o ∷ observations) found = observed_by_id observations (put found o.node_id o)

  unfoldable pub observation_at : Dict (Observation F) → String → Result FleetError (Observation F)
  observation_at observed node_id = elim (get observed node_id) [
    | none ↦ err (raised (key_error "node id"))
    | some o ↦ ok o
  ]

  -- a subscript of `None` raises
  unfoldable pub status_of : Option (NodeStatus F) → Result FleetError (NodeStatus F)
  status_of none = err (raised (type_error "'NoneType' object is not subscriptable"))
  status_of (some status) = ok status

  abbrev pub candidate_lt : Candidate F → Candidate F → Bool
  candidate_lt a b = rank_lt a.rank b.rank

  -- `min(ranked, key=...)`
  unfoldable pub least_of : List (Candidate F) → Result FleetError (Candidate F)
  least_of [] = err (raised (value_error "min() arg is an empty sequence"))
  least_of (c ∷ cs) = ok (first_min candidate_lt c cs)

module _ {F : Type 0} ⦃fl : Floats F⦄ where
  -- the rank of a node that has one candidate more; `a - b` is 0 where `b` is more
  unfoldable pub projected : FleetNode → NodeStatus F → ℕ → Rank
  projected node status assigned_before =
      let idle = idle_gpus status in
      let projected_assigned = assigned_before + 1 in
      record {
        queued = length status.broker.queue + (projected_assigned - idle);
        idle = idle - projected_assigned;
        active = length status.active_runs + projected_assigned;
        node_id = node.node_id;
      }

  unfoldable pub rank_all :
      Dict FleetNode
      → Dict (Observation F)
      → List (String × ℕ)
      → Result FleetError (List (Candidate F))
  rank_all by_id observed [] = ok []
  rank_all by_id observed ((node_id, assigned_before) ∷ assigned) = do
    node ← node_at by_id node_id
    observation ← observation_at observed node_id
    status ← status_of observation.node
    rest ← rank_all by_id observed assigned
    ok (
        (record {
          rank = projected node status assigned_before;
          node = node;
          observation = observation;
          assigned_before = assigned_before;
        })
        ∷ rest)

  abbrev pub assign : ℕ → Candidate F → Assignment F
  assign index c = record {
    index = index;
    node = c.node;
    observation = c.observation;
    projected_rank = c.rank;
    assigned_before = c.assigned_before;
  }

  -- the rounds that are left, from `index` on
  unfoldable pub plan_loop :
      Dict FleetNode
      → Dict (Observation F)
      → ℕ
      → ℕ
      → List (String × ℕ)
      → Result FleetError (List (Assignment F))
  plan_loop by_id observed zero index assigned = ok []
  plan_loop by_id observed (suc n) index assigned = do
    ranked ← rank_all by_id observed assigned
    best ← least_of ranked
    rest ← plan_loop by_id observed n (index + 1) (bump best.node.node_id assigned)
    ok (assign index best ∷ rest)

  unfoldable pub plan_batch_nodes :
      FleetCatalog F
      → List (Observation F)
      → Needs
      → ℕ
      → Result FleetError (List (Assignment F) × List NodeDecision)
  plan_batch_nodes catalog observations needs count = do
    guard (not (ltb count 1)) (raised (value_error "fleet batch count must be positive"))
    guard (not (ltb max_candidates count))
        (raised (value_error "fleet batch supports at most 64 candidates"))
    selected ← select_node catalog observations needs
    let assigned = map (λ id. (id, 0)) (eligible_ids selected.1)
    assignments ←
        plan_loop (nodes_by_id catalog.nodes []) (observed_by_id observations []) count 0 assigned
    ok (assignments, selected.1)
