-- ===== src/Fleet/Selection.antt =====
-- `select_node` and `plan_batch_nodes` of src/kernel_infra/fleet.py. The status of a node is what
-- `_node_status` of src/kernel_infra/server.py writes; of the lists that are only counted the model
-- keeps the elements as they are.
use gpu_infra.Prelude.{
  ℕ, String, Bool, true, false, not, ◌&&◌, ◌||◌, Option, none, some, List, [], ◌∷◌, ◌++◌, Dict, get,
  put, ltb, eqb, text_lt, length, is_empty, mem, filter_by, count_by, sort_by, first_min,
  if◌then◌else◌, Result, ok, err, ◌>>=◌,
}
use gpu_infra.Json.{Json, Floats}
use gpu_infra.Fault.{Fault, key_error}
use gpu_infra.Contracts.Spec.{StageSpec}
use gpu_infra.Contracts.Stage.{value_or_none}
use gpu_infra.Contracts.Task.{is_text}
use gpu_infra.Diagnostics.Read.{is_truthy}
use gpu_infra.Fleet.Types.{FleetNode, FleetCatalog}

pub record BrokerStatus (F : Type 0) : Type 0 where
  pub probe_error : Json F
  pub gpus : List (Dict (Json F))
  pub queue : List (Json F)

pub record NodeStatus (F : Type 0) : Type 0 where
  pub ready_deployments : List String
  pub free_bytes : ℕ
  pub broker : BrokerStatus F
  pub active_runs : List (Json F)

-- An observation of `probe_fleet`: its status is `ok` exactly when it has a node status.
pub record Observation (F : Type 0) : Type 0 where
  pub node_id : String
  pub node : Option (NodeStatus F)

-- an eligible node, with what was seen of it
pub record Choice (F : Type 0) : Type 0 where
  pub node : FleetNode
  pub status : NodeStatus F
  pub observation : Observation F

pub data Shortfall : Type 0 where
  probe_unknown insufficient_disk broker_probe_error : Shortfall
  missing_capabilities missing_deployments : List String → Shortfall

pub record NodeDecision : Type 0 where
  pub node_id : String
  pub eligible : Bool
  pub reasons : List Shortfall

-- what a node must have
pub record Needs : Type 0 where
  pub capabilities : List String
  pub deployments : List String
  pub min_free_bytes : ℕ

-- What the code raises: an error of Python, or `FleetSelectionError` with the decisions.
pub data FleetError : Type 0 where
  raised : Fault → FleetError
  no_node : List NodeDecision → FleetError

-- A rank of the source, whose second place is the negative of `idle`.
pub record Rank : Type 0 where
  pub queued : ℕ
  pub idle : ℕ
  pub active : ℕ
  pub node_id : String

-- `a < b` on the tuples
unfoldable pub rank_lt : Rank → Rank → Bool
rank_lt a b =
    ltb a.queued b.queued
    || (eqb a.queued b.queued
        && (ltb b.idle a.idle
            || (eqb b.idle a.idle
                && (ltb a.active b.active
                    || (eqb a.active b.active && text_lt a.node_id b.node_id)))))

unfoldable pub required_deployments : {F : Type 0} → List (StageSpec F) → List String
required_deployments [] = []
required_deployments (stage ∷ stages) = elim stage.service_deployment_id [
  | none ↦ required_deployments stages
  | some id ↦ let rest = required_deployments stages in if mem id rest then rest else id ∷ rest
]

-- `sorted(required - present)`
unfoldable pub lacking : List String → List String → List String
lacking required present = sort_by text_lt (filter_by (λ x. not (mem x present)) required)

-- a reason where something is missing
unfoldable pub shortfall : (List String → Shortfall) → List String → List Shortfall
shortfall reason [] = []
shortfall reason (x ∷ xs) = reason (x ∷ xs) ∷ []

-- `if test: reasons.append(reason)`
unfoldable pub reason_if : Bool → Shortfall → List Shortfall
reason_if true reason = reason ∷ []
reason_if false reason = []

-- `{node.node_id: node for node in nodes}`
unfoldable pub nodes_by_id : List FleetNode → Dict FleetNode → Dict FleetNode
nodes_by_id [] found = found
nodes_by_id (n ∷ nodes) found = nodes_by_id nodes (put found n.node_id n)

unfoldable pub node_at : Dict FleetNode → String → Result FleetError FleetNode
node_at by_id node_id = elim (get by_id node_id) [
  | none ↦ err (raised (key_error "node id"))
  | some node ↦ ok node
]

module _ {F : Type 0} ⦃fl : Floats F⦄ where
  unfoldable pub status_reasons : Needs → FleetNode → NodeStatus F → List Shortfall
  status_reasons needs node status =
      shortfall missing_capabilities (lacking needs.capabilities node.capabilities)
      ++ (shortfall missing_deployments (lacking needs.deployments status.ready_deployments)
          ++ (reason_if (ltb status.free_bytes needs.min_free_bytes) insufficient_disk
              ++ reason_if (is_truthy status.broker.probe_error) broker_probe_error))

  -- why the node is not eligible
  unfoldable pub reasons_of : Needs → FleetNode → Option (NodeStatus F) → List Shortfall
  reasons_of needs node none = probe_unknown ∷ []
  reasons_of needs node (some status) = status_reasons needs node status

  unfoldable pub decision_of : Needs → FleetNode → Observation F → NodeDecision
  decision_of needs node observation =
      let reasons = reasons_of needs node observation.node in
      record { node_id = node.node_id; eligible = is_empty reasons; reasons = reasons }

  unfoldable pub idle_gpus : NodeStatus F → ℕ
  idle_gpus status = count_by (λ gpu. is_text (value_or_none gpu "state") "idle") status.broker.gpus

  unfoldable pub rank_of : FleetNode → NodeStatus F → Rank
  rank_of node status = record {
    queued = length status.broker.queue;
    idle = idle_gpus status;
    active = length status.active_runs;
    node_id = node.node_id;
  }

  abbrev pub choice_lt : Choice F → Choice F → Bool
  choice_lt a b = rank_lt (rank_of a.node a.status) (rank_of b.node b.status)

  -- the node of an observation that gives no reason against it
  unfoldable pub choice_if :
      List Shortfall → FleetNode → Observation F → Option (NodeStatus F) → List (Choice F)
  choice_if [] node observation (some status) =
      record { node = node; status = status; observation = observation } ∷ []
  choice_if _ node observation _ = []

  -- the loop over the observations: the decisions, and the eligible nodes
  unfoldable pub weigh :
      Needs
      → Dict FleetNode
      → List (Observation F)
      → Result FleetError (List NodeDecision × List (Choice F))
  weigh needs by_id [] = ok ([], [])
  weigh needs by_id (o ∷ observations) = do
    node ← node_at by_id o.node_id
    rest ← weigh needs by_id observations
    let decision = decision_of needs node o
    ok (decision ∷ rest.0, choice_if decision.reasons node o o.node ++ rest.1)

  -- the least of the eligible nodes
  unfoldable pub choose : List NodeDecision → List (Choice F) → Result FleetError (Choice F)
  choose decisions [] = err (no_node decisions)
  choose decisions (c ∷ cs) = ok (first_min choice_lt c cs)

  unfoldable pub select_node :
      FleetCatalog F
      → List (Observation F)
      → Needs
      → Result FleetError (Choice F × List NodeDecision)
  select_node catalog observations needs = do
    (decisions, eligible) ← weigh needs (nodes_by_id catalog.nodes []) observations
    choice ← choose decisions eligible
    ok (choice, decisions)
