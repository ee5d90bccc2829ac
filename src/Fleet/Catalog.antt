-- ===== src/Fleet/Catalog.antt =====
-- `load_fleet_catalog`, `load_fleet_endpoints` and `resolve_fleet_endpoint` of src/kernel_infra/fleet.py,
-- once the file is decoded. The place of a value, which only the message names, is left out.
use gpu_infra.Prelude.{
  ℕ, String, Bool, ◌&&◌, Option, none, some, List, [], ◌∷◌, map, Dict, get, keys, option_or,
  is_some, is_empty, mem, all, each, distinct, filter_by, if◌then◌else◌, Result, ok, err, ◌>>=◌,
  ◌>>◌, guard, ◌==◌, pos,
}
use gpu_infra.Json.{Json, str, arr, num, int, obj, Floats, items, fields}
use gpu_infra.Fault.{Fault, contract_error}
use gpu_infra.Contracts.Values.{codes, is_identifier, item, positive_number}
use gpu_infra.Contracts.Spec.{Platform}
use gpu_infra.Contracts.Stage.{value_or_none}
use gpu_infra.Contracts.Task.{is_text}
use gpu_infra.Fleet.Types.{
  FleetNode, FleetCatalog, FleetEndpoint, FleetEndpoints, EndpointRecord, is_ssh, is_remote_path,
}

abbrev pub catalog_keys : List String
catalog_keys = "schema" ∷ "nodes" ∷ "connect_timeout_s" ∷ "command_timeout_s" ∷ []

abbrev pub node_keys : List String
node_keys = "id" ∷ "ssh" ∷ "kernelctl" ∷ "socket" ∷ "inbox" ∷ "capabilities" ∷ []

abbrev pub endpoint_keys : List String
endpoint_keys = "id" ∷ "ssh" ∷ "kernelctl" ∷ "socket" ∷ []

-- the only node with the id
unfoldable pub only_node : List FleetNode → Result Fault FleetNode
only_node (node ∷ []) = ok node
only_node _ = err (contract_error "fleet catalog has no unique node")

unfoldable pub fleet_node : {F : Type 0} → FleetCatalog F → String → Result Fault FleetNode
fleet_node catalog node_id = only_node (filter_by (λ n. n.node_id == node_id) catalog.nodes)

module _ {F : Type 0} where
  -- `not set(value) - names`
  unfoldable pub only_keys : Dict (Json F) → List String → Bool
  only_keys value names = all (λ k. mem k names) (keys value)

  -- `set(value) == names`
  unfoldable pub exact_keys : Dict (Json F) → List String → Bool
  exact_keys value names = only_keys value names && all (λ k. is_some (get value k)) names

  unfoldable pub safe_remote_path : Json F → Result Fault String
  safe_remote_path (str s) =
      if is_remote_path (codes s)
      then ok s
      else err (contract_error "must be an absolute remote path without whitespace")
  safe_remote_path _ = err (contract_error "must be an absolute remote path without whitespace")

  -- a text that a pattern matches
  unfoldable pub matched : (List ℕ → Bool) → Fault → Json F → Result Fault String
  matched pattern e (str s) = if pattern (codes s) then ok s else err e
  matched pattern e _ = err e

  unfoldable pub capability_names : Json F → Result Fault (List String)
  capability_names (arr vs) =
      each (matched is_identifier (contract_error "capabilities must be identifiers")) (items vs)
  capability_names _ = err (contract_error "capabilities must be identifiers")

  unfoldable pub object_or : Fault → Json F → Result Fault (Dict (Json F))
  object_or e (obj fs) = ok (fields fs)
  object_or e _ = err e

  unfoldable pub parse_node : Json F → Result Fault FleetNode
  parse_node raw = do
    value ← object_or (contract_error "has invalid fields") raw
    guard (exact_keys value node_keys) (contract_error "has invalid fields")
    node_id ← matched is_identifier (contract_error "id is invalid") (item value "id")
    ssh_host ← matched is_ssh (contract_error "ssh is unsafe") (item value "ssh")
    capabilities ← capability_names (item value "capabilities")
    guard (distinct capabilities) (contract_error "capabilities must be unique")
    kernelctl ← safe_remote_path (item value "kernelctl")
    socket ← safe_remote_path (item value "socket")
    inbox ← safe_remote_path (item value "inbox")
    ok (record {
      node_id = node_id;
      ssh_host = ssh_host;
      kernelctl = kernelctl;
      socket = socket;
      inbox = inbox;
      capabilities = capabilities;
    })

  unfoldable pub parse_endpoint : List String → Json F → Result Fault FleetEndpoint
  parse_endpoint catalog_ids raw = do
    value ← object_or (contract_error "has invalid fields") raw
    guard (exact_keys value endpoint_keys) (contract_error "has invalid fields")
    node_id ← matched is_identifier (contract_error "id is invalid") (item value "id")
    guard (mem node_id catalog_ids) (contract_error "is absent from the historical catalog")
    ssh_host ← matched is_ssh (contract_error "ssh is unsafe") (item value "ssh")
    kernelctl ← safe_remote_path (item value "kernelctl")
    socket ← safe_remote_path (item value "socket")
    ok (record { node_id = node_id; ssh_host = ssh_host; kernelctl = kernelctl; socket = socket })

  -- a list that is not empty
  unfoldable pub full_list : Fault → Json F → Result Fault (List (Json F))
  full_list e (arr vs) = if is_empty (items vs) then err e else ok (items vs)
  full_list e _ = err e

module _ {F : Type 0} ⦃fl : Floats F⦄ where
  unfoldable pub load_fleet_catalog : Platform F → String → Json F → Result Fault (FleetCatalog F)
  load_fleet_catalog platform source raw = do
    value ← object_or (contract_error "fleet catalog has unexpected fields") raw
    guard (only_keys value catalog_keys) (contract_error "fleet catalog has unexpected fields")
    guard (is_text (value_or_none value "schema") "kernelinfra.fleet.v1")
        (contract_error "fleet catalog schema")
    values ←
        full_list (contract_error "fleet catalog nodes must be a non-empty list")
          (value_or_none value "nodes")
    nodes ← each parse_node values
    guard (distinct (map (λ n. n.node_id) nodes)) (contract_error "fleet node ids must be unique")
    connect ← positive_number (option_or (get value "connect_timeout_s") (num (int (pos 8))))
    command ← positive_number (option_or (get value "command_timeout_s") (num (int (pos 30))))
    ok (record {
      nodes = nodes;
      connect_timeout_s = connect;
      command_timeout_s = command;
      source_path = source;
      digest = platform.digest raw;
    })

  unfoldable pub load_fleet_endpoints :
      FleetCatalog F → String → Json F → Result Fault FleetEndpoints
  load_fleet_endpoints catalog source raw = do
    value ← object_or (contract_error "fleet endpoint map has invalid fields") raw
    guard (exact_keys value ("schema" ∷ "nodes" ∷ []))
        (contract_error "fleet endpoint map has invalid fields")
    guard (is_text (value_or_none value "schema") "kernelinfra.fleet-endpoints.v1")
        (contract_error "fleet endpoint map schema")
    values ←
        full_list (contract_error "fleet endpoint map nodes must be a non-empty list")
          (value_or_none value "nodes")
    nodes ← each (parse_endpoint (map (λ n. n.node_id) catalog.nodes)) values
    guard (distinct (map (λ n. n.node_id) nodes))
        (contract_error "fleet endpoint map node ids must be unique")
    ok (record { nodes = nodes; source_path = source })

unfoldable pub endpoint_record : String → String → FleetNode → EndpointRecord
endpoint_record owner source node = record {
  owner = owner;
  source = source;
  node_id = node.node_id;
  ssh = node.ssh_host;
  kernelctl = node.kernelctl;
  socket = node.socket;
}

-- the node at the address of its endpoint
unfoldable pub at_endpoint :
    String → FleetNode → List FleetEndpoint → Result Fault (FleetNode × EndpointRecord)
at_endpoint source node (endpoint ∷ []) =
    let effective : FleetNode = record {
      node_id = node.node_id;
      ssh_host = endpoint.ssh_host;
      kernelctl = endpoint.kernelctl;
      socket = endpoint.socket;
      inbox = node.inbox;
      capabilities = node.capabilities;
    } in
    ok (effective, endpoint_record "fleet-endpoints" source effective)
at_endpoint source node _ = err (contract_error "fleet endpoint map has no unique endpoint")

unfoldable pub resolve_fleet_endpoint :
    {F : Type 0}
    → FleetCatalog F
    → FleetNode
    → Option FleetEndpoints
    → Result Fault (FleetNode × EndpointRecord)
resolve_fleet_endpoint catalog node none =
    ok (node, endpoint_record "historical-catalog" catalog.source_path node)
resolve_fleet_endpoint catalog node (some endpoints) =
    at_endpoint endpoints.source_path node
      (filter_by (λ e. e.node_id == node.node_id) endpoints.nodes)
