-- ===== src/Fleet/Resolve.antt =====
-- `resolve_fleet_endpoint` of src/kernel_infra/fleet.py.
use gpu_infra.Prelude.{
  String, Option, none, some, List, [], ◌∷◌, ◌≡◌, refl, In, here, filter_by-In, All-at, eq_iff,
  ◌==◌, ok, ok-injective,
}
use mathlib.Core.Path.{subst}
use gpu_infra.Json.{Floats}
use gpu_infra.Fleet.Types.{FleetNode, FleetCatalog, FleetEndpoint, FleetEndpoints, EndpointRecord}
use gpu_infra.Fleet.Catalog.{at_endpoint, endpoint_record, resolve_fleet_endpoint}
use gpu_infra.Fleet.CatalogSound.{AddressOk, NodeOk, EndpointsOk}

only_endpoint :
    (source : String) (node : FleetNode) (es : List FleetEndpoint)
    (out : FleetNode × EndpointRecord)
    → at_endpoint source node es ≡ ok out
    → (e : FleetEndpoint) × In e es × (at_endpoint source node (e ∷ []) ≡ ok out)
unfolding at_endpoint
only_endpoint source node [] out h = cc
only_endpoint source node (e ∷ []) out h = (e, here, h)
only_endpoint source node (e ∷ f ∷ es) out h = cc

-- Where the address comes from: the catalog where there is no endpoint map, and else an endpoint that
-- the map lists for the node.
abbrev pub Addressed :
    {F : Type 0}
    → FleetCatalog F
    → FleetNode
    → Option FleetEndpoints
    → FleetNode
    → EndpointRecord
    → Type 0
Addressed c node none effective r =
    (effective ≡ node) × (r.owner ≡ "historical-catalog") × (r.source ≡ c.source_path)
Addressed c node (some es) effective r =
    (e : FleetEndpoint) × In e es.nodes
    × (e.node_id ≡ node.node_id)
    × (effective.ssh_host ≡ e.ssh_host)
    × (effective.kernelctl ≡ e.kernelctl)
    × (effective.socket ≡ e.socket)
    × (r.owner ≡ "fleet-endpoints")
    × (r.source ≡ es.source_path)

-- What it takes to send a command to a node that was resolved: a sound address of known origin, and
-- what belongs to the node of the catalog.
pub record Resolved {F : Type 0} (c : FleetCatalog F) (node : FleetNode)
    (es : Option FleetEndpoints) (effective : FleetNode) (r : EndpointRecord) : Type 0 where
  pub addressed : Addressed c node es effective r
  pub node_ok : NodeOk effective
  pub same_id : effective.node_id ≡ node.node_id
  pub same_inbox : effective.inbox ≡ node.inbox
  pub same_capabilities : effective.capabilities ≡ node.capabilities
  pub recorded : r ≡ record {
    owner = r.owner;
    source = r.source;
    node_id = effective.node_id;
    ssh = effective.ssh_host;
    kernelctl = effective.kernelctl;
    socket = effective.socket;
  }

module _ {F : Type 0} ⦃fl : Floats F⦄ where
  -- A node of a catalog that loaded, resolved with an endpoint map that loaded, has the address of an
  -- endpoint that the map lists under its id; without a map it is unchanged. Either way the address
  -- needs no quotes, the id, inbox and capabilities are the node's, and the record of its endpoint
  -- tells that address and the file that it is from.
  pub resolve_fleet_endpoint-Resolved :
      (c : FleetCatalog F) (node : FleetNode) (es : Option FleetEndpoints)
      (out : FleetNode × EndpointRecord)
      → NodeOk node
      → ((e : FleetEndpoints) → es ≡ some e → EndpointsOk c e)
      → resolve_fleet_endpoint c node es ≡ ok out
      → Resolved c node es out.0 out.1
  unfolding resolve_fleet_endpoint endpoint_record at_endpoint
  resolve_fleet_endpoint-Resolved c node none out node_ok es_ok h =
      subst (λ out. Resolved c node none out.0 out.1) (ok-injective h)
        (record {
          addressed = (refl, refl, refl);
          node_ok = node_ok;
          same_id = refl;
          same_inbox = refl;
          same_capabilities = refl;
          recorded = refl;
        })
  resolve_fleet_endpoint-Resolved c node (some es) out node_ok es_ok h =
      let (e, m, q) = only_endpoint es.source_path node _ out h in
      let (listed, same) = filter_by-In (λ e. e.node_id == node.node_id) es.nodes m in
      let (address, known) = All-at _ (es_ok es refl).addresses_ok listed in
      let named = (eq_iff e.node_id node.node_id).0 same in
      subst (λ out. Resolved c node (some es) out.0 out.1) (ok-injective q)
        (record {
          addressed = (e, listed, named, refl, refl, refl, refl, refl);
          node_ok = record {
            address = subst (λ id. AddressOk id e.ssh_host e.kernelctl e.socket) named address;
            inbox_ok = node_ok.inbox_ok;
            capabilities_ok = node_ok.capabilities_ok;
            capabilities_distinct = node_ok.capabilities_distinct;
          };
          same_id = refl;
          same_inbox = refl;
          same_capabilities = refl;
          recorded = refl;
        })
