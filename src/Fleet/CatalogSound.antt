-- ===== src/Fleet/CatalogSound.antt =====
-- What a fleet catalog and an endpoint map that load have, src/kernel_infra/fleet.py.
use gpu_infra.Prelude.{
  ℕ, String, Bool, true, false, List, [], ◌∷◌, map, ◌≡◌, All, All-each, Distinct, distinct-Distinct,
  In, mem-In, is_empty, is_empty-each, distinct, ok, >>=-eq-ok, guard-bind-eq-ok, ok-injective,
  arith, each, mem, get, option_or, pos, ◌∙◌,
}
use mathlib.Core.Path.{subst}
use gpu_infra.Json.{Json, Floats, null, bool, num, str, arr, obj, int, items}
use gpu_infra.Fault.{Fault}
use gpu_infra.Contracts.Values.{codes, is_identifier, positive_number, positive_finite, item}
use gpu_infra.Contracts.Spec.{Platform}
use gpu_infra.Contracts.Stage.{value_or_none}
use gpu_infra.Contracts.Task.{is_text}
use gpu_infra.Contracts.StageSound.{positive_number-finite}
use gpu_infra.Fleet.Types.{
  FleetNode, FleetCatalog, FleetEndpoint, FleetEndpoints, is_ssh, is_remote_path,
}
use gpu_infra.Fleet.Catalog.{
  matched, safe_remote_path, capability_names, object_or, parse_node, parse_endpoint, full_list,
  load_fleet_catalog, load_fleet_endpoints, only_keys, exact_keys, catalog_keys,
}

-- An address to which a command line is sent: nothing in it needs quotes.
pub record AddressOk (node_id ssh_host kernelctl socket : String) : Type 0 where
  pub id_ok : is_identifier (codes node_id) ≡ true
  pub ssh_ok : is_ssh (codes ssh_host) ≡ true
  pub kernelctl_ok : is_remote_path (codes kernelctl) ≡ true
  pub socket_ok : is_remote_path (codes socket) ≡ true

pub record NodeOk (n : FleetNode) : Type 0 where
  pub address : AddressOk n.node_id n.ssh_host n.kernelctl n.socket
  pub inbox_ok : is_remote_path (codes n.inbox) ≡ true
  pub capabilities_ok : All (λ c. is_identifier (codes c) ≡ true) n.capabilities
  pub capabilities_distinct : Distinct n.capabilities

module _ {F : Type 0} where
  matched-eq-ok :
      (p : List ℕ → Bool) (e : Fault) (v : Json F) (s : String)
      → matched p e v ≡ ok s
      → p (codes s) ≡ true
  unfolding matched
  matched-eq-ok p e (str t) s h = ground (arith, h)
  matched-eq-ok p e null s h = cc
  matched-eq-ok p e (bool b) s h = cc
  matched-eq-ok p e (num n) s h = cc
  matched-eq-ok p e (arr vs) s h = cc
  matched-eq-ok p e (obj fs) s h = cc

  safe_remote_path-eq-ok :
      (v : Json F) (s : String) → safe_remote_path v ≡ ok s → is_remote_path (codes s) ≡ true
  unfolding safe_remote_path
  safe_remote_path-eq-ok (str t) s h = ground (arith, h)
  safe_remote_path-eq-ok null s h = cc
  safe_remote_path-eq-ok (bool b) s h = cc
  safe_remote_path-eq-ok (num n) s h = cc
  safe_remote_path-eq-ok (arr vs) s h = cc
  safe_remote_path-eq-ok (obj fs) s h = cc

  capability_names-eq-ok :
      (v : Json F) (names : List String)
      → capability_names v ≡ ok names
      → All (λ c. is_identifier (codes c) ≡ true) names
  unfolding capability_names
  capability_names-eq-ok (arr vs) names h =
      All-each (matched is_identifier _) (λ c. is_identifier (codes c) ≡ true)
        (matched-eq-ok is_identifier _) (items vs) names h
  capability_names-eq-ok (str t) names h = cc
  capability_names-eq-ok null names h = cc
  capability_names-eq-ok (bool b) names h = cc
  capability_names-eq-ok (num n) names h = cc
  capability_names-eq-ok (obj fs) names h = cc

  parse_node-NodeOk : (raw : Json F) (n : FleetNode) → parse_node raw ≡ ok n → NodeOk n
  unfolding parse_node
  parse_node-NodeOk raw n h =
      let (value, found, h1) = >>=-eq-ok (object_or _ raw) _ h in
      let (exact, h2) = guard-bind-eq-ok _ _ _ h1 in
      let (node_id, hid, h3) = >>=-eq-ok (matched is_identifier _ (item value "id")) _ h2 in
      let (ssh_host, hssh, h4) = >>=-eq-ok (matched is_ssh _ (item value "ssh")) _ h3 in
      let (names, hnames, h5) = >>=-eq-ok (capability_names (item value "capabilities")) _ h4 in
      let (differ, h6) = guard-bind-eq-ok (distinct names) _ _ h5 in
      let (kernelctl, hk, h7) = >>=-eq-ok (safe_remote_path (item value "kernelctl")) _ h6 in
      let (socket, hs, h8) = >>=-eq-ok (safe_remote_path (item value "socket")) _ h7 in
      let (inbox, hi, h9) = >>=-eq-ok (safe_remote_path (item value "inbox")) _ h8 in
      subst NodeOk (ok-injective h9) (record {
        address = record {
          id_ok = matched-eq-ok is_identifier _ _ node_id hid;
          ssh_ok = matched-eq-ok is_ssh _ _ ssh_host hssh;
          kernelctl_ok = safe_remote_path-eq-ok _ kernelctl hk;
          socket_ok = safe_remote_path-eq-ok _ socket hs;
        };
        inbox_ok = safe_remote_path-eq-ok _ inbox hi;
        capabilities_ok = capability_names-eq-ok _ names hnames;
        capabilities_distinct = distinct-Distinct names differ;
      })

  parse_endpoint-AddressOk :
      (ids : List String) (raw : Json F) (e : FleetEndpoint)
      → parse_endpoint ids raw ≡ ok e
      → AddressOk e.node_id e.ssh_host e.kernelctl e.socket × In e.node_id ids
  unfolding parse_endpoint
  parse_endpoint-AddressOk ids raw e h =
      let (value, found, h1) = >>=-eq-ok (object_or _ raw) _ h in
      let (exact, h2) = guard-bind-eq-ok _ _ _ h1 in
      let (node_id, hid, h3) = >>=-eq-ok (matched is_identifier _ (item value "id")) _ h2 in
      let (known, h4) = guard-bind-eq-ok (mem node_id ids) _ _ h3 in
      let (ssh_host, hssh, h5) = >>=-eq-ok (matched is_ssh _ (item value "ssh")) _ h4 in
      let (kernelctl, hk, h6) = >>=-eq-ok (safe_remote_path (item value "kernelctl")) _ h5 in
      let (socket, hs, h7) = >>=-eq-ok (safe_remote_path (item value "socket")) _ h6 in
      subst (λ e. AddressOk e.node_id e.ssh_host e.kernelctl e.socket × In e.node_id ids)
        (ok-injective h7)
        (
          record {
            id_ok = matched-eq-ok is_identifier _ _ node_id hid;
            ssh_ok = matched-eq-ok is_ssh _ _ ssh_host hssh;
            kernelctl_ok = safe_remote_path-eq-ok _ kernelctl hk;
            socket_ok = safe_remote_path-eq-ok _ socket hs;
          },
          mem-In node_id ids known,
        )

  full_list-ne-nil :
      (e : Fault) (v : Json F) (vs : List (Json F)) → full_list e v ≡ ok vs → is_empty vs ≡ false
  unfolding full_list
  full_list-ne-nil e (arr xs) vs h = ground (arith, h)
  full_list-ne-nil e (str t) vs h = cc
  full_list-ne-nil e null vs h = cc
  full_list-ne-nil e (bool b) vs h = cc
  full_list-ne-nil e (num n) vs h = cc
  full_list-ne-nil e (obj fs) vs h = cc

module _ {F : Type 0} ⦃fl : Floats F⦄ where
  pub record CatalogOk (c : FleetCatalog F) : Type 0 where
    pub nodes_there : is_empty c.nodes ≡ false
    pub nodes_ok : All NodeOk c.nodes
    pub nodes_distinct : Distinct (map (λ n. n.node_id) c.nodes)
    pub connect_ok : positive_finite c.connect_timeout_s ≡ true
    pub command_ok : positive_finite c.command_timeout_s ≡ true

  -- A catalog that loads has a node, its nodes differ in their ids and have addresses that need no
  -- quotes in a command line, capabilities that are distinct identifiers, and both time limits are
  -- positive and finite.
  pub load_fleet_catalog-CatalogOk :
      (platform : Platform F) (source : String) (raw : Json F) (c : FleetCatalog F)
      → load_fleet_catalog platform source raw ≡ ok c
      → CatalogOk c
  unfolding load_fleet_catalog
  load_fleet_catalog-CatalogOk platform source raw c h =
      let (value, found, h1) = >>=-eq-ok (object_or _ raw) _ h in
      let (only, h2) = guard-bind-eq-ok (only_keys value catalog_keys) _ _ h1 in
      let (schema, h3) =
        guard-bind-eq-ok (is_text (value_or_none value "schema") "kernelinfra.fleet.v1") _ _ h2 in
      let (values, full, h4) = >>=-eq-ok (full_list _ (value_or_none value "nodes")) _ h3 in
      let (nodes, each_ok, h5) = >>=-eq-ok (each parse_node values) _ h4 in
      let (differ, h6) = guard-bind-eq-ok (distinct (map (λ n. n.node_id) nodes)) _ _ h5 in
      let (connect, hc, h7) =
        >>=-eq-ok (positive_number (option_or (get value "connect_timeout_s") (num (int (pos 8)))))
          _ h6 in
      let (command, hm, h8) =
        >>=-eq-ok (positive_number (option_or (get value "command_timeout_s") (num (int (pos 30)))))
          _ h7 in
      subst CatalogOk (ok-injective h8) (record {
        nodes_there =
            is_empty-each parse_node values nodes each_ok ∙ full_list-ne-nil _ _ values full;
        nodes_ok = All-each parse_node NodeOk parse_node-NodeOk values nodes each_ok;
        nodes_distinct = distinct-Distinct _ differ;
        connect_ok = positive_number-finite _ connect hc;
        command_ok = positive_number-finite _ command hm;
      })

  pub record EndpointsOk (c : FleetCatalog F) (es : FleetEndpoints) : Type 0 where
    pub addresses_ok :
        All
          (λ e.
            AddressOk e.node_id e.ssh_host e.kernelctl e.socket
            × In e.node_id (map (λ n. n.node_id) c.nodes))
          es.nodes
    pub endpoints_distinct : Distinct (map (λ e. e.node_id) es.nodes)

  pub load_fleet_endpoints-EndpointsOk :
      (c : FleetCatalog F) (source : String) (raw : Json F) (es : FleetEndpoints)
      → load_fleet_endpoints c source raw ≡ ok es
      → EndpointsOk c es
  unfolding load_fleet_endpoints
  load_fleet_endpoints-EndpointsOk c source raw es h =
      let (value, found, h1) = >>=-eq-ok (object_or _ raw) _ h in
      let (only, h2) = guard-bind-eq-ok (exact_keys value ("schema" ∷ "nodes" ∷ [])) _ _ h1 in
      let (schema, h3) =
        guard-bind-eq-ok (is_text (value_or_none value "schema") "kernelinfra.fleet-endpoints.v1") _
          _ h2 in
      let (values, full, h4) = >>=-eq-ok (full_list _ (value_or_none value "nodes")) _ h3 in
      let ids = map (λ n. n.node_id) c.nodes in
      let (nodes, each_ok, h5) = >>=-eq-ok (each (parse_endpoint ids) values) _ h4 in
      let (differ, h6) = guard-bind-eq-ok (distinct (map (λ e. e.node_id) nodes)) _ _ h5 in
      subst (EndpointsOk c) (ok-injective h6) (record {
        addresses_ok =
            All-each (parse_endpoint ids) _ (parse_endpoint-AddressOk ids) values nodes each_ok;
        endpoints_distinct = distinct-Distinct _ differ;
      })
