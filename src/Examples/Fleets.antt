-- ===== src/Examples/Fleets.antt =====
-- A fleet of two nodes, its locators, and a plan on what was seen of them.
use mathlib.Core.Path.{subst}
use gpu_infra.Prelude.{
  ℕ, ◌≡◌, refl, true, String, Option, some, List, [], ◌∷◌, Dict, ok, Returns, In, here, there, get,
  put, mem, all, each, distinct, filter_by, sort_by, count_by, first_min, arith,
}
use gpu_infra.Json.{Json, str, arr, obj, null}
use gpu_infra.Contracts.Values.{codes, is_identifier, item, positive_number}
use gpu_infra.Contracts.Task.{is_text}
use gpu_infra.Diagnostics.Read.{is_truthy}
use gpu_infra.Fleet.Types.{
  FleetNode, FleetCatalog, FleetEndpoints, is_ssh, is_remote_path, is_run_name,
}
use gpu_infra.Fleet.Catalog.{
  only_keys, exact_keys, safe_remote_path, matched, capability_names, object_or, parse_node,
  parse_endpoint, full_list, load_fleet_catalog, load_fleet_endpoints, endpoint_record, at_endpoint,
  resolve_fleet_endpoint,
}
use gpu_infra.Fleet.CatalogSound.{
  CatalogOk, EndpointsOk, load_fleet_catalog-CatalogOk, load_fleet_endpoints-EndpointsOk,
}
use gpu_infra.Fleet.Resolve.{Resolved, resolve_fleet_endpoint-Resolved}
use gpu_infra.Fleet.Locator.{parse_locator}
use gpu_infra.Fleet.LocatorBack.{parse_locator-locator, parse_locator-eq-ok, locator}
use gpu_infra.Fleet.Selection.{
  NodeStatus, Observation, Needs, select_node, weigh, choose, nodes_by_id, node_at, decision_of,
  reasons_of, status_reasons, lacking, shortfall, reason_if, choice_if, rank_of, rank_lt, idle_gpus,
}
use gpu_infra.Fleet.Fits.{Fits, some-injective}
use gpu_infra.Fleet.Chosen.{Chosen, select_node-Chosen}
use gpu_infra.Fleet.Found.{Known, select_node-Returns}
use gpu_infra.Fleet.Batch.{
  plan_batch_nodes, plan_loop, rank_all, least_of, projected, status_of, observation_at,
  observed_by_id, eligible_ids, bump,
}
use gpu_infra.Fleet.Planned.{Planned, plan_batch_nodes-Planned}
use gpu_infra.Examples.Data.{whole_floats, platform, array, object}

abbrev node_json : String → Json ℕ
node_json id = obj (
    object (
      ("id", str id)
      ∷ ("ssh", str "gpu@host")
      ∷ ("kernelctl", str "/bin/kernelctl")
      ∷ ("socket", str "/run/kernel.sock")
      ∷ ("inbox", str "/var/inbox")
      ∷ ("capabilities", arr (array (str "sm90" ∷ [])))
      ∷ []))

abbrev catalog_json : Json ℕ
catalog_json = obj (
    object (
      ("schema", str "kernelinfra.fleet.v1")
      ∷ ("nodes", arr (array (node_json "a" ∷ node_json "b" ∷ [])))
      ∷ []))

abbrev node : String → FleetNode
node id = record {
  node_id = id;
  ssh_host = "gpu@host";
  kernelctl = "/bin/kernelctl";
  socket = "/run/kernel.sock";
  inbox = "/var/inbox";
  capabilities = "sm90" ∷ [];
}

abbrev catalog : FleetCatalog ℕ
catalog = record {
  nodes = node "a" ∷ node "b" ∷ [];
  connect_timeout_s = 8;
  command_timeout_s = 30;
  source_path = "/fleet.json";
  digest = "digest";
}

loads : load_fleet_catalog platform "/fleet.json" catalog_json ≡ ok catalog
unfolding load_fleet_catalog only_keys exact_keys safe_remote_path matched capability_names
    object_or parse_node full_list positive_number is_text is_identifier is_ssh is_remote_path item
    get mem all each distinct
loads = refl

load_fleet_catalog-CatalogOk_example : CatalogOk catalog
load_fleet_catalog-CatalogOk_example =
    load_fleet_catalog-CatalogOk platform "/fleet.json" catalog_json catalog loads

catalog-CatalogOk : CatalogOk catalog
catalog-CatalogOk = load_fleet_catalog-CatalogOk platform "/fleet.json" catalog_json catalog loads

abbrev moved_json : Json ℕ
moved_json = obj (
    object (
      ("schema", str "kernelinfra.fleet-endpoints.v1")
      ∷ (
        "nodes",
        arr (
            array (
              obj (
                object (
                  ("id", str "a")
                  ∷ ("ssh", str "gpu@new")
                  ∷ ("kernelctl", str "/bin/kernelctl")
                  ∷ ("socket", str "/run/new.sock")
                  ∷ []))
              ∷ [])),
      )
      ∷ []))

abbrev moved : FleetEndpoints
moved = record {
  nodes =
      (record {
        node_id = "a";
        ssh_host = "gpu@new";
        kernelctl = "/bin/kernelctl";
        socket = "/run/new.sock";
      })
      ∷ [];
  source_path = "/endpoints.json";
}

loads_moved : load_fleet_endpoints catalog "/endpoints.json" moved_json ≡ ok moved
unfolding load_fleet_endpoints parse_endpoint only_keys exact_keys safe_remote_path matched
    object_or full_list is_text is_identifier is_ssh is_remote_path item get mem all each distinct
loads_moved = refl

moved-EndpointsOk : EndpointsOk catalog moved
moved-EndpointsOk =
    load_fleet_endpoints-EndpointsOk catalog "/endpoints.json" moved_json moved loads_moved

abbrev at_new : FleetNode
at_new = record (node "a") { ssh_host = "gpu@new"; socket = "/run/new.sock" }

resolves :
    resolve_fleet_endpoint catalog (node "a") (some moved)
    ≡ ok (at_new, endpoint_record "fleet-endpoints" "/endpoints.json" at_new)
unfolding resolve_fleet_endpoint at_endpoint filter_by
resolves = refl

only_moved :
    (e : FleetEndpoints)
    → ◌≡◌ {A = Option FleetEndpoints} (some moved) (some e)
    → EndpointsOk catalog e
only_moved e q = subst (EndpointsOk catalog) (some-injective q) moved-EndpointsOk

resolve_fleet_endpoint-Resolved_example :
    Resolved catalog
      (node "a")
      (some moved)
      at_new
      (endpoint_record "fleet-endpoints" "/endpoints.json" at_new)
resolve_fleet_endpoint-Resolved_example =
    resolve_fleet_endpoint-Resolved catalog (node "a") (some moved)
      (at_new, endpoint_record "fleet-endpoints" "/endpoints.json" at_new)
      catalog-CatalogOk.nodes_ok.0 only_moved resolves

parse_locator-locator_example : parse_locator catalog "b:gemm-1" ≡ ok (node "b", "gemm-1")
unfolding is_run_name all
parse_locator-locator_example =
    parse_locator-locator catalog catalog-CatalogOk (node "b") (there here) "gemm-1" refl

parse_locator-eq-ok_example :
    In (node "b") catalog.nodes
    × (is_run_name (codes "gemm-1") ≡ true)
    × (locator "b" "gemm-1" ≡ "b:gemm-1")
parse_locator-eq-ok_example =
    parse_locator-eq-ok catalog "b:gemm-1" (node "b") "gemm-1" parse_locator-locator_example

abbrev idle_gpu : Dict (Json ℕ)
idle_gpu = ("state", str "idle") ∷ []

abbrev status : List (Json ℕ) → NodeStatus ℕ
status queue = record {
  ready_deployments = [];
  free_bytes = 100;
  broker = record { probe_error = null; gpus = idle_gpu ∷ []; queue = queue };
  active_runs = [];
}

abbrev observations : List (Observation ℕ)
observations =
    (record { node_id = "a"; node = some (status (null ∷ [])) })
    ∷ (record { node_id = "b"; node = some (status []) })
    ∷ []

abbrev needs : Needs
needs = record { capabilities = "sm90" ∷ []; deployments = []; min_free_bytes = 10 }

selects : Returns (select_node catalog observations needs)
unfolding select_node weigh choose nodes_by_id node_at decision_of reasons_of status_reasons lacking
    shortfall reason_if choice_if rank_of rank_lt idle_gpus is_truthy is_text get put mem filter_by
    sort_by count_by first_min
selects = (_, refl)

select_node-Chosen_example : Chosen catalog observations needs selects.0.0 selects.0.1
select_node-Chosen_example = select_node-Chosen catalog observations needs selects.0 selects.1

known : (o : Observation ℕ) → In o observations → Known (nodes_by_id catalog.nodes []) o.node_id
unfolding nodes_by_id get put
known o here = (node "a", refl)
known o (there here) = (node "b", refl)
known o (there (there m)) = elim m [ ]

b-Fits : Fits needs (node "b") (status [])
unfolding is_truthy
b-Fits = record { capable = (here, tt); deployed = tt; roomy = omega arith; probed = refl }

select_node-Returns_example : Returns (select_node catalog observations needs)
unfolding nodes_by_id get put
select_node-Returns_example =
    select_node-Returns catalog observations needs known
      (record { node_id = "b"; node = some (status []) }) (node "b") (status []) (there here) refl
      refl b-Fits

plans : Returns (plan_batch_nodes catalog observations needs 3)
unfolding plan_batch_nodes select_node weigh choose nodes_by_id node_at decision_of reasons_of
    status_reasons lacking shortfall reason_if choice_if rank_of rank_lt idle_gpus is_truthy is_text
    get put mem filter_by sort_by count_by first_min plan_loop rank_all least_of projected status_of
    observation_at observed_by_id eligible_ids bump
plans = (_, refl)

plan_batch_nodes-Planned_example : Planned catalog observations needs 3 plans.0.0 plans.0.1
plan_batch_nodes-Planned_example =
    plan_batch_nodes-Planned catalog observations needs 3 plans.0 plans.1
