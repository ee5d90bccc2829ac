-- ===== src/Examples/ServiceSpecs.antt =====
-- A contract of a service.
use gpu_infra.Prelude.{
  ℕ, ◌≡◌, refl, String, none, some, [], ◌∷◌, Result, ok, any, all, each, mem, get, put, Dict, mem_ℕ,
}
use gpu_infra.Json.{Json, str, arr, obj}
use gpu_infra.Fault.{Fault}
use gpu_infra.Contracts.Values.{
  expect_object, expect_list, strict_keys, item, identifier, positive_number, positive_int,
  optional_timeout, text, strip, is_identifier,
}
use gpu_infra.Contracts.Stage.{parse_command, command_word}
use gpu_infra.Contracts.Task.{is_text}
use gpu_infra.Services.Spec.{
  Url, ServiceResources, ManagedServiceSpec, rstrip, is_loopback, is_bare, normalize_loopback_url,
  as_contract_error, is_static_identity, is_env_name, parse_env, service_identity, identity_text,
  resolved_path, service_resources, service_head, service_launch, load_service_spec,
}
use gpu_infra.Services.SpecSound.{ServiceOk, load_service_spec-ServiceOk}
use gpu_infra.Store.Types.{Times}
use gpu_infra.Store.Ops.{is_run_id}
use gpu_infra.Services.Deployments.{
  Deployment, DeploymentState, to_state, ready, first_deployment, service_request, write_deployment,
  read_deployment, deployment_state, update_deployment, change_deployment, stamp_deployment,
}
use gpu_infra.Services.Stamps.{Stamped, update_deployment-Stamped}
use gpu_infra.Examples.Data.{whole_floats, platform, array, object, number}

abbrev local_url : Url
local_url = record {
  scheme = "http";
  username = none;
  password = none;
  hostname = some "127.0.0.1";
  path = "";
  params = "";
  query = "";
  fragment = "";
  port = ok (some 8000);
}

abbrev urlparse : String → Result Fault Url
urlparse url = ok local_url

abbrev launch_json : Json ℕ
launch_json = obj (
    object (
      ("cwd", str "/serve")
      ∷ ("command", arr (array (str "serve" ∷ [])))
      ∷ ("env", obj (object (("MODE", str "fast") ∷ [])))
      ∷ []))

abbrev service_json : Json ℕ
service_json = obj (
    object (
      ("schema", str "kernelinfra.service.v1")
      ∷ ("service_id", str "eval")
      ∷ ("owner", str "team")
      ∷ ("service_url", str "http://127.0.0.1:8000/")
      ∷ ("source_root", str "/serve")
      ∷ ("identity_prefix", str "eval+")
      ∷ ("launch", launch_json)
      ∷ ("resources", obj (object (("gpu_count", number 1) ∷ ("run_timeout_s", number 60) ∷ [])))
      ∷ []))

abbrev eval_resources : ServiceResources ℕ
eval_resources = record {
  gpu_count = 1;
  estimate_s = none;
  queue_timeout_s = none;
  run_timeout_s = 60;
}

abbrev eval_service : ManagedServiceSpec ℕ
eval_service = record {
  service_id = "eval";
  description = "text";
  owner = "team";
  service_url = "http://127.0.0.1:8000";
  source_root = "/serve";
  identity_prefix = "eval";
  cwd = "/serve";
  command = "serve" ∷ [];
  env = ("MODE", "fast") ∷ [];
  resources = eval_resources;
  readiness_timeout_s = 300;
  idle_grace_s = none;
  raw = service_json;
  digest = "digest";
  source_path = "/service.json";
}

loads : load_service_spec platform urlparse service_json "/service.json" ≡ ok eval_service
unfolding load_service_spec service_head service_launch service_resources resolved_path
    identity_text service_identity parse_env is_env_name is_static_identity as_contract_error
    normalize_loopback_url is_bare is_loopback rstrip is_text parse_command command_word
    expect_object expect_list strict_keys item identifier positive_number positive_int
    optional_timeout text strip is_identifier any all each mem get mem_ℕ
loads = refl

load_service_spec-ServiceOk_example : ServiceOk urlparse eval_service
load_service_spec-ServiceOk_example =
    load_service_spec-ServiceOk platform urlparse service_json "/service.json" eval_service loads

abbrev noon : Times
noon = record { updated = "12:00"; logged = "12:00" }

abbrev blank : Deployment ℕ
blank = record {
  request = service_request eval_service "eval-1" "12:00";
  state = none;
  events = [];
}

abbrev deployed : Dict (Deployment ℕ)
deployed = put [] "eval-1" (
    write_deployment blank "eval-1" noon "accepted"
      (first_deployment eval_service "eval-1" "12:00"))

abbrev ready_state : DeploymentState ℕ
ready_state =
    stamp_deployment
      (change_deployment (first_deployment eval_service "eval-1" "12:00") (to_state ready ∷ []))
      "12:00"

abbrev ready_store : Dict (Deployment ℕ)
ready_store = put deployed "eval-1" (
    write_deployment
      (write_deployment blank "eval-1" noon "accepted"
        (first_deployment eval_service "eval-1" "12:00"))
      "eval-1" noon "ready" ready_state)

readies :
    update_deployment deployed "eval-1" noon "ready" (to_state ready ∷ [])
    ≡ ok (ready_store, ready_state)
unfolding update_deployment read_deployment deployment_state is_run_id mem_ℕ get put
    write_deployment
readies = refl

update_deployment-Stamped_example : Stamped deployed "eval-1" (ready_store, ready_state)
update_deployment-Stamped_example =
    update_deployment-Stamped deployed "eval-1" noon "ready" (to_state ready ∷ [])
      (ready_store, ready_state) refl readies
