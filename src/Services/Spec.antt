-- ===== src/Services/Spec.antt =====
-- `load_service_spec` of src/kernel_infra/service_contracts.py once the file is decoded, and
-- `_normalize_loopback_url` of src/kernel_infra/service_attestation.py. The helpers `_strict_keys`,
-- `_object`, `_text` and `_positive` are those of contracts.py again. `urllib.parse` is a parameter.
use Prim.Native.Char.{Char, code}
use package.text.Mathlib.Text.{find?}
use gpu_infra.Prelude.{
  ℕ, String, Bool, not, ◌&&◌, ◌||◌, Option, List, [], ◌∷◌, Dict, get, eqb, is_some, option_or,
  if◌then◌else◌, mem, mem_ℕ, Result, ok, err, ◌>>=◌, ◌>>◌, guard, ◌==◌,
}
use gpu_infra.Json.{Json, num, str, obj, float, end, Floats}
use gpu_infra.Fault.{Fault, contract_error, value_error}
use gpu_infra.Contracts.Values.{
  codes, strip, is_identifier, expect_object, strict_keys, item, text, positive_number,
  positive_int, optional_timeout,
}
use gpu_infra.Contracts.Spec.{Platform}
use gpu_infra.Contracts.Stage.{parse_command, value_or_none}
use gpu_infra.Contracts.Task.{is_text}

-- what the code reads of `urllib.parse.urlparse(url)`; reading the port may raise
pub record Url : Type 0 where
  pub scheme : String
  -- the part before an `@`, which the code does not look at
  pub username : Option String
  pub password : Option String
  pub hostname : Option String
  pub path : String
  pub params : String
  pub query : String
  pub fragment : String
  pub port : Result Fault (Option ℕ)

pub record ServiceResources (F : Type 0) : Type 0 where
  pub gpu_count : ℕ
  pub estimate_s : Option F
  pub queue_timeout_s : Option F
  pub run_timeout_s : F

pub record ManagedServiceSpec (F : Type 0) : Type 0 where
  pub service_id : String
  pub description : String
  pub owner : String
  pub service_url : String
  pub source_root : String
  pub identity_prefix : String
  pub cwd : String
  pub command : List String
  pub env : Dict String
  pub resources : ServiceResources F
  pub readiness_timeout_s : F
  pub idle_grace_s : Option F
  pub raw : Json F
  pub digest : String
  pub source_path : String

abbrev keep_end : ℕ → Char → String → String
keep_end n c String.[] = if eqb (code c) n then "" else String.◌∷◌ c ""
keep_end n c (String.◌∷◌ d s) = String.◌∷◌ c (String.◌∷◌ d s)

-- `value.rstrip(c)` for one character
unfoldable pub rstrip : ℕ → String → String
rstrip n String.[] = ""
rstrip n (String.◌∷◌ c s) = keep_end n c (rstrip n s)

unfoldable pub is_loopback : Url → Bool
is_loopback url =
    url.scheme == "http" && mem (option_or url.hostname "") ("127.0.0.1" ∷ "localhost" ∷ [])

unfoldable pub is_bare : Url → Bool
is_bare url =
    mem url.path ("" ∷ "/" ∷ []) && (url.params == "" && (url.query == "" && url.fragment == ""))

-- 47 is the code of the slash
unfoldable pub normalize_loopback_url : (String → Result Fault Url) → String → Result Fault String
normalize_loopback_url urlparse value = do
  let url = rstrip 47 value
  parsed ← urlparse url
  guard (is_loopback parsed) (value_error "v0 service deployment must use a loopback HTTP URL")
  guard (is_bare parsed)
      (value_error "service URL must contain only scheme, loopback host, and port")
  port ← parsed.port
  guard (is_some port) (value_error "service URL must include an explicit port")
  ok url

-- `except ValueError as exc: raise ContractError(str(exc)) from exc`
unfoldable pub as_contract_error : {A : Type 0} → Result Fault A → Result Fault A
as_contract_error (ok a) = ok a
as_contract_error (err (value_error message)) = err (contract_error message)
as_contract_error (err e) = err e

-- `needle in value`
abbrev occurs : String → String → Bool
occurs needle value = is_some (find? value needle)

unfoldable pub is_static_identity : String → Bool
is_static_identity identity_prefix =
    not (occurs "admission@sha256:" identity_prefix || occurs "executable@sha256:" identity_prefix)

-- the test of one name of `env`; 61 is the code of the equals sign
unfoldable pub is_env_name : String → Bool
is_env_name key = not (key == "") && not (mem_ℕ 61 (codes key))

abbrev env_error : Fault
env_error = contract_error "service.launch.env must map valid names to strings"

abbrev pub required_fields : List String
required_fields =
    "schema" ∷ "service_id" ∷ "owner" ∷ "service_url" ∷ "source_root" ∷ "identity_prefix" ∷ "launch"
    ∷ "resources" ∷ []

module _ {F : Type 0} where
  unfoldable pub parse_env : List (String × Json F) → Result Fault (Dict String)
  parse_env [] = ok []
  parse_env ((key, str value) ∷ rest) = do
    guard (is_env_name key) env_error
    env ← parse_env rest
    ok ((key, value) ∷ env)
  parse_env ((key, _) ∷ rest) = err env_error

  unfoldable pub service_identity : Json F → Result Fault String
  service_identity value = do
    service_id ← text value
    guard (is_identifier (codes service_id))
        (contract_error "service.service_id must match the pattern")
    ok service_id

  unfoldable pub identity_text : Json F → Result Fault String
  identity_text value = do
    identity_prefix ← text value
    guard (is_static_identity identity_prefix)
        (contract_error "service.identity_prefix must not predeclare dynamic admission identity")
    ok identity_prefix

  unfoldable pub resolved_path : Platform F → String → Json F → Result Fault String
  resolved_path platform base value = do path ← text value; ok (platform.resolve base path)

module _ {F : Type 0} ⦃fl : Floats F⦄ where
  -- the `resources` object up to the queue timeout; the run timeout is read with the record
  unfoldable pub service_resources : Json F → Result Fault (Dict (Json F) × ℕ × Option F × Option F)
  service_resources value = do
    resources ← expect_object value
    strict_keys resources ("gpu_count" ∷ "run_timeout_s" ∷ [])
        ("estimate_s" ∷ "queue_timeout_s" ∷ [])
    gpu_count ← positive_int (item resources "gpu_count")
    estimate ← optional_timeout (value_or_none resources "estimate_s")
    queue_timeout ← optional_timeout (value_or_none resources "queue_timeout_s")
    ok (resources, gpu_count, estimate, queue_timeout)

  -- the fields before `launch`
  unfoldable pub service_head :
      (String → Result Fault Url) → Dict (Json F) → Result Fault (String × String × String × String)
  service_head urlparse raw = do
    guard (is_text (item raw "schema") "kernelinfra.service.v1")
        (contract_error "service.schema must be the service schema")
    service_id ← service_identity (item raw "service_id")
    owner ← text (item raw "owner")
    identity_prefix ← identity_text (item raw "identity_prefix")
    url_text ← text (item raw "service_url")
    service_url ← as_contract_error (normalize_loopback_url urlparse url_text)
    ok (service_id, owner, identity_prefix, service_url)

  -- the `launch` object up to its environment; its directory is read with the record
  unfoldable pub service_launch : Json F → Result Fault (Dict (Json F) × List String × Dict String)
  service_launch value = do
    launch ← expect_object value
    strict_keys launch ("cwd" ∷ "command" ∷ []) ("env" ∷ [])
    command ← parse_command (item launch "command")
    env_fields ← expect_object (option_or (get launch "env") (obj end))
    env ← parse_env env_fields
    ok (launch, command, env)

  unfoldable pub load_service_spec :
      Platform F
      → (String → Result Fault Url)
      → Json F
      → String
      → Result Fault (ManagedServiceSpec F)
  load_service_spec platform urlparse value source = do
    raw ← expect_object value
    strict_keys raw required_fields ("description" ∷ "readiness_timeout_s" ∷ "idle_grace_s" ∷ [])
    (service_id, owner, identity_prefix, service_url) ← service_head urlparse raw
    (launch, command, env) ← service_launch (item raw "launch")
    (resources, gpu_count, estimate, queue_timeout) ← service_resources (item raw "resources")
    source_root ← resolved_path platform (platform.parent source) (item raw "source_root")
    cwd ← resolved_path platform (platform.parent source) (item launch "cwd")
    run_timeout ← positive_number (item resources "run_timeout_s")
    readiness ←
        positive_number (option_or (get raw "readiness_timeout_s") (num (float (fl.lit 300))))
    idle_grace ← optional_timeout (value_or_none raw "idle_grace_s")
    ok (record {
      service_id = service_id;
      description = strip (platform.show (option_or (get raw "description") (str "")));
      owner = owner;
      service_url = service_url;
      source_root = source_root;
      identity_prefix = rstrip 43 identity_prefix;
      cwd = cwd;
      command = command;
      env = env;
      resources = record {
        gpu_count = gpu_count;
        estimate_s = estimate;
        queue_timeout_s = queue_timeout;
        run_timeout_s = run_timeout;
      };
      readiness_timeout_s = readiness;
      idle_grace_s = idle_grace;
      raw = value;
      digest = platform.digest value;
      source_path = source;
    })
