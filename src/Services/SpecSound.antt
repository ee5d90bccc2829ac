-- ===== src/Services/SpecSound.antt =====
-- What a service contract that loads satisfies, src/kernel_infra/service_contracts.py.
use mathlib.Core.Path.{subst}
use gpu_infra.Prelude.{
  ℕ, ◌≡◌, refl, ◌<◌, String, true, false, Option, none, some, List, [], ◌∷◌, Dict, get, option_or,
  All, is_some, ◌⊎◌, inl, inr, ap, mem, eq_iff, Bool-cases, ◌==◌, is_empty, Result, ok, err,
  ok-injective, arith, guard-bind-eq-ok, >>=-eq-ok,
}
use gpu_infra.Json.{Json, str, num, float, Floats}
use gpu_infra.Contracts.Stage.{value_or_none}
use gpu_infra.Fault.{Fault}
use gpu_infra.Contracts.Values.{
  codes, expect_object, strict_keys, item, is_identifier, positive_finite, positive_number,
  optional_timeout,
}
use gpu_infra.Contracts.Spec.{Platform}
use gpu_infra.Contracts.StageSound.{positive_number-finite, positive_int-pos, parse_command-ne-nil}
use gpu_infra.Services.Spec.{
  Url, ManagedServiceSpec, is_loopback, is_bare, rstrip, normalize_loopback_url, as_contract_error,
  is_env_name, parse_env, service_identity, service_resources, service_head, service_launch,
  resolved_path, required_fields, load_service_spec,
}

-- The URL of the contract, as the parser of URLs reads it.
pub record UrlOk (urlparse : String → Result Fault Url) (url : String) : Type 0 where
  pub parsed : Url
  pub read : urlparse url ≡ ok parsed
  pub http : parsed.scheme ≡ "http"
  pub loopback : (parsed.hostname ≡ some "127.0.0.1") ⊎ (parsed.hostname ≡ some "localhost")
  pub path : (parsed.path ≡ "") ⊎ (parsed.path ≡ "/")
  pub rest : (parsed.params ≡ "") × (parsed.query ≡ "") × (parsed.fragment ≡ "")
  pub port : (p : ℕ) × (parsed.port ≡ ok (some p))

mem-two : (s a b : String) → mem s (a ∷ b ∷ []) ≡ true → (s ≡ a) ⊎ (s ≡ b)
unfolding mem
mem-two s a b h = elim (Bool-cases (s == a)) [
  | inl e ↦ inl ((eq_iff s a).0 e)
  | inr e ↦ inr ((eq_iff s b).0 (ground (arith, e, h)))
]

is_loopback-http : (u : Url) → is_loopback u ≡ true → u.scheme ≡ "http"
unfolding is_loopback
is_loopback-http u h = (eq_iff u.scheme "http").0 (ground (arith, h))

loopback_host :
    (o : Option String)
    → (option_or o "" ≡ "127.0.0.1") ⊎ (option_or o "" ≡ "localhost")
    → (o ≡ some "127.0.0.1") ⊎ (o ≡ some "localhost")
loopback_host none (inl e) =
    let same : false ≡ true = (eq_iff "" "127.0.0.1").1 e in absurd (cc same)
loopback_host none (inr e) =
    let same : false ≡ true = (eq_iff "" "localhost").1 e in absurd (cc same)
loopback_host (some s) (inl e) = inl (ap some e)
loopback_host (some s) (inr e) = inr (ap some e)

is_loopback-host :
    (u : Url)
    → is_loopback u ≡ true
    → (u.hostname ≡ some "127.0.0.1") ⊎ (u.hostname ≡ some "localhost")
unfolding is_loopback
is_loopback-host u h =
    let listed : mem (option_or u.hostname "") ("127.0.0.1" ∷ "localhost" ∷ []) ≡ true =
      ground (arith, h) in
    loopback_host u.hostname (mem-two (option_or u.hostname "") "127.0.0.1" "localhost" listed)

is_bare-path : (u : Url) → is_bare u ≡ true → (u.path ≡ "") ⊎ (u.path ≡ "/")
unfolding is_bare
is_bare-path u h =
    let listed : mem u.path ("" ∷ "/" ∷ []) ≡ true = ground (arith, h) in
    mem-two u.path "" "/" listed

is_bare-rest : (u : Url) → is_bare u ≡ true → (u.params ≡ "") × (u.query ≡ "") × (u.fragment ≡ "")
unfolding is_bare
is_bare-rest u h = (
  (eq_iff u.params "").0 (ground (arith, h)),
  (eq_iff u.query "").0 (ground (arith, h)),
  (eq_iff u.fragment "").0 (ground (arith, h)),
)

some_port : (o : Option ℕ) → is_some o ≡ true → (p : ℕ) × (o ≡ some p)
some_port none h = cc
some_port (some p) h = (p, refl)

normalize_loopback_url-UrlOk :
    (urlparse : String → Result Fault Url) (value url : String)
    → normalize_loopback_url urlparse value ≡ ok url
    → UrlOk urlparse url
unfolding normalize_loopback_url
normalize_loopback_url-UrlOk urlparse value url h =
    let (parsed, read, h1) = >>=-eq-ok (urlparse (rstrip 47 value)) _ h in
    let (loopback, h2) = guard-bind-eq-ok (is_loopback parsed) _ _ h1 in
    let (bare, h3) = guard-bind-eq-ok (is_bare parsed) _ _ h2 in
    let (port, q, h4) = >>=-eq-ok parsed.port _ h3 in
    let (there_is, h5) = guard-bind-eq-ok (is_some port) _ _ h4 in
    let (p, e) = some_port port there_is in
    let same : rstrip 47 value ≡ url = ok-injective h5 in
    record {
      parsed = parsed;
      read = subst (λ u. urlparse u ≡ ok parsed) same read;
      http = is_loopback-http parsed loopback;
      loopback = is_loopback-host parsed loopback;
      path = is_bare-path parsed bare;
      rest = is_bare-rest parsed bare;
      port = (p, rw e at q);
    }

as_contract_error-ok :
    {A : Type 0} (r : Result Fault A) (a : A) → as_contract_error r ≡ ok a → r ≡ ok a
unfolding as_contract_error
as_contract_error-ok (ok b) a h = h
as_contract_error-ok (err (Fault.value_error m)) a h = cc
as_contract_error-ok (err _) a h = cc

url_accepted :
    (urlparse : String → Result Fault Url) (value url : String)
    → as_contract_error (normalize_loopback_url urlparse value) ≡ ok url
    → UrlOk urlparse url
url_accepted urlparse value url h =
    normalize_loopback_url-UrlOk urlparse value url
      (as_contract_error-ok (normalize_loopback_url urlparse value) url h)

module _ {F : Type 0} ⦃fl : Floats F⦄ where
  abbrev pub TimeoutOk : Option F → Type 0
  TimeoutOk none = Unit
  TimeoutOk (some t) = positive_finite t ≡ true

  pub record ServiceOk (urlparse : String → Result Fault Url) (s : ManagedServiceSpec F)
      : Type 0 where
    pub identified : is_identifier (codes s.service_id) ≡ true
    pub url : UrlOk urlparse s.service_url
    pub some_command : is_empty s.command ≡ false
    pub named : All (λ e. is_env_name e.0 ≡ true) s.env
    pub some_gpu : 0 < s.resources.gpu_count
    pub runs : positive_finite s.resources.run_timeout_s ≡ true
    pub readies : positive_finite s.readiness_timeout_s ≡ true
    pub estimates : TimeoutOk s.resources.estimate_s
    pub queues : TimeoutOk s.resources.queue_timeout_s
    pub idles : TimeoutOk s.idle_grace_s

  optional_timeout-TimeoutOk : (v : Json F) (o : Option F) → optional_timeout v ≡ ok o → TimeoutOk o
  unfolding optional_timeout
  optional_timeout-TimeoutOk v o h = grind (arith, positive_number-finite)

  parse_env-named :
      (rows : List (String × Json F)) (env : Dict String)
      → parse_env rows ≡ ok env
      → All (λ e. is_env_name e.0 ≡ true) env
  unfolding parse_env
  parse_env-named [] env h = subst (All (λ e. is_env_name e.0 ≡ true)) (ok-injective h) tt
  parse_env-named ((key, str value) ∷ rest) env h =
      let (good, h1) = guard-bind-eq-ok (is_env_name key) _ _ h in
      let (later, parsed, h2) = >>=-eq-ok (parse_env rest) _ h1 in
      subst (All (λ e. is_env_name e.0 ≡ true)) (ok-injective h2)
        (good, parse_env-named rest later parsed)
  parse_env-named ((key, _) ∷ rest) env h = cc

  service_resources-gpu :
      (v : Json F) (r : Dict (Json F) × ℕ × Option F × Option F)
      → service_resources v ≡ ok r
      → 0 < r.1
  unfolding service_resources
  service_resources-gpu v r h = grind (arith, positive_int-pos)

  service_resources-estimate :
      (v : Json F) (r : Dict (Json F) × ℕ × Option F × Option F)
      → service_resources v ≡ ok r
      → TimeoutOk r.2
  unfolding service_resources
  service_resources-estimate v r h = grind (arith, optional_timeout-TimeoutOk)

  service_resources-queue :
      (v : Json F) (r : Dict (Json F) × ℕ × Option F × Option F)
      → service_resources v ≡ ok r
      → TimeoutOk r.3
  unfolding service_resources
  service_resources-queue v r h = grind (arith, optional_timeout-TimeoutOk)

  service_identity-id :
      (v : Json F) (s : String) → service_identity v ≡ ok s → is_identifier (codes s) ≡ true
  unfolding service_identity
  service_identity-id v s h = ground arith

  service_head-id :
      (urlparse : String → Result Fault Url) (raw : Dict (Json F))
      (r : String × String × String × String)
      → service_head urlparse raw ≡ ok r
      → is_identifier (codes r.0) ≡ true
  unfolding service_head
  service_head-id urlparse raw r h = grind (arith, service_identity-id)

  service_head-url :
      (urlparse : String → Result Fault Url) (raw : Dict (Json F))
      (r : String × String × String × String)
      → service_head urlparse raw ≡ ok r
      → UrlOk urlparse r.3
  unfolding service_head
  service_head-url urlparse raw r h = grind (arith, url_accepted)

  service_launch-command :
      (v : Json F) (r : Dict (Json F) × List String × Dict String)
      → service_launch v ≡ ok r
      → is_empty r.1 ≡ false
  unfolding service_launch
  service_launch-command v r h = grind (arith, parse_command-ne-nil)

  service_launch-env :
      (v : Json F) (r : Dict (Json F) × List String × Dict String)
      → service_launch v ≡ ok r
      → All (λ e. is_env_name e.0 ≡ true) r.2
  unfolding service_launch
  service_launch-env v r h = grind (arith, parse_env-named)

  -- A service contract that loads names its service by an identifier, points to an HTTP URL of the
  -- loopback host with a port, without a path below the root, parameters, query or fragment (user
  -- information is not excluded), has a command and names that are fit for an environment, asks for a
  -- GPU, and every time limit in it is positive and finite.
  pub load_service_spec-ServiceOk :
      (platform : Platform F) (urlparse : String → Result Fault Url) (value : Json F)
      (source : String) (s : ManagedServiceSpec F)
      → load_service_spec platform urlparse value source ≡ ok s
      → ServiceOk urlparse s
  unfolding load_service_spec
  load_service_spec-ServiceOk platform urlparse value source s h =
      let (raw, _, a) = >>=-eq-ok (expect_object value) _ h in
      let (_, _, b) =
        >>=-eq-ok
          (strict_keys raw required_fields
            ("description" ∷ "readiness_timeout_s" ∷ "idle_grace_s" ∷ []))
          _ a in
      let (head, headed, c) = >>=-eq-ok (service_head urlparse raw) _ b in
      let (launch, launched, d) = >>=-eq-ok (service_launch (item raw "launch")) _ c in
      let (res, resourced, e) = >>=-eq-ok (service_resources (item raw "resources")) _ d in
      let base = platform.parent source in
      let (root, _, f) = >>=-eq-ok (resolved_path platform base (item raw "source_root")) _ e in
      let (cwd, _, g) = >>=-eq-ok (resolved_path platform base (item launch.0 "cwd")) _ f in
      let (runs, ran, i) = >>=-eq-ok (positive_number (item res.0 "run_timeout_s")) _ g in
      let ready_json = option_or (get raw "readiness_timeout_s") (num (float (fl.lit 300))) in
      let (ready, readied, j) = >>=-eq-ok (positive_number ready_json) _ i in
      let idle_json = value_or_none raw "idle_grace_s" in
      let (idle, idled, k) = >>=-eq-ok (optional_timeout idle_json) _ j in
      subst (ServiceOk urlparse) (ok-injective k) (record {
        identified = service_head-id urlparse raw head headed;
        url = service_head-url urlparse raw head headed;
        some_command = service_launch-command (item raw "launch") launch launched;
        named = service_launch-env (item raw "launch") launch launched;
        some_gpu = service_resources-gpu (item raw "resources") res resourced;
        runs = positive_number-finite (item res.0 "run_timeout_s") runs ran;
        readies = positive_number-finite ready_json ready readied;
        estimates = service_resources-estimate (item raw "resources") res resourced;
        queues = service_resources-queue (item raw "resources") res resourced;
        idles = optional_timeout-TimeoutOk idle_json idle idled;
      })
