-- ===== src/Fleet/Fits.antt =====
-- When `select_node` of src/kernel_infra/fleet.py has no reason against a node.
use gpu_infra.Prelude.{
  ◌≤◌, String, Bool, true, false, not, Option, none, some, List, [], ◌∷◌, ◌++◌, Dict, get, get-put,
  ◌≡◌, refl, sym, ap, ◌∙◌, All, All-at, All-of_In, In, here, there, In-cons, mem, filter_by,
  sort_by, In-sort_by, text_lt, ltb, eq_iff, ◌==◌, Bool-cases, Option-cases, ◌⊎◌, inl, inr, ok,
  arith, mem-In, In-mem,
}
use mathlib.Core.Path.{subst}
use gpu_infra.Json.{Floats}
use gpu_infra.Diagnostics.Read.{is_truthy}
use gpu_infra.Fleet.Types.{FleetNode, FleetCatalog}
use gpu_infra.Fleet.Selection.{
  NodeStatus, Observation, Choice, Shortfall, insufficient_disk, broker_probe_error,
  missing_capabilities, missing_deployments, Needs, lacking, shortfall, reason_if, nodes_by_id,
  node_at, status_reasons, reasons_of, choice_if,
}

pub some-injective : {A : Type 0} {a b : A} → ◌≡◌ {A = Option A} (some a) (some b) → a ≡ b
some-injective h = cc

pub nodes_by_id-In :
    (nodes : List FleetNode) (found : Dict FleetNode) (id : String) (n : FleetNode)
    → get (nodes_by_id nodes found) id ≡ some n
    → (In n nodes × (n.node_id ≡ id)) ⊎ (get found id ≡ some n)
unfolding nodes_by_id
nodes_by_id-In [] found id n h = inr h
nodes_by_id-In (k ∷ nodes) found id n h = elim (nodes_by_id-In nodes _ id n h) [
  | inl (m, e) ↦ inl (there m, e)
  | inr q ↦ elim (Bool-cases (k.node_id == id)) [
    | inl e ↦
        let same : k ≡ n = ground (arith, get-put found k.node_id id k, e, q) in
        inl (
          subst (λ x. In n (x ∷ nodes)) (sym same) here,
          ap (λ x. x.node_id) (sym same) ∙ (eq_iff k.node_id id).0 e,
        )
    | inr e ↦ inr (ground (arith, get-put found k.node_id id k, e, q))
  ]
]

filter_by-keeps :
    {A : Type 0} (p : A → Bool) {x : A} (xs : List A) → In x xs → p x ≡ true → In x (filter_by p xs)
unfolding filter_by
filter_by-keeps p [] m h = elim m [ ]
filter_by-keeps p (y ∷ xs) m h = elim (Bool-cases (p y)) [
  | inl e ↦
      rw e (elim (In-cons m) [ inl q ↦ rw (sym q) here | inr n ↦ there (filter_by-keeps p xs n h) ])
  | inr e ↦ rw e (elim (In-cons m) [
    | inl q ↦ absurd (ground (arith, e, h, q))
    | inr n ↦ filter_by-keeps p xs n h
  ])
]

filter_by-nil :
    {A : Type 0} (p : A → Bool) (xs : List A) → All (λ x. p x ≡ false) xs → filter_by p xs ≡ []
unfolding filter_by
filter_by-nil p [] h = refl
filter_by-nil p (x ∷ xs) h = rw (h.0, filter_by-nil p xs h.1) refl

nil-absurd : {A : Type 0} {x : A} {xs : List A} → xs ≡ [] → ¬ In x xs
nil-absurd e m = elim (rw e at m) [ ]

lacking-nil :
    (required present : List String)
    → lacking required present ≡ []
    → All (λ x. In x present) required
unfolding lacking
lacking-nil required present h =
    All-of_In (λ x. In x present) required
      (λ x m. elim (Bool-cases (mem x present)) [
        | inl e ↦ mem-In x present e
        | inr e ↦ absurd (
            nil-absurd h (
              In-sort_by text_lt _
                (filter_by-keeps (λ x. not (mem x present)) required m (ground arith))))
      ])

nil-lacking :
    (required present : List String)
    → All (λ x. In x present) required
    → lacking required present ≡ []
unfolding lacking sort_by
nil-lacking required present h =
    let nothing =
      filter_by-nil (λ x. not (mem x present)) required
        (All-of_In _ required
          (λ x m. let found = In-mem x present (All-at _ h m) in ground arith)) in
    rw nothing refl

shortfall-nil : (r : List String → Shortfall) (xs : List String) → shortfall r xs ≡ [] → xs ≡ []
unfolding shortfall
shortfall-nil r [] h = refl
shortfall-nil r (x ∷ xs) h = cc

reason_if-nil : (b : Bool) (r : Shortfall) → reason_if b r ≡ [] → b ≡ false
unfolding reason_if
reason_if-nil true r h = cc
reason_if-nil false r h = refl

pub append-nil : {A : Type 0} (xs ys : List A) → xs ++ ys ≡ [] → (xs ≡ []) × (ys ≡ [])
append-nil [] ys h = (refl, h)
append-nil (x ∷ xs) ys h = cc

pub node_at-eq-ok :
    (d : Dict FleetNode) (id : String) (n : FleetNode) → node_at d id ≡ ok n → get d id ≡ some n
unfolding node_at
node_at-eq-ok d id n h = elim (Option-cases (get d id)) [
  | inl e ↦ absurd (ground (arith, e, h))
  | inr (k, e) ↦ e ∙ ap some (ground (arith, e, h))
]

module _ {F : Type 0} ⦃fl : Floats F⦄ where
  -- The node has what is needed, and its broker saw its GPUs.
  pub record Fits (needs : Needs) (node : FleetNode) (status : NodeStatus F) : Type 0 where
    pub capable : All (λ x. In x node.capabilities) needs.capabilities
    pub deployed : All (λ x. In x status.ready_deployments) needs.deployments
    pub roomy : needs.min_free_bytes ≤ status.free_bytes
    pub probed : is_truthy status.broker.probe_error ≡ false

  pub status_reasons-Fits :
      (needs : Needs) (node : FleetNode) (status : NodeStatus F)
      → status_reasons needs node status ≡ []
      → Fits needs node status
  unfolding status_reasons
  status_reasons-Fits needs node status h =
      let (a, h1) = append-nil _ _ h in
      let (b, h2) = append-nil _ _ h1 in
      let (c, d) = append-nil (reason_if _ insufficient_disk) _ h2 in
      record {
        capable = lacking-nil _ _ (shortfall-nil missing_capabilities _ a);
        deployed = lacking-nil _ _ (shortfall-nil missing_deployments _ b);
        roomy = (let room = reason_if-nil _ insufficient_disk c in ground arith);
        probed = reason_if-nil _ broker_probe_error d;
      }

  pub Fits-status_reasons :
      (needs : Needs) (node : FleetNode) (status : NodeStatus F)
      → Fits needs node status
      → status_reasons needs node status ≡ []
  unfolding status_reasons shortfall reason_if
  Fits-status_reasons needs node status f =
      let a = nil-lacking needs.capabilities node.capabilities f.capable in
      let b = nil-lacking needs.deployments status.ready_deployments f.deployed in
      let room : ltb status.free_bytes needs.min_free_bytes ≡ false =
        (let r = f.roomy in ground arith) in
      rw (a, b, room, f.probed) refl

  -- What an element of the list of eligible nodes is.
  pub record Eligible (catalog : FleetCatalog F) (observations : List (Observation F))
      (needs : Needs) (c : Choice F) : Type 0 where
    pub listed : In c.node catalog.nodes
    pub seen : In c.observation observations
    pub same_id : c.observation.node_id ≡ c.node.node_id
    pub observed : c.observation.node ≡ some c.status
    pub fits : Fits needs c.node c.status

  pub choice_if-step :
      (catalog : FleetCatalog F) (needs : Needs) (observations : List (Observation F))
      (node : FleetNode) (o : Observation F)
      → In node catalog.nodes
      → In o observations
      → o.node_id ≡ node.node_id
      → (status : Option (NodeStatus F)) (reasons : List Shortfall) → o.node ≡ status
      → reasons_of needs node status ≡ reasons
      → All (Eligible catalog observations needs) (choice_if reasons node o status)
  unfolding choice_if reasons_of
  choice_if-step catalog needs observations node o listed seen same none [] e q = cc
  choice_if-step catalog needs observations node o listed seen same none (r ∷ rs) e q = tt
  choice_if-step catalog needs observations node o listed seen same (some status) (r ∷ rs) e q = tt
  choice_if-step catalog needs observations node o listed seen same (some status) [] e q = (
    record {
      listed = listed;
      seen = seen;
      same_id = same;
      observed = e;
      fits = status_reasons-Fits needs node status q;
    },
    tt,
  )
