-- ===== src/Fleet/LocatorBack.antt =====
-- The locators of src/kernel_infra/fleet.py, written and read back.
use Prim.Native.Char.{Char, code}
use Prim.Native.String
use package.text.Mathlib.TextEquality.{Char-path}
use package.text.Mathlib.TextLemmas.{nil-append, cons-append}
use gpu_infra.Prelude.{
  ℕ, String, Bool, true, false, not, ◌&&◌, List, [], ◌∷◌, ◌≡◌, refl, sym, ap, ◌∙◌, map, eqb, all,
  count_by, filter_by, filter_by-In, In, here, there, In-cons, In-map, Distinct, eq_iff, ◌==◌,
  Bool-cases, inl, inr, ok, >>=-eq-ok, guard-bind-eq-ok, ok-injective, arith, ◌≤◌, All-at,
}
use mathlib.Core.Path.{subst}
use gpu_infra.Json.{Floats}
use gpu_infra.Contracts.Values.{codes, is_identifier, id_char}
use gpu_infra.Fleet.Types.{FleetNode, FleetCatalog, is_run_name}
use gpu_infra.Fleet.CatalogSound.{NodeOk, CatalogOk}
use gpu_infra.Fleet.Catalog.{fleet_node, only_node}
use gpu_infra.Fleet.Locator.{before, after, parse_locator}

-- the text of a locator
abbrev pub locator : String → String → String
locator node_id run_id = String.◌++◌ node_id (String.◌++◌ ":" run_id)

-- A text without a colon.
abbrev pub IsPlain : String → Type 0
IsPlain s = all (λ c. not (eqb c 58)) (codes s) ≡ true

locator-nil : (t : String) → locator "" t ≡ String.◌∷◌ ":" t
locator-nil t =
    nil-append (String.◌++◌ ":" t)
    ∙ (cons-append ":" "" t ∙ ap (λ u. String.◌∷◌ ":" u) (nil-append t))

locator-cons : (c : Char) (s t : String) → locator (String.◌∷◌ c s) t ≡ String.◌∷◌ c (locator s t)
locator-cons c s t = cons-append c s (String.◌++◌ ":" t)

before-locator : (s t : String) → IsPlain s → before 58 (locator s t) ≡ s
unfolding before all
before-locator String.[] t h = rw (locator-nil t) refl
before-locator (String.◌∷◌ c s) t h =
    let rest = before-locator s t (ground arith) in
    let other : eqb (code c) 58 ≡ false = ground arith in rw (locator-cons c s t, other, rest) refl

after-locator : (s t : String) → IsPlain s → after 58 (locator s t) ≡ t
unfolding after all
after-locator String.[] t h = rw (locator-nil t) refl
after-locator (String.◌∷◌ c s) t h =
    let rest = after-locator s t (ground arith) in
    let other : eqb (code c) 58 ≡ false = ground arith in rw (locator-cons c s t, other, rest) refl

-- how many colons a text has
abbrev colons : String → ℕ
colons s = count_by (λ c. eqb c 58) (codes s)

colons-plain : (s : String) → IsPlain s → colons s ≡ 0
unfolding count_by all
colons-plain String.[] h = refl
colons-plain (String.◌∷◌ c s) h = let rest = colons-plain s (ground arith) in ground arith

colons-locator : (s t : String) → IsPlain s → IsPlain t → colons (locator s t) ≡ 1
unfolding count_by all
colons-locator String.[] t h k = let rest = colons-plain t k in rw (locator-nil t, rest) omega arith
colons-locator (String.◌∷◌ c s) t h k =
    let rest = colons-locator s t (ground arith) k in
    let other : eqb (code c) 58 ≡ false = ground arith in
    rw (locator-cons c s t, other, rest) omega arith

-- A name that a pattern without the colon matches.
all-plain :
    (p : ℕ → Bool)
    → ((c : ℕ) → p c ≡ true → eqb c 58 ≡ false)
    → (cs : List ℕ) → all p cs ≡ true
    → all (λ c. not (eqb c 58)) cs ≡ true
unfolding all
all-plain p f [] h = refl
all-plain p f (c ∷ cs) h =
    let rest = all-plain p f cs (ground arith) in let first = f c (ground arith) in ground arith

id_char-plain : (c : ℕ) → id_char c ≡ true → eqb c 58 ≡ false
id_char-plain c h = ground arith

is_identifier-plain : (cs : List ℕ) → is_identifier cs ≡ true → all (λ c. not (eqb c 58)) cs ≡ true
unfolding is_identifier all
is_identifier-plain [] h = refl
is_identifier-plain (c ∷ cs) h =
    let rest = all-plain id_char id_char-plain cs (ground arith) in ground arith

is_run_name-plain : (cs : List ℕ) → is_run_name cs ≡ true → all (λ c. not (eqb c 58)) cs ≡ true
unfolding is_run_name all
is_run_name-plain [] h = refl
is_run_name-plain (c ∷ cs) h =
    let rest = all-plain id_char id_char-plain cs (ground arith) in ground arith

join_parts : (v : String) → 1 ≤ colons v → locator (before 58 v) (after 58 v) ≡ v
unfolding before after count_by
join_parts String.[] h = absurd (omega (arith, h))
join_parts (String.◌∷◌ c s) h = elim (Bool-cases (eqb (code c) 58)) [
  | inl e ↦
      let same : c ≡ ":" = Char-path c ":" (ground arith) in
      let back : String.◌∷◌ ":" s ≡ String.◌∷◌ c s = ap (λ d. String.◌∷◌ d s) (sym same) in
      rw (e, locator-nil s) back
  | inr e ↦
      let rest = join_parts s (ground (arith, e, h)) in
      rw (e, locator-cons c (before 58 s) (after 58 s), rest) refl
]

filter_by-none :
    (id : String) (nodes : List FleetNode)
    → ¬ In id (map (λ n. n.node_id) nodes)
    → filter_by (λ n. n.node_id == id) nodes ≡ []
unfolding filter_by
filter_by-none id [] h = refl
filter_by-none id (n ∷ nodes) h =
    let rest = filter_by-none id nodes (λ m. h (there m)) in
    elim (Bool-cases (n.node_id == id)) [
      | inl e ↦ absurd (h (rw ((eq_iff n.node_id id).0 e) here))
      | inr e ↦ rw (e, rest) refl
    ]

filter_by-only :
    (n : FleetNode) (nodes : List FleetNode)
    → Distinct (map (λ n. n.node_id) nodes)
    → In n nodes
    → filter_by (λ m. m.node_id == n.node_id) nodes ≡ n ∷ []
unfolding filter_by
filter_by-only n [] h m = elim m [ ]
filter_by-only n (k ∷ nodes) h m = elim (In-cons m) [
  | inl e ↦
      let same = ap (λ x. x.node_id) e in
      let none_else =
        filter_by-none n.node_id nodes
          (λ i. h.0 (subst (λ id. In id (map (λ n. n.node_id) nodes)) same i)) in
      let met : (k.node_id == n.node_id) ≡ true = (eq_iff k.node_id n.node_id).1 (sym same) in
      let one : k ∷ [] ≡ n ∷ [] = ap (λ x. x ∷ []) (sym e) in rw (met, none_else) one
  | inr i ↦
      let rest = filter_by-only n nodes h.1 i in
      elim (Bool-cases (k.node_id == n.node_id)) [
        | inl e ↦ absurd (
            h.0 (
              subst (λ id. In id (map (λ n. n.node_id) nodes))
                (sym ((eq_iff k.node_id n.node_id).0 e)) (In-map (λ n. n.node_id) i)))
        | inr e ↦ rw (e, rest) refl
      ]
]

only_node-eq-ok : (nodes : List FleetNode) (n : FleetNode) → only_node nodes ≡ ok n → nodes ≡ n ∷ []
unfolding only_node
only_node-eq-ok [] n h = cc
only_node-eq-ok (k ∷ []) n h = ap (λ x. x ∷ []) (ok-injective h)
only_node-eq-ok (k ∷ l ∷ nodes) n h = cc

module _ {F : Type 0} ⦃fl : Floats F⦄ (c : FleetCatalog F) where
  -- The locator of a run on a node of a catalog that loaded is read back as that node and run.
  pub parse_locator-locator :
      CatalogOk c
      → (n : FleetNode) → In n c.nodes
      → (run_id : String) → is_run_name (codes run_id) ≡ true
      → parse_locator c (locator n.node_id run_id) ≡ ok (n, run_id)
  unfolding parse_locator fleet_node only_node
  parse_locator-locator good n m run_id named =
      let id_ok = (All-at NodeOk good.nodes_ok m).address.id_ok in
      let plain = is_identifier-plain (codes n.node_id) id_ok in
      let one = colons-locator n.node_id run_id plain (is_run_name-plain (codes run_id) named) in
      let first = before-locator n.node_id run_id plain in
      let second = after-locator n.node_id run_id plain in
      let only = filter_by-only n c.nodes good.nodes_distinct m in
      rw (one, first, second, id_ok, named, only) refl

  -- What is read as a locator is the locator of the run on a node of the catalog.
  pub parse_locator-eq-ok :
      (v : String) (n : FleetNode) (run_id : String)
      → parse_locator c v ≡ ok (n, run_id)
      → In n c.nodes × (is_run_name (codes run_id) ≡ true) × (locator n.node_id run_id ≡ v)
  unfolding parse_locator fleet_node
  parse_locator-eq-ok v n run_id h =
      let (one, h1) = guard-bind-eq-ok (eqb (colons v) 1) _ _ h in
      let (valid, h2) =
        guard-bind-eq-ok (is_identifier (codes (before 58 v)) && is_run_name (codes (after 58 v))) _
          _ h1 in
      let (k, found, h3) =
        >>=-eq-ok (only_node (filter_by (λ n. n.node_id == before 58 v) c.nodes)) _ h2 in
      let (i, e) =
        filter_by-In (λ n. n.node_id == before 58 v) c.nodes
          (subst (In k) (sym (only_node-eq-ok _ k found)) here) in
      let whole : is_run_name (codes (after 58 v)) ≡ true = ground (arith, valid) in
      let split : ◌≡◌ {A = FleetNode × String} (k, after 58 v) (n, run_id) = ok-injective h3 in
      let named = (eq_iff k.node_id (before 58 v)).0 e in
      let joined = join_parts v (ground arith) in
      let back : locator k.node_id (after 58 v) ≡ v = rw named joined in
      subst (λ p. In p.0 c.nodes × (is_run_name (codes p.1) ≡ true) × (locator p.0.node_id p.1 ≡ v))
        split (i, whole, back)
