-- ===== src/Contracts/StageSound.antt =====
-- What an accepted stage satisfies: `_parse_stage` of src/kernel_infra/contracts.py.
use gpu_infra.Prelude.{
  ℕ, ◌≡◌, ◌≤◌, ◌<◌, String, Bool, true, false, Option, none, some, List, [], ◌∷◌, Dict, mem,
  is_empty, distinct_ℕ, ok, ◌==◌, is_empty-each, length, arith, is_some,
}
use gpu_infra.Json.{Json, Floats}
use gpu_infra.Contracts.Values.{
  codes, is_identifier, positive_finite, identifier, positive_number, positive_int,
}
use gpu_infra.Contracts.Spec.{Platform, ResourceSpec, StageSpec}
use gpu_infra.Contracts.Stage.{
  stage_kinds, modes, executions, parse_stage, parse_resources, parse_scope, parse_stage_resources,
  parse_deployment, parse_command,
}

-- A scope holds distinct indices, at least as many as GPUs are asked for.
abbrev pub ScopeFits : ℕ → Option (List ℕ) → Type 0
ScopeFits gpu_count none = Unit
ScopeFits gpu_count (some ids) = (distinct_ℕ ids ≡ true) × (gpu_count ≤ length ids)

module _ {F : Type 0} ⦃fl : Floats F⦄ where
  pub record ResourcesOk (r : ResourceSpec F) : Type 0 where
    pub known_mode : mem r.mode modes ≡ true
    pub some_gpu : 0 < r.gpu_count
    pub runs : positive_finite r.run_timeout_s ≡ true
    pub scope : ScopeFits r.gpu_count r.allowed_gpu_ids

  -- resources are there exactly for broker execution
  abbrev pub MaybeOk : Bool → Option (ResourceSpec F) → Type 0
  MaybeOk without none = without ≡ true
  MaybeOk without (some r) = (without ≡ false) × ResourcesOk r

  pub positive_number-finite :
      (v : Json F) (x : F) → positive_number v ≡ ok x → positive_finite x ≡ true
  unfolding positive_number
  positive_number-finite v x h = ground arith

  parse_scope-ScopeFits :
      (v : Json F) (n : ℕ) (o : Option (List ℕ)) → parse_scope v n ≡ ok o → ScopeFits n o
  unfolding parse_scope
  parse_scope-ScopeFits v n o h = ground arith

  pub positive_int-pos : (v : Json F) (n : ℕ) → positive_int v ≡ ok n → 0 < n
  unfolding positive_int
  positive_int-pos v n h = ground arith

  parse_resources-ResourcesOk :
      (v : Json F) (r : ResourceSpec F) → parse_resources v ≡ ok r → ResourcesOk r
  unfolding parse_resources
  parse_resources-ResourcesOk v r h =
      grind (arith, positive_int-pos, parse_scope-ScopeFits, positive_number-finite)

  parse_stage_resources-ResourcesOk :
      (raw : Dict (Json F)) (e : String) (o : Option (ResourceSpec F))
      → parse_stage_resources raw e ≡ ok o
      → MaybeOk (mem e ("local" ∷ "service" ∷ [])) o
  unfolding parse_stage_resources
  parse_stage_resources-ResourcesOk raw e o h = grind (arith, parse_resources-ResourcesOk)

  pub record StageOk (s : StageSpec F) : Type 0 where
    pub identified : is_identifier (codes s.id) ≡ true
    pub known_kind : mem s.kind stage_kinds ≡ true
    pub known_execution : mem s.execution executions ≡ true
    pub some_command : is_empty s.command ≡ false
    pub resourced : MaybeOk (mem s.execution ("local" ∷ "service" ∷ [])) s.resources
    pub bound : is_some s.service_deployment_id ≡ true → (s.execution == "service") ≡ true

  identifier-is_identifier :
      (v : Json F) (t : String) → identifier v ≡ ok t → is_identifier (codes t) ≡ true
  unfolding identifier
  identifier-is_identifier v t h = ground arith

  pub parse_command-ne-nil :
      (v : Json F) (c : List String) → parse_command v ≡ ok c → is_empty c ≡ false
  unfolding parse_command
  parse_command-ne-nil v c h = grind (arith, is_empty-each)

  parse_deployment-service :
      (raw : Dict (Json F)) (e : String) (o : Option String)
      → parse_deployment raw e ≡ ok o
      → is_some o ≡ true
      → (e == "service") ≡ true
  unfolding parse_deployment
  parse_deployment-service raw e o h p = ground arith

  pub parse_stage-StageOk :
      (p : Platform F) (dir : String) (v : Json F) (s : StageSpec F)
      → parse_stage p dir v ≡ ok s
      → StageOk s
  unfolding parse_stage
  parse_stage-StageOk p dir v s h = grind (
    arith, identifier-is_identifier, parse_command-ne-nil, parse_deployment-service,
    parse_stage_resources-ResourcesOk,
  )
