-- ===== src/Contracts/TaskSound.antt =====
-- What an accepted task satisfies: `parse_task` of src/kernel_infra/contracts.py.
use gpu_infra.Prelude.{
  ◌≡◌, String, true, false, List, [], ◌∷◌, Dict, put, mem, is_empty, any, distinct, ok, each,
  is_empty-each, All-each, All, In, any-In, all-All, Distinct, distinct-Distinct, mem-In, All-put,
  subset-All, arith, eq_iff, >>=-eq-ok, ok-injective, guard-bind-eq-ok, ◌⊎◌,
}
use mathlib.Core.Path.{subst}
use gpu_infra.Json.{Json, Floats, str}
use gpu_infra.Contracts.Values.{expect_object, item, positive_finite, identifier, positive_number}
use gpu_infra.Contracts.Spec.{Platform, StageSpec, ComparisonSpec, TaskSpec}
use gpu_infra.Contracts.Stage.{parse_stage}
use gpu_infra.Contracts.StageSound.{StageOk, parse_stage-StageOk, positive_number-finite}
use gpu_infra.Contracts.Task.{
  parse_noise, parse_guardrails, parse_identifiers, parse_comparison, exclusive_enough, judges,
  stage_ids, parse_stages, parse_task,
}

module _ {F : Type 0} ⦃fl : Floats F⦄ where
  abbrev pub JudgesCorrectness : StageSpec F → Type 0
  JudgesCorrectness s = (s.kind ≡ "correctness") ⊎ (s.kind ≡ "judge")

  -- A guardrail names a declared workload and asks for a positive speedup.
  abbrev pub GuardOk : List String → String × F → Type 0
  GuardOk workloads e = In e.0 workloads × (positive_finite e.1 ≡ true)

  pub record ComparisonOk (workloads : List String) (c : ComparisonSpec F) : Type 0 where
    pub some_primary : is_empty c.primary_workloads ≡ false
    pub declared : All (λ w. In w workloads) c.primary_workloads
    pub guarded : All (GuardOk workloads) c.guardrails
    pub noise_from : fl.le (fl.lit 0) c.relative_noise_floor ≡ true
    pub noise_below : fl.lt c.relative_noise_floor (fl.lit 1) ≡ true

  pub record StagesOk (stages : List (StageSpec F)) : Type 0 where
    pub own_stages : Distinct (stage_ids stages)
    pub judged : (s : StageSpec F) × In s stages × JudgesCorrectness s
    pub staged : All StageOk stages
    pub exclusive : All (λ s. exclusive_enough s ≡ true) stages

  pub record TaskOk (t : TaskSpec F) : Type 0 where
    pub some_workload : is_empty t.workloads ≡ false
    pub own_workloads : Distinct t.workloads
    pub comparable : ComparisonOk t.workloads t.comparison
    pub staging : StagesOk t.stages

  parse_guardrails-GuardOk :
      (workloads : List String) (g : Dict F) (rows : List (String × Json F)) (r : Dict F)
      → All (GuardOk workloads) g
      → parse_guardrails workloads g rows ≡ ok r
      → All (GuardOk workloads) r
  unfolding parse_guardrails
  parse_guardrails-GuardOk workloads g [] r hg h =
      subst (All (GuardOk workloads)) (ok-injective h) hg
  parse_guardrails-GuardOk workloads g ((k, v) ∷ rows) r hg h =
      let (w, _, h1) = >>=-eq-ok (identifier {F = F} (str k)) _ h in
      let (declared, h2) = guard-bind-eq-ok (mem w workloads) _ _ h1 in
      let (x, positive, h3) = >>=-eq-ok (positive_number v) _ h2 in
      parse_guardrails-GuardOk workloads (put g w x) rows r
        (All-put (GuardOk workloads) g w x
          (mem-In w workloads declared, positive_number-finite v x positive) hg)
        h3

  parse_noise-from : (v : Json F) (x : F) → parse_noise v ≡ ok x → fl.le (fl.lit 0) x ≡ true
  unfolding parse_noise
  parse_noise-from v x h = ground arith

  parse_noise-below : (v : Json F) (x : F) → parse_noise v ≡ ok x → fl.lt x (fl.lit 1) ≡ true
  unfolding parse_noise
  parse_noise-below v x h = ground arith

  parse_identifiers-ne-nil :
      (v : Json F) (m : String) (xs : List String)
      → parse_identifiers v m ≡ ok xs
      → is_empty xs ≡ false
  unfolding parse_identifiers
  parse_identifiers-ne-nil v m xs h = grind (arith, is_empty-each)

  guardrails_ok :
      (workloads : List String) (rows : List (String × Json F)) (r : Dict F)
      → parse_guardrails workloads [] rows ≡ ok r
      → All (GuardOk workloads) r
  guardrails_ok workloads rows r h = parse_guardrails-GuardOk workloads [] rows r tt h

  parse_comparison-ComparisonOk :
      (workloads : List String) (v : Json F) (c : ComparisonSpec F)
      → parse_comparison workloads v ≡ ok c
      → ComparisonOk workloads c
  unfolding parse_comparison
  parse_comparison-ComparisonOk workloads v c h = grind (
    arith, guardrails_ok, parse_noise-from, parse_noise-below, parse_identifiers-ne-nil, subset-All,
  )

  judges-JudgesCorrectness : (s : StageSpec F) → judges s ≡ true → JudgesCorrectness s
  unfolding judges mem
  judges-JudgesCorrectness s h = ground (arith, eq_iff s.kind "correctness", eq_iff s.kind "judge")

  judging_stage :
      (stages : List (StageSpec F))
      → any judges stages ≡ true
      → (s : StageSpec F) × In s stages × JudgesCorrectness s
  judging_stage stages h =
      let (s, m, k) = any-In judges stages h in (s, m, judges-JudgesCorrectness s k)

  stages_parsed :
      (p : Platform F) (dir : String) (values : List (Json F)) (stages : List (StageSpec F))
      → each (parse_stage p dir) values ≡ ok stages
      → All StageOk stages
  stages_parsed p dir values stages h =
      All-each (parse_stage p dir) StageOk (parse_stage-StageOk p dir) values stages h

  parse_stages-StagesOk :
      (p : Platform F) (dir : String) (v : Json F) (stages : List (StageSpec F))
      → parse_stages p dir v ≡ ok stages
      → StagesOk stages
  unfolding parse_stages
  parse_stages-StagesOk p dir v stages h =
      grind (arith, stages_parsed, distinct-Distinct, judging_stage, all-All)

  module _ (p : Platform F) (v : Json F) (source : String) (t : TaskSpec F)
      (h : parse_task p v source ≡ ok t) where
    abbrev Parsed : Dict (Json F) → Type 0
    Parsed raw =
        (parse_identifiers (item raw "workloads") "task.workloads must be a non-empty string list"
          ≡ ok t.workloads)
        × (distinct t.workloads ≡ true)
        × (parse_comparison t.workloads (item raw "comparison") ≡ ok t.comparison)
        × (parse_stages p (p.parent source) (item raw "stages") ≡ ok t.stages)

    parse_task-Parsed : (raw : Dict (Json F)) → expect_object v ≡ ok raw → Parsed raw
    unfolding parse_task
    parse_task-Parsed raw e = ground arith

    parse_task-object : (raw : Dict (Json F)) × (expect_object v ≡ ok raw)
    unfolding parse_task
    parse_task-object = ground arith

    -- A task that `parse_task` accepts is well formed.
    pub parse_task-TaskOk : TaskOk t
    parse_task-TaskOk =
        let (raw, e) = parse_task-object in
        let (workloads, own, comparison, stages) = parse_task-Parsed raw e in
        record {
          some_workload = parse_identifiers-ne-nil _ _ t.workloads workloads;
          own_workloads = distinct-Distinct t.workloads own;
          comparable = parse_comparison-ComparisonOk t.workloads _ t.comparison comparison;
          staging = parse_stages-StagesOk p _ _ t.stages stages;
        }
