-- ===== src/Results/Verdict.antt =====
-- The validity and the outcome of a run, from the verdicts of its stages.
use gpu_infra.Prelude.{
  ◌≡◌, ◌≢◌, ◌↔◌, refl, String, Bool, true, false, ◌||◌, Option, List, [], ◌∷◌, length, is_empty,
  any, all, All, Along, arith, ok,
}
use gpu_infra.Json.{Json, Floats}
use gpu_infra.Contracts.Spec.{TaskSpec, StageSpec}
use gpu_infra.Results.Types.{
  passed, Validity, valid, invalid, unknown, StageResult, StageEntry, completed, rejected,
}
use gpu_infra.Results.Validate.{consistent, validate_stage_result}
use gpu_infra.Results.Aggregate.{
  is_passed, is_invalid, next_validity, validity_of, all_stages_passed, outcome_of,
  aggregate_run_result,
}

module _ {F : Type 0} where
  abbrev pub reports_invalid : StageEntry F → Bool
  reports_invalid e = is_invalid e.result.validity

  abbrev pub last_validity : Validity → List (StageEntry F) → Validity
  last_validity v [] = v
  last_validity v (e ∷ es) = last_validity e.result.validity es

  is_invalid-validity_of :
      (v : Validity) (es : List (StageEntry F))
      → is_invalid (validity_of v es) ≡ (is_invalid v || any reports_invalid es)
  unfolding validity_of next_validity any is_invalid
  is_invalid-validity_of v [] = ground arith
  is_invalid-validity_of v (e ∷ es) =
      ground (arith, is_invalid-validity_of (next_validity v e.result.validity) es)

  is_invalid-unknown :
      (es : List (StageEntry F)) → is_invalid (validity_of unknown es) ≡ any reports_invalid es
  unfolding is_invalid
  is_invalid-unknown es = is_invalid-validity_of unknown es

  abbrev pub Consistent : StageEntry F → Type 0
  Consistent e = consistent e.result.status e.result.validity ≡ true

  passed_not_invalid :
      (es : List (StageEntry F))
      → All Consistent es
      → all (λ e. is_passed e.result.status) es ≡ true
      → any reports_invalid es ≡ false
  unfolding all any consistent is_passed is_invalid
  passed_not_invalid [] c h = refl
  passed_not_invalid (e ∷ es) c h = ground (arith, passed_not_invalid es)

  abbrev pub Passed : StageEntry F → Type 0
  Passed e = e.result.status ≡ passed

  all-Passed :
      (es : List (StageEntry F)) → all (λ e. is_passed e.result.status) es ≡ true → All Passed es
  unfolding all is_passed
  all-Passed [] h = tt
  all-Passed (e ∷ es) h = (ground arith, all-Passed es (ground arith))

  Passed-all :
      (es : List (StageEntry F)) → All Passed es → all (λ e. is_passed e.result.status) es ≡ true
  unfolding all is_passed
  Passed-all [] h = refl
  Passed-all (e ∷ es) h = ground (arith, Passed-all es h.1)

module _ {F : Type 0} ⦃fl : Floats F⦄ where
  -- The entry's result is what the validation returned for some judge document.
  abbrev pub Validated : List String → StageEntry F → Type 0
  Validated workloads e = (v : Json F) × (validate_stage_result workloads v ≡ ok e.result)

  validate-consistent :
      (workloads : List String) (v : Json F) (r : StageResult F)
      → validate_stage_result workloads v ≡ ok r
      → consistent r.status r.validity ≡ true
  unfolding validate_stage_result
  validate-consistent workloads v r h = ground arith

  Validated-Consistent :
      (workloads : List String) (es : List (StageEntry F))
      → All (Validated workloads) es
      → All Consistent es
  Validated-Consistent workloads [] h = tt
  Validated-Consistent workloads (e ∷ es) h =
      (validate-consistent workloads h.0.0 e.result h.0.1, Validated-Consistent workloads es h.1)

abbrev RejectIff : Bool → Validity → Type 0
RejectIff b v = (outcome_of b v ≡ rejected) ↔ ((outcome_of b v ≢ completed) × (is_invalid v ≡ true))

outcome_of-rejected : (b : Bool) (v : Validity) → RejectIff b v
unfolding outcome_of is_invalid
outcome_of-rejected true v = (λ h. cc, λ h. absurd (h.0 refl))
outcome_of-rejected false invalid = (λ h. (λ e. cc, refl), λ h. refl)
outcome_of-rejected false valid = (λ h. cc, λ h. cc)
outcome_of-rejected false unknown = (λ h. cc, λ h. cc)

outcome_of-completed : (b : Bool) (v : Validity) → (outcome_of b v ≡ completed) ↔ (b ≡ true)
unfolding outcome_of is_invalid
outcome_of-completed true v = (λ h. refl, λ h. refl)
outcome_of-completed false invalid = (λ h. cc, λ h. cc)
outcome_of-completed false valid = (λ h. cc, λ h. cc)
outcome_of-completed false unknown = (λ h. cc, λ h. cc)

module _ {F : Type 0} where
  -- The entry is that of the stage.
  abbrev pub EntryOf : StageSpec F → StageEntry F → Type 0
  EntryOf stage e = (e.stage_id ≡ stage.id) × (e.stage_kind ≡ stage.kind)

  -- The entries are those of the first stages, one each and in order, as the loop over the stages
  -- makes them.
  abbrev pub InOrder : List (StageSpec F) → List (StageEntry F) → Type 0
  InOrder stages [] = Unit
  InOrder [] (e ∷ es) = ⊥
  InOrder (stage ∷ stages) (e ∷ es) = EntryOf stage e × InOrder stages es

  -- There is a stage, and each stage has its entry, in order, and passed.
  abbrev pub AllRan : List (StageSpec F) → List (StageEntry F) → Type 0
  AllRan stages es = (is_empty es ≡ false) × Along (λ stage e. EntryOf stage e × Passed e) stages es

  AllRan-of :
      (stages : List (StageSpec F)) (es : List (StageEntry F))
      → InOrder stages es
      → length es ≡ length stages
      → All Passed es
      → Along (λ stage e. EntryOf stage e × Passed e) stages es
  AllRan-of [] [] order as_long ran = tt
  AllRan-of (stage ∷ stages) [] order as_long ran = cc
  AllRan-of [] (e ∷ es) order as_long ran = order
  AllRan-of (stage ∷ stages) (e ∷ es) order as_long ran =
      let shorter : length es ≡ length stages = cc in
      ((order.0, ran.0), AllRan-of stages es order.1 shorter ran.1)

  AllRan-back :
      (stages : List (StageSpec F)) (es : List (StageEntry F))
      → Along (λ stage e. EntryOf stage e × Passed e) stages es
      → (length es ≡ length stages) × All Passed es
  AllRan-back [] [] h = (refl, tt)
  AllRan-back (stage ∷ stages) [] h = absurd h
  AllRan-back [] (e ∷ es) h = absurd h
  AllRan-back (stage ∷ stages) (e ∷ es) h =
      let (as_long, ran) = AllRan-back stages es h.1 in (cc, (h.0.1, ran))

  all_stages_passed_iff :
      (stages : List (StageSpec F)) (es : List (StageEntry F))
      → InOrder stages es
      → (all_stages_passed (length stages) es ≡ true) ↔ AllRan stages es
  unfolding all_stages_passed
  all_stages_passed_iff stages es order = (
    λ h.
        let as_long : length es ≡ length stages = ground arith in
        (ground arith, AllRan-of stages es order as_long (all-Passed es (ground arith))),
    λ h.
        let (as_long, ran) = AllRan-back stages es h.1 in
        let p = Passed-all es ran in let some_entry = h.0 in ground (arith, as_long, p, some_entry),
  )

module _ {F : Type 0} ⦃fl : Floats F⦄ (task : TaskSpec F)
    (run_id task_digest candidate_digest : String) (entries : List (StageEntry F))
    (reason : Option String) where
  -- Of entries that the validation accepted and that are those of the first stages in order: the run is
  -- `completed` exactly when there is a stage and every declared stage has its entry and passed, and
  -- then no entry is invalid; it is `rejected` exactly when it is not completed and some entry is
  -- invalid.
  pub outcome-aggregate :
      All (Validated task.workloads) entries
      → InOrder task.stages entries
      → let r = aggregate_run_result task run_id task_digest candidate_digest entries reason in
        ((r.outcome ≡ completed) ↔ AllRan task.stages entries)
        × (r.outcome ≡ completed → any reports_invalid entries ≡ false)
        × ((r.outcome ≡ rejected)
            ↔ ((r.outcome ≢ completed) × (any reports_invalid entries ≡ true)))
  unfolding aggregate_run_result
  outcome-aggregate h order =
      let all_passed = all_stages_passed (length task.stages) entries in
      let v = validity_of unknown entries in
      let c = outcome_of-completed all_passed v in
      let r = outcome_of-rejected all_passed v in
      let a = all_stages_passed_iff task.stages entries order in
      let same : is_invalid v ≡ any reports_invalid entries = is_invalid-unknown entries in
      (
        (λ e. a.0 (c.0 e), λ ran. c.1 (a.1 ran)),
        λ e.
            passed_not_invalid entries (Validated-Consistent task.workloads entries h)
              (Passed-all entries (AllRan-back task.stages entries (a.0 (c.0 e)).1).1),
        (λ e. ((r.0 e).0, rw (← same) (r.0 e).1), λ e. r.1 (e.0, rw same e.1)),
      )
