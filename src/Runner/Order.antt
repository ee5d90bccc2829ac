-- ===== src/Runner/Order.antt =====
-- Which entries the loop over the stages in `_run` of src/kernel_infra/runner.py leaves.
use mathlib.Core.Path.{subst}
use gpu_infra.Prelude.{
  refl, ℕ, ◌+◌, String, Option, none, some, List, [], ◌∷◌, ◌++◌, Result, ok, err, Along,
}
use mathlib.Core.List.{append_assoc}
use gpu_infra.Json.{Floats}
use gpu_infra.Contracts.Spec.{TaskSpec, StageSpec}
use gpu_infra.Results.Types.{StageResult, StageEntry}
use gpu_infra.Results.Verdict.{EntryOf, InOrder}
use gpu_infra.Runner.Types.{Raised, World, Script, Manager}
use gpu_infra.Runner.Stage.{StageReturn, run_stage}
use gpu_infra.Runner.Execute.{
  Loop, after_result, after_return, after_stage, run_stages, stop_reason, entry_of,
}

module _ {F : Type 0} where
  -- each stage has its entry
  abbrev Matched : List (StageSpec F) → List (StageEntry F) → Type 0
  Matched stages entries = Along EntryOf stages entries

  Matched-InOrder :
      (gone rest : List (StageSpec F)) (es : List (StageEntry F))
      → Matched gone es
      → InOrder (gone ++ rest) es
  Matched-InOrder [] [] [] h = tt
  Matched-InOrder [] (stage ∷ rest) [] h = tt
  Matched-InOrder [] rest (e ∷ es) h = absurd h
  Matched-InOrder (stage ∷ gone) rest [] h = tt
  Matched-InOrder (stage ∷ gone) rest (e ∷ es) h = (h.0, Matched-InOrder gone rest es h.1)

  Matched-append :
      (gone : List (StageSpec F)) (es : List (StageEntry F)) (stage : StageSpec F)
      (e : StageEntry F)
      → Matched gone es
      → EntryOf stage e
      → Matched (gone ++ stage ∷ []) (es ++ e ∷ [])
  Matched-append [] [] stage e h last = (last, tt)
  Matched-append [] (x ∷ es) stage e h last = absurd h
  Matched-append (s ∷ gone) [] stage e h last = absurd h
  Matched-append (s ∷ gone) (x ∷ es) stage e h last = (h.0, Matched-append gone es stage e h.1 last)

module _ {F : Type 0} ⦃fl : Floats F⦄ (manager : Manager F) (scripts : ℕ → Script F)
    (run_id : String) (task : TaskSpec F) (label : String) where
  -- going on after the stages that are gone, with the others to come
  abbrev Orders :
      List (StageSpec F) → List (StageSpec F) → (World F → List (StageEntry F) → Loop F) → Type 0
  Orders gone rest next =
      (w : World F) (es : List (StageEntry F))
      → Matched gone es
      → InOrder (gone ++ rest) (next w es).1.0

  module _ (stage : StageSpec F) (gone rest : List (StageSpec F))
      (next : World F → List (StageEntry F) → Loop F)
      (go : Orders (gone ++ stage ∷ []) rest next) where
    after_result-InOrder :
        (w : World F) (es : List (StageEntry F)) (o : Option String)
        → Matched (gone ++ stage ∷ []) es
        → InOrder ((gone ++ stage ∷ []) ++ rest) (after_result next w es o).1.0
    after_result-InOrder w es none h = go w es h
    after_result-InOrder w es (some reason) h = Matched-InOrder (gone ++ stage ∷ []) rest es h

    after_return-InOrder :
        (w : World F) (es : List (StageEntry F)) (returned : StageReturn F)
        (o : Option (StageResult F))
        → Matched gone es
        → InOrder (gone ++ stage ∷ rest) (after_return manager stage next w es returned o).1.0
    after_return-InOrder w es returned none h = Matched-InOrder gone (stage ∷ rest) es h
    after_return-InOrder w es returned (some result) h =
        let reason = stop_reason manager stage result returned.exit_code in
        let more = es ++ entry_of stage result ∷ [] in
        subst (λ stages. InOrder stages (after_result next w more reason).1.0)
          (append_assoc gone (stage ∷ []) rest)
          (after_result-InOrder w more reason
            (Matched-append gone es stage (entry_of stage result) h (refl, refl)))

    after_stage-InOrder :
        (es : List (StageEntry F)) (p : World F × Result Raised (StageReturn F))
        → Matched gone es
        → InOrder (gone ++ stage ∷ rest) (after_stage manager stage next es p).1.0
    after_stage-InOrder es (w, err e) h = Matched-InOrder gone (stage ∷ rest) es h
    after_stage-InOrder es (w, ok returned) h = after_return-InOrder w es returned returned.result h

  stages_after :
      (index : ℕ) (gone stages : List (StageSpec F))
      → Orders gone stages (λ w es. run_stages manager scripts run_id task label es index stages w)
  unfolding run_stages
  stages_after index gone [] w es h = Matched-InOrder gone [] es h
  stages_after index gone (stage ∷ stages) w es h =
      after_stage-InOrder stage gone stages
        (λ w' es'. run_stages manager scripts run_id task label es' (index + 1) stages w')
        (stages_after (index + 1) (gone ++ stage ∷ []) stages) es
        (run_stage manager (scripts index) run_id task stage index label w) h

  -- However the loop over the stages of a run ends, the results that it leaves are those of the first
  -- stages of the task, one each, in order, under the id and kind of the stage.
  pub run_stages-InOrder :
      (w : World F)
      → InOrder task.stages (run_stages manager scripts run_id task label [] 0 task.stages w).1.0
  run_stages-InOrder w = stages_after 0 [] task.stages w [] tt
