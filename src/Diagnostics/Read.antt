-- ===== src/Diagnostics/Read.antt =====
-- The readers of src/kernel_infra/diagnostics.py. `datetime` is a parameter: `Calendar`.
use gpu_infra.Prelude.{
  ℕ, pos, negsuc, String, Bool, true, false, not, ◌&&◌, Option, none, some, List, [], ◌∷◌, map,
  Dict, get_elem?, eqb, is_empty, if◌then◌else◌, Result, ok, ◌>>=◌, ◌==◌,
}
use gpu_infra.Json.{
  Json, null, bool, num, str, arr, obj, int, float, Floats, to_float, items, fields,
}
use gpu_infra.Fault.{Fault}
use gpu_infra.Contracts.Values.{float_or_overflow}
use gpu_infra.Contracts.Stage.{value_or_none}
use gpu_infra.Store.Types.{State, Request, StageRequest}
use gpu_infra.Diagnostics.Types.{Location, JobView}

-- `T` is the type of points in time.
pub record Calendar (F T : Type 0) : Type 0 where
  -- `datetime.fromisoformat(value.replace("Z", "+00:00"))` of a text that is not empty, where that
  -- does not raise and has a time zone
  pub aware : String → Option T
  -- `(now - then).total_seconds()`
  pub elapsed : T → T → F
  -- `round(x, 3)`
  pub round3 : F → F
  -- `str(value)`
  pub show : Json F → String

abbrev pub job_fields : List String
job_fields =
    "job_id" ∷ "state" ∷ "label" ∷ "mode" ∷ "gpu_count" ∷ "gpu_ids" ∷ "allowed_gpu_ids"
    ∷ "submitted_at" ∷ "started_at" ∷ "wait_seconds" ∷ "run_seconds" ∷ "position" ∷ "eta_seconds"
    ∷ "reason" ∷ []

module _ {F T : Type 0} where
  unfoldable pub parse_timestamp : Calendar F T → Json F → Option T
  parse_timestamp calendar (str s) = if s == "" then none else calendar.aware s
  parse_timestamp calendar _ = none

  unfoldable pub seconds_since : ⦃fl : Floats F⦄ → Calendar F T → String → T → Option F
  seconds_since ⦃fl⦄ calendar value now = elim (parse_timestamp calendar (str value)) [
    | none ↦ none
    | some parsed ↦
        let seconds = calendar.elapsed now parsed in
        some (calendar.round3 (if fl.lt (fl.lit 0) seconds then seconds else fl.lit 0))
  ]

module _ {F : Type 0} where
  -- `bool(value)`
  unfoldable pub is_truthy : ⦃fl : Floats F⦄ → Json F → Bool
  is_truthy null = false
  is_truthy (bool b) = b
  is_truthy (num (int (pos n))) = not (eqb n 0)
  is_truthy (num (int (negsuc n))) = true
  is_truthy ⦃fl⦄ (num (float x)) = not (fl.le x (fl.lit 0) && fl.le (fl.lit 0) x)
  is_truthy (str s) = not (s == "")
  is_truthy (arr vs) = not (is_empty (items vs))
  is_truthy (obj fs) = not (is_empty (fields fs))

  -- `float(value) if math.isfinite(value) and value >= 0 else None`
  unfoldable pub non_negative : ⦃fl : Floats F⦄ → F → Option F
  non_negative ⦃fl⦄ x = if fl.is_finite x && fl.le (fl.lit 0) x then some x else none

  -- `_number`; `math.isfinite` of an int that no float can hold raises
  unfoldable pub number : ⦃fl : Floats F⦄ → Json F → Result Fault (Option F)
  number (num n) = do x ← float_or_overflow (to_float n); ok (non_negative x)
  number _ = ok none

  -- `_current_stage`
  unfoldable pub current_stage : State → Request F → Option (StageRequest F)
  current_stage s request = elim s.stage_index [
    | none ↦ none
    | some index ↦ get_elem? request.stages index
  ]

  unfoldable pub job_view : Dict (Json F) → Location → JobView F
  job_view job location = record {
    location = location;
    values = map (λ k. (k, value_or_none job k)) job_fields;
  }

  -- `n == value` of Python for a whole number
  unfoldable pub is_index : ⦃fl : Floats F⦄ → ℕ → Json F → Bool
  is_index n (num (int (pos m))) = eqb n m
  is_index ⦃fl⦄ n (num (float x)) = elim (fl.of_int (pos n)) [
    | none ↦ false
    | some y ↦ fl.le x y && fl.le y x
  ]
  is_index n (bool true) = eqb n 1
  is_index n (bool false) = eqb n 0
  is_index n _ = false

  -- `ids == values`
  unfoldable pub same_ids : ⦃fl : Floats F⦄ → List ℕ → List (Json F) → Bool
  same_ids [] [] = true
  same_ids (n ∷ ns) (v ∷ vs) = is_index n v && same_ids ns vs
  same_ids _ _ = false
