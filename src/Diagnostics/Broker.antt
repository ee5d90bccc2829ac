-- ===== src/Diagnostics/Broker.antt =====
-- What `build_diagnosis` of src/kernel_infra/diagnostics.py makes of the broker's status: the lists it
-- holds, whether the observation can be trusted, and the jobs by id.
use gpu_infra.Prelude.{
  String, Bool, true, false, not, ◌&&◌, ◌||◌, Option, none, some, List, [], ◌∷◌, Dict, get, put,
  option_or, eqb, length, is_some, is_empty, mem, if◌then◌else◌, Result, ok, ◌>>=◌, ◌==◌,
}
use gpu_infra.Json.{Json, num, str, arr, obj, int, Floats, items, fields, nil}
use gpu_infra.Fault.{Fault}
use gpu_infra.Contracts.Stage.{value_or_none}
use gpu_infra.Diagnostics.Read.{Calendar, parse_timestamp, is_truthy, number}
use gpu_infra.Diagnostics.Jobs.{Jobs}

-- `any(test(x) for x in xs)`, where the test may raise
unfoldable pub any_ok {ℓ κ} :
    {E : Type ℓ} {A : Type κ} → (A → Result E Bool) → List A → Result E Bool
any_ok test [] = ok false
any_ok test (x ∷ xs) = do let rest = any_ok test xs; found ← test x; if found then ok true else rest

-- the lists of the status, less what is not an object
pub record Status (F : Type 0) : Type 0 where
  pub gpus : List (Dict (Json F))
  pub running : List (Dict (Json F))
  pub queue : List (Dict (Json F))
  pub recent : List (Dict (Json F))
  -- `payload_items_valid`
  pub is_valid : Bool

abbrev pub gpu_states : List String
gpu_states = "idle" ∷ "shared" ∷ "exclusive" ∷ "foreign" ∷ "locked" ∷ []

module _ {F : Type 0} where
  unfoldable pub objects : List (Json F) → List (Dict (Json F))
  objects [] = []
  objects (obj fs ∷ vs) = fields fs ∷ objects vs
  objects (v ∷ vs) = objects vs

  -- `[x for x in raw if isinstance(x, dict)] if isinstance(raw, list) else []`
  unfoldable pub object_list : Json F → List (Dict (Json F))
  object_list (arr vs) = objects (items vs)
  object_list _ = []

  -- a list whose elements are all objects
  unfoldable pub is_object_list : Json F → Bool
  is_object_list (arr vs) = eqb (length (objects (items vs))) (length (items vs))
  is_object_list _ = false

  unfoldable pub read_status : Dict (Json F) → Status F
  read_status snapshot =
      let gpus = value_or_none snapshot "gpus" in
      let running = value_or_none snapshot "running" in
      let queue = value_or_none snapshot "queue" in
      let recent = option_or (get snapshot "recent") (arr nil) in
      record {
        gpus = object_list gpus;
        running = object_list running;
        queue = object_list queue;
        recent = object_list recent;
        is_valid =
            is_object_list gpus
            && (is_object_list running && (is_object_list queue && is_object_list recent));
      }

  -- a GPU with a known state and a whole number as its id
  unfoldable pub is_gpu_state : Json F → Bool
  is_gpu_state (str s) = mem s gpu_states
  is_gpu_state _ = false

  unfoldable pub is_gpu_id : Json F → Bool
  is_gpu_id (num (int n)) = true
  is_gpu_id _ = false

  unfoldable pub is_bad_gpu : Dict (Json F) → Bool
  is_bad_gpu gpu =
      not (is_gpu_state (value_or_none gpu "state")) || not (is_gpu_id (value_or_none gpu "gpu_id"))

  unfoldable pub is_job_id : Json F → Bool
  is_job_id (str s) = not (s == "")
  is_job_id _ = false

module _ {F : Type 0} ⦃fl : Floats F⦄ where
  unfoldable pub is_bad_job : String → Dict (Json F) → Result Fault Bool
  is_bad_job measure job = elim (is_job_id (value_or_none job "job_id")) [
    | false ↦ ok true
    | true ↦ do x ← number (value_or_none job measure); ok (not (is_some x))
  ]

  -- the tests before the loop over the GPUs
  unfoldable pub is_incomplete : Option (Dict (Json F)) → Option String → Status F → Bool
  is_incomplete none broker_error status = true
  is_incomplete (some snapshot) broker_error status =
      is_some broker_error
      || (is_truthy (value_or_none snapshot "probe_error")
          || (not (is_truthy (value_or_none snapshot "broker_version"))
              || (not (is_truthy (value_or_none snapshot "instance_id"))
                  || (is_empty status.gpus || not status.is_valid))))

  -- a job that has no id or no time, running jobs first
  unfoldable pub has_bad_job : Status F → Result Fault Bool
  has_bad_job status = do
    found ← any_ok (is_bad_job "run_seconds") status.running
    if found then ok true else any_ok (is_bad_job "wait_seconds") status.queue

  unfoldable pub freshness_known : {T : Type 0} → Calendar F T → Dict (Json F) → Result Fault Bool
  freshness_known calendar snapshot =
      elim (parse_timestamp calendar (value_or_none snapshot "gpu_observed_at")) [
        | none ↦ ok false
        | some t ↦ do
          age ← number (value_or_none snapshot "gpu_observation_age_seconds")
          ok (is_some age)
      ]

  -- `effective_broker_error`
  unfoldable pub effective_error :
      Option (Dict (Json F)) → Option String → Bool → Bool → Option String
  effective_error none broker_error is_fresh is_unknown = broker_error
  effective_error (some snapshot) broker_error is_fresh is_unknown =
      if is_unknown
        && (not (is_truthy (value_or_none snapshot "probe_error")) && not (is_some broker_error))
      then some (
          if is_fresh
          then "broker status is incomplete or malformed"
          else "broker GPU probe freshness is unavailable")
      else broker_error

  -- `str(value)`
  unfoldable pub text_of : {T : Type 0} → Calendar F T → Json F → String
  text_of calendar (str s) = s
  text_of calendar v = calendar.show v

  -- the jobs that have an id, by it: the last of an id stands
  unfoldable pub by_id :
      {T : Type 0}
      → Calendar F T
      → List (Dict (Json F))
      → Dict (Dict (Json F))
      → Dict (Dict (Json F))
  by_id calendar [] found = found
  by_id calendar (job ∷ jobs) found =
      let id = value_or_none job "job_id" in
      by_id calendar jobs (if is_truthy id then put found (text_of calendar id) job else found)

  unfoldable pub jobs_of : {T : Type 0} → Calendar F T → Status F → Jobs F
  jobs_of calendar status = record {
    running = by_id calendar status.running [];
    queued = by_id calendar status.queue [];
    recent = by_id calendar status.recent [];
  }
