-- ===== src/Diagnostics/Report.antt =====
-- `build_diagnosis` of src/kernel_infra/diagnostics.py: every run classified, the counts, the verdict
-- and the report.
use gpu_infra.Prelude.{
  ℕ, ◌+◌, String, Bool, true, false, not, ◌||◌, Option, none, some, List, [], ◌∷◌, map, Dict, get,
  put, option_or, length, is_some, any, each, sort_by, text_lt, if◌then◌else◌, Result, ok, err,
  ◌>>=◌, ◌>>◌, guard,
}
use gpu_infra.Json.{Json, str, Floats}
use gpu_infra.Fault.{Fault, value_error}
use gpu_infra.Contracts.Stage.{value_or_none}
use gpu_infra.Store.Types.{State, Request}
use gpu_infra.Diagnostics.Types.{
  Diagnosis, progressing, terminal, unknown, long_wait, waiting, suspected_stall, in_running,
  in_queue, JobView, RunView, Health, healthy, attention, uncertain,
}
use gpu_infra.Diagnostics.Read.{Calendar, parse_timestamp, non_negative, number, job_view}
use gpu_infra.Diagnostics.Jobs.{Jobs}
use gpu_infra.Diagnostics.Classify.{classify_run}
use gpu_infra.Diagnostics.Broker.{
  any_ok, read_status, is_bad_gpu, is_incomplete, has_bad_job, freshness_known, effective_error,
  text_of, jobs_of,
}

-- the text of a diagnosis
unfoldable pub diagnosis_text : Diagnosis → String
diagnosis_text progressing = "progressing"
diagnosis_text terminal = "terminal"
diagnosis_text unknown = "unknown"
diagnosis_text long_wait = "long_wait"
diagnosis_text waiting = "waiting"
diagnosis_text Diagnosis.running = "running"
diagnosis_text suspected_stall = "suspected_stall"

unfoldable pub is_unknown : Diagnosis → Bool
is_unknown unknown = true
is_unknown _ = false

-- `ATTENTION_DIAGNOSES`
unfoldable pub needs_attention : Diagnosis → Bool
needs_attention long_wait = true
needs_attention suspected_stall = true
needs_attention _ = false

-- `dict(sorted(Counter(words).items()))`
unfoldable pub tally : List String → Dict ℕ → Dict ℕ
tally [] counts = counts
tally (w ∷ ws) counts = tally ws (put counts w (option_or (get counts w) 0 + 1))

unfoldable pub counter : List String → Dict ℕ
counter words = sort_by (λ a b. text_lt a.0 b.0) (tally words [])

-- `if value is None: raise e`
abbrev pub found_or {ℓ κ} : {E : Type ℓ} {A : Type κ} → Option A → E → Result E A
found_or none e = err e
found_or (some a) e = ok a

pub record Summary : Type 0 where
  pub gpu_states : Dict ℕ
  pub running_broker_jobs : ℕ
  pub queued_broker_jobs : ℕ
  pub run_diagnoses : Dict ℕ
  pub active_services : ℕ

pub record BrokerView (F : Type 0) : Type 0 where
  pub is_unknown : Bool
  pub error : Option String
  -- the fields that are copied from the status
  pub copied : Dict (Json F)
  pub gpus : List (Dict (Json F))
  pub running : List (JobView F)
  pub queue : List (JobView F)

pub record Report (F : Type 0) : Type 0 where
  pub observed_at : String
  pub attention_after_s : F
  pub verdict : Health
  pub summary : Summary
  pub broker : BrokerView F
  pub runs : List (RunView F)
  pub services : List (Dict (Json F))

-- the arguments that tell of the runs
pub record Runs (F : Type 0) : Type 0 where
  pub states : List State
  pub requests : Dict (Request F)
  pub request_errors : Dict String

abbrev pub broker_fields : List String
broker_fields =
    "version" ∷ "broker_version" ∷ "instance_id" ∷ "updated_at" ∷ "gpu_observed_at"
    ∷ "gpu_observation_age_seconds" ∷ "probe_error" ∷ "shared_capacity" ∷ []

abbrev pub service_fields : List String
service_fields =
    "deployment_id" ∷ "service_id" ∷ "state" ∷ "broker_job_id" ∷ "gpu_ids" ∷ "active_consumer_count"
    ∷ "updated_at" ∷ "reason" ∷ []

module _ {F : Type 0} where
  unfoldable pub copy_fields : List String → Dict (Json F) → Dict (Json F)
  copy_fields names value = map (λ k. (k, value_or_none value k)) names

module _ {F : Type 0} ⦃fl : Floats F⦄ where
  -- `(_number(job.get("wait_seconds")) or 0) >= attention_after_s`
  unfoldable pub waits_long : F → Dict (Json F) → Result Fault Bool
  waits_long limit job = do
    wait ← number (value_or_none job "wait_seconds")
    ok (fl.le limit (option_or wait (fl.lit 0)))

  unfoldable pub verdict_of :
      Bool → List (RunView F) → List (Dict (Json F)) → F → Result Fault Health
  verdict_of broker_unknown runs queue limit =
      if broker_unknown || any (λ r. is_unknown r.diagnosis) runs
      then ok uncertain
      else if any (λ r. needs_attention r.diagnosis) runs
      then ok attention
      else do late ← any_ok (waits_long limit) queue; ok (if late then attention else healthy)

  -- the time of the observation, where the arguments are good
  unfoldable pub time_of : {T : Type 0} → Calendar F T → String → F → Result Fault T
  time_of calendar observed_at limit = do
    now ←
        found_or (parse_timestamp calendar (str observed_at))
          (value_error "observed_at must be a timezone-aware timestamp")
    guard (is_some (non_negative limit))
        (value_error "attention_after_s must be finite and non-negative")
    ok now

  -- `broker_unknown`, and whether the age of the observation is known
  unfoldable pub observe :
      {T : Type 0}
      → Calendar F T
      → Option (Dict (Json F))
      → Option String
      → Result Fault (Bool × Bool)
  observe calendar broker broker_error = do
    let snapshot = option_or broker []
    let status = read_status snapshot
    bad_job ← has_bad_job status
    is_fresh ← freshness_known calendar snapshot
    ok (
      is_incomplete broker broker_error status
          || (any is_bad_gpu status.gpus || (bad_job || not is_fresh)),
      is_fresh,
    )

  unfoldable pub classify_runs :
      {T : Type 0} → Calendar F T → Runs F → Jobs F → Bool → T → F → Result Fault (List (RunView F))
  classify_runs calendar runs jobs broker_unknown now limit =
      each
        (λ s.
          classify_run calendar s (get runs.requests s.run_id) (get runs.request_errors s.run_id)
            jobs broker_unknown now limit)
        runs.states

  unfoldable pub report_of :
      {T : Type 0}
      → Calendar F T
      → String
      → F
      → Option (Dict (Json F))
      → Option String
      → Bool × Bool
      → List (Dict (Json F))
      → List (RunView F)
      → Health
      → Report F
  report_of calendar observed_at limit broker broker_error (broker_unknown, is_fresh) services runs
        verdict =
      let snapshot = option_or broker [] in
      let status = read_status snapshot in
      let states =
        map (λ g. text_of calendar (option_or (get g "state") (str "unknown"))) status.gpus in
      record {
        observed_at = observed_at;
        attention_after_s = limit;
        verdict = verdict;
        summary = record {
          gpu_states = counter states;
          running_broker_jobs = length status.running;
          queued_broker_jobs = length status.queue;
          run_diagnoses = counter (map (λ r. diagnosis_text r.diagnosis) runs);
          active_services = length services;
        };
        broker = record {
          is_unknown = broker_unknown;
          error = effective_error broker broker_error is_fresh broker_unknown;
          copied = copy_fields broker_fields snapshot;
          gpus = status.gpus;
          running = map (λ job. job_view job in_running) status.running;
          queue = map (λ job. job_view job in_queue) status.queue;
        };
        runs = runs;
        services = map (copy_fields service_fields) services;
      }

  unfoldable pub build_diagnosis :
      {T : Type 0}
      → Calendar F T
      → String
      → F
      → Runs F
      → Option (Dict (Json F))
      → Option String
      → List (Dict (Json F))
      → Result Fault (Report F)
  build_diagnosis calendar observed_at limit runs broker broker_error services = do
    now ← time_of calendar observed_at limit
    let status = read_status (option_or broker [])
    seen ← observe calendar broker broker_error
    views ← classify_runs calendar runs (jobs_of calendar status) seen.0 now limit
    verdict ← verdict_of seen.0 views status.queue limit
    ok (report_of calendar observed_at limit broker broker_error seen services views verdict)
