-- ===== src/Diagnostics/JobViews.antt =====
-- The diagnosis of a local stage and of a broker job, src/kernel_infra/diagnostics.py.
use gpu_infra.Prelude.{
  String, Bool, true, false, Option, none, some, List, ◌≡◌, refl, Dict, get, ok, >>=-eq-ok,
  ok-injective, arith,
}
use mathlib.Core.Path.{subst}
use gpu_infra.Json.{Json, null, bool, num, str, arr, obj, items, Floats}
use gpu_infra.Contracts.Spec.{ResourceSpec}
use gpu_infra.Contracts.Stage.{value_or_none}
use gpu_infra.Store.Types.{Phase, State}
use gpu_infra.Runner.Manage.{job_of}
use gpu_infra.Diagnostics.Types.{
  Diagnosis, terminal, suspected_stall, Location, in_running, in_queue, in_recent, JobView,
}
use gpu_infra.Diagnostics.Read.{number, job_view}
use gpu_infra.Diagnostics.Jobs.{
  Jobs, Finding, locate, classify_local, classify_queued, classify_known, classify_running,
  classify_recent, classify_absent, classify_job,
}

unfoldable pub is_ended : Diagnosis → Bool
is_ended terminal = true
is_ended _ = false

unfoldable pub is_stall : Diagnosis → Bool
is_stall suspected_stall = true
is_stall _ = false

module _ {F : Type 0} where
  -- the jobs at a location
  abbrev pub at_location : Jobs F → Location → Dict (Dict (Json F))
  at_location jobs in_running = jobs.running
  at_location jobs in_queue = jobs.queued
  at_location jobs in_recent = jobs.recent

  pub locate-get :
      (jobs : Jobs F) (id : String) (l : Location) (job : Dict (Json F))
      → locate jobs id ≡ some (l, job)
      → get (at_location jobs l) id ≡ some job
  unfolding locate
  locate-get jobs id l job h = ground (arith, h)

  -- The view is of a job that the broker lists there, under the run's own job.
  abbrev pub Shown : Option String → Jobs F → JobView F → Type 0
  Shown job_id jobs v =
      (id : String) × (job : Dict (Json F)) × (job_id ≡ some id)
      × (get (at_location jobs v.location) id ≡ some job)
      × (v ≡ job_view job v.location)

pub job_of-some : (s : State) (id : String) → job_of s ≡ some id → s.broker_job_id ≡ some id
unfolding job_of
job_of-some s id h = ground (arith, h)

module _ {F : Type 0} ⦃fl : Floats F⦄ where
  pub classify_local-fair :
      (p : Phase) (e : String) (no_progress limit : F)
      → (is_ended (classify_local p e no_progress limit).0 ≡ false)
        × (is_stall (classify_local p e no_progress limit).0 ≡ false)
  unfolding classify_local is_ended is_stall
  classify_local-fair p e no_progress limit = (ground arith, ground arith)

  pub classify_queued-fair :
      (job : Dict (Json F)) (resources : Option (ResourceSpec F)) (limit : F) (wait : Option F)
      → is_ended (classify_queued job resources limit wait).0 ≡ false
  unfolding classify_queued is_ended
  classify_queued-fair job resources limit none = refl
  classify_queued-fair job resources limit (some wait) = ground arith

  pub classify_known-fair :
      (s : State) (resources : Option (ResourceSpec F)) (limit no_progress run_s : F)
      (ids : List (Json F))
      → is_ended (classify_known s resources limit no_progress run_s ids).0 ≡ false
  unfolding classify_known is_ended
  classify_known-fair s resources limit no_progress run_s ids = ground arith

  pub classify_running-fair :
      (s : State) (resources : Option (ResourceSpec F)) (limit no_progress : F) (run_s : Option F)
      (ids : Json F)
      → is_ended (classify_running s resources limit no_progress run_s ids).0 ≡ false
  unfolding classify_running is_ended
  classify_running-fair s resources limit no_progress none ids = refl
  classify_running-fair s resources limit no_progress (some x) (arr ids) =
      classify_known-fair s resources limit no_progress x (items ids)
  classify_running-fair s resources limit no_progress (some x) null = refl
  classify_running-fair s resources limit no_progress (some x) (bool b) = refl
  classify_running-fair s resources limit no_progress (some x) (num n) = refl
  classify_running-fair s resources limit no_progress (some x) (str t) = refl
  classify_running-fair s resources limit no_progress (some x) (obj fs) = refl

  pub classify_job-fair :
      (s : State) (resources : Option (ResourceSpec F)) (limit no_progress : F)
      (place : Option (Location × Dict (Json F))) (f : Finding F)
      → classify_job s resources limit no_progress place ≡ ok f
      → is_ended f.0 ≡ false
  unfolding classify_job classify_recent classify_absent is_ended
  classify_job-fair s resources limit no_progress none f h = ground arith
  classify_job-fair s resources limit no_progress (some (in_recent, job)) f h = ground arith
  classify_job-fair s resources limit no_progress (some (in_queue, job)) f h =
      let (wait, e, q) = >>=-eq-ok (number (value_or_none job "wait_seconds")) _ h in
      subst (λ f. is_ended f.0 ≡ false) (ok-injective q)
        (classify_queued-fair job resources limit wait)
  classify_job-fair s resources limit no_progress (some (in_running, job)) f h =
      let (run_s, e, q) = >>=-eq-ok (number (value_or_none job "run_seconds")) _ h in
      subst (λ f. is_ended f.0 ≡ false) (ok-injective q)
        (classify_running-fair s resources limit no_progress run_s (value_or_none job "gpu_ids"))
