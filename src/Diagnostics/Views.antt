-- ===== src/Diagnostics/Views.antt =====
-- What `build_diagnosis`, src/kernel_infra/diagnostics.py, says of each run.
use gpu_infra.Prelude.{
  String, Bool, true, false, ◌&&◌, ◌||◌, Option, none, some, [], ◌∷◌, ◌≡◌, refl, sym, ◌∙◌, Dict,
  if-eq-ok, is_some, inl, inr, Result, ok, err, >>=-eq-ok, ok-injective, arith, option_or,
}
use mathlib.Core.Path.{subst}
use gpu_infra.Json.{Json, Floats}
use gpu_infra.Contracts.Spec.{ResourceSpec}
use gpu_infra.Store.Types.{State, Request, StageRequest, is_terminal}
use gpu_infra.Runner.Manage.{job_of}
use gpu_infra.Diagnostics.Types.{unknown, broker_unavailable, Reason, Location, JobView}
use gpu_infra.Diagnostics.Read.{job_view, current_stage}
use gpu_infra.Diagnostics.Jobs.{
  Jobs, Finding, locate, is_execution, execution_of, resources_of, classify_job,
}
use gpu_infra.Diagnostics.Classify.{
  classify_no_job, found_view, follow_job, classify_broker, classify_active, find, request_or,
  find_active,
}
use gpu_infra.Diagnostics.JobViews.{
  is_ended, is_stall, locate-get, Shown, job_of-some, classify_local-fair, classify_job-fair,
}

module _ {F : Type 0} ⦃fl : Floats F⦄ where
  -- What holds of the diagnosis of an active run, and of the job that is shown with it.
  abbrev FairBroker : State → Jobs F → Bool → Finding F × Option (JobView F) → Type 0
  FairBroker s jobs broker_unknown (f, view) =
      (is_ended f.0 ≡ false)
      × (broker_unknown ≡ true → is_stall f.0 ≡ true → job_of s ≡ none)
      × (broker_unknown ≡ true → view ≡ none)
      × ((v : JobView F) → view ≡ some v → Shown s.broker_job_id jobs v)

  abbrev FairJob : Jobs F → Option String → Finding F × Option (JobView F) → Type 0
  FairJob jobs job_id (f, view) =
      (is_ended f.0 ≡ false)
      × (job_id ≡ none → view ≡ none)
      × ((v : JobView F) → view ≡ some v → Shown job_id jobs v)

  found_view-Shown :
      (jobs : Jobs F) (id : String) (place : Option (Location × Dict (Json F))) (v : JobView F)
      → locate jobs id ≡ place
      → found_view place ≡ some v
      → Shown (some id) jobs v
  unfolding found_view job_view
  found_view-Shown jobs id none v e h = cc
  found_view-Shown jobs id (some (l, job)) v e h =
      let same : job_view job l ≡ v = ground (arith, h) in
      subst (Shown (some id) jobs) same (id, job, refl, locate-get jobs id l job e, refl)

  follow_job-fair :
      (s : State) (resources : Option (ResourceSpec F)) (jobs : Jobs F) (limit no_progress : F)
      (job_id : Option String) (out : Finding F × Option (JobView F))
      → follow_job s resources jobs limit no_progress job_id ≡ ok out
      → FairJob jobs job_id out
  unfolding follow_job classify_no_job is_ended
  follow_job-fair s resources jobs limit no_progress none out h =
      (ground arith, λ e. ground arith, λ v e. absurd (ground arith))
  follow_job-fair s resources jobs limit no_progress (some id) out h =
      let (f, e, q) = >>=-eq-ok (classify_job s resources limit no_progress (locate jobs id)) _ h in
      let o = ok-injective q in
      subst (FairJob jobs (some id)) o (
        classify_job-fair s resources limit no_progress (locate jobs id) f e,
        λ e. absurd cc,
        λ v w. found_view-Shown jobs id (locate jobs id) v refl w,
      )

  broker_fair :
      (s : State) (jobs : Jobs F) (u is_broker : Bool) (out : Finding F × Option (JobView F))
      → (u && (is_broker || is_some (job_of s))) ≡ false
      → FairJob jobs (job_of s) out
      → FairBroker s jobs u out
  broker_fair s jobs u is_broker out off (active, unassigned, shown) =
      let free : u ≡ true → job_of s ≡ none = λ on. ground (arith, on, off) in
      (
        active,
        λ on stall. free on,
        λ on. unassigned (free on),
        λ v e.
            let (id, job, q, found, same) = shown v e in (id, job, job_of-some s id q, found, same),
      )

  unknown_fair :
      (s : State) (jobs : Jobs F) (u : Bool)
      → FairBroker s jobs u ((unknown, broker_unavailable), none)
  unfolding is_ended is_stall
  unknown_fair s jobs u = (refl, λ on stall. cc, λ on. refl, λ v e. cc)

  classify_broker-fair :
      (s : State) (stage : Option (StageRequest F)) (jobs : Jobs F) (u : Bool)
      (limit no_progress : F) (out : Finding F × Option (JobView F))
      → classify_broker s stage jobs u limit no_progress ≡ ok out
      → FairBroker s jobs u out
  unfolding classify_broker
  classify_broker-fair s stage jobs u limit no_progress out h =
      let is_broker = is_execution (execution_of stage) ("broker" ∷ []) in
      elim (if-eq-ok (u && (is_broker || is_some (job_of s))) _ _ h) [
        | inl (on, e) ↦ subst (FairBroker s jobs u) (ok-injective e) (unknown_fair s jobs u)
        | inr (off, e) ↦
            broker_fair s jobs u is_broker out off
              (follow_job-fair s (resources_of stage) jobs limit no_progress (job_of s) out e)
      ]

  -- A stage that does not run at the broker is not called stalled.
  abbrev pub NoStall : Option String → Finding F → Type 0
  NoStall execution f =
      is_execution execution ("local" ∷ "service" ∷ []) ≡ true → is_stall f.0 ≡ false

  classify_active-fair :
      (s : State) (stage : Option (StageRequest F)) (jobs : Jobs F) (u : Bool)
      (limit no_progress : F) (out : Finding F × Option (JobView F))
      → classify_active s stage jobs u limit no_progress ≡ ok out
      → FairBroker s jobs u out × NoStall (execution_of stage) out.0
  unfolding classify_active
  classify_active-fair s stage jobs u limit no_progress out h =
      let execution = execution_of stage in
      elim (if-eq-ok (is_execution execution ("local" ∷ "service" ∷ [])) _ _ h) [
        | inl (on, e) ↦
            let (active, calm) =
              classify_local-fair s.state (option_or execution "") no_progress limit in
            subst (λ out. FairBroker s jobs u out × NoStall execution out.0) (ok-injective e)
              ((active, λ on stall. cc, λ on. refl, λ v e. cc), λ on. calm)
        | inr (off, e) ↦ (classify_broker-fair s stage jobs u limit no_progress out e, λ on. cc)
      ]

  -- The whole finding on a run.
  abbrev pub Fair :
      State → Jobs F → Bool → Finding F × (Option (JobView F) × Option String) → Type 0
  Fair s jobs u (f, (view, execution)) =
      (is_ended f.0 ≡ is_terminal s.state)
      × (u ≡ true → is_stall f.0 ≡ true → job_of s ≡ none)
      × (u ≡ true → view ≡ none)
      × ((v : JobView F) → view ≡ some v → Shown s.broker_job_id jobs v)
      × NoStall execution f

  find_active-Fair :
      (s : State) (jobs : Jobs F) (u : Bool) (limit : F) (no_progress : Option F)
      (request : Result (Reason F) (Request F))
      (out : Finding F × (Option (JobView F) × Option String))
      → is_terminal s.state ≡ false
      → find_active s jobs u limit no_progress request ≡ ok out
      → Fair s jobs u out
  unfolding find_active is_ended is_stall
  find_active-Fair s jobs u limit none request out active h =
      subst (Fair s jobs u) (ok-injective h)
        (sym active, λ on stall. cc, λ on. refl, λ v e. cc, λ on. refl)
  find_active-Fair s jobs u limit (some x) (err reason) out active h =
      subst (Fair s jobs u) (ok-injective h)
        (sym active, λ on stall. cc, λ on. refl, λ v e. cc, λ on. refl)
  find_active-Fair s jobs u limit (some x) (ok request) out active h =
      let stage = current_stage s request in
      let (found, e, q) = >>=-eq-ok (classify_active s stage jobs u limit x) _ h in
      let ((alive, stalls, unseen, shown), calm) =
        classify_active-fair s stage jobs u limit x found e in
      subst (Fair s jobs u) (ok-injective q) (alive ∙ sym active, stalls, unseen, shown, calm)

  pub find-Fair :
      (s : State) (request : Option (Request F)) (request_error : Option String) (jobs : Jobs F)
      (u : Bool) (no_progress : Option F) (limit : F)
      (out : Finding F × (Option (JobView F) × Option String))
      → find s request request_error jobs u no_progress limit ≡ ok out
      → Fair s jobs u out
  unfolding find is_ended is_stall
  find-Fair s request request_error jobs u no_progress limit out h =
      elim (if-eq-ok (is_terminal s.state) _ _ h) [
        | inl (on, e) ↦
            subst (Fair s jobs u) (ok-injective e)
              (sym on, λ v stall. cc, λ v. refl, λ v e. cc, λ v. refl)
        | inr (off, e) ↦
            find_active-Fair s jobs u limit no_progress (request_or request_error request) out off e
      ]
