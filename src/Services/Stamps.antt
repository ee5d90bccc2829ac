-- ===== src/Services/Stamps.antt =====
-- The times that a deployment carries, src/kernel_infra/service_store.py.
use mathlib.Core.Path.{subst}
use gpu_infra.Prelude.{
  ◌≡◌, refl, sym, ap, ◌∙◌, String, true, false, some, List, [], ◌∷◌, Dict, get, put, get-put,
  get-put_self, ok, >>=-eq-ok, ok-injective, guard-bind-eq-ok, arith, ◌==◌,
}
use gpu_infra.Store.Types.{Times}
use gpu_infra.Store.Ops.{is_run_id, is_stamped}
use gpu_infra.Services.Deployments.{
  is_over, is_ready, DeploymentState, Deployment, ServiceChange, to_state, to_broker_job_id,
  to_reason, to_service_identity, to_idle_since, to_gpu_ids, change_deployment, stamp_deployment,
  read_deployment, deployment_state, read_service_state, write_deployment, update_deployment,
}

module _ {F : Type 0} where
  change_deployment-ready_at :
      (cs : List ServiceChange) (s : DeploymentState F)
      → (change_deployment s cs).ready_at ≡ s.ready_at
  unfolding change_deployment
  change_deployment-ready_at [] s = refl
  change_deployment-ready_at (to_state p ∷ cs) s = change_deployment-ready_at cs _
  change_deployment-ready_at (to_broker_job_id o ∷ cs) s = change_deployment-ready_at cs _
  change_deployment-ready_at (to_reason o ∷ cs) s = change_deployment-ready_at cs _
  change_deployment-ready_at (to_service_identity o ∷ cs) s = change_deployment-ready_at cs _
  change_deployment-ready_at (to_idle_since o ∷ cs) s = change_deployment-ready_at cs _
  change_deployment-ready_at (to_gpu_ids ids ∷ cs) s = change_deployment-ready_at cs _

  stamp_ready :
      (s : DeploymentState F) (now : String)
      → (now == "") ≡ false
      → is_ready s.state ≡ true
      → is_stamped (stamp_deployment s now).ready_at ≡ true
  unfolding stamp_deployment is_stamped
  stamp_ready s now h r = ground arith

  stamp_over :
      (s : DeploymentState F) (now : String)
      → (now == "") ≡ false
      → is_over s.state ≡ true
      → is_stamped (stamp_deployment s now).terminal_at ≡ true
  unfolding stamp_deployment is_stamped
  stamp_over s now h r = ground arith

  stamp_kept :
      (s : DeploymentState F) (now : String)
      → is_stamped s.ready_at ≡ true
      → (stamp_deployment s now).ready_at ≡ s.ready_at
  unfolding stamp_deployment
  stamp_kept s now h = ground arith

  -- What an update leaves: its state is read back, the other deployments are as they were, a ready
  -- deployment has the time at which it was ready and an ended one that of its end, and the time at
  -- which it was first ready stays.
  pub record Stamped (store : Dict (Deployment F)) (deployment_id : String)
      (made : Dict (Deployment F) × DeploymentState F) : Type 0 where
    pub read : read_service_state made.0 deployment_id ≡ ok made.1
    pub others :
        (other : String) → (deployment_id == other) ≡ false → get made.0 other ≡ get store other
    pub readied : is_ready made.1.state ≡ true → is_stamped made.1.ready_at ≡ true
    pub over : is_over made.1.state ≡ true → is_stamped made.1.terminal_at ≡ true
    pub kept :
        (old : DeploymentState F)
        → read_service_state store deployment_id ≡ ok old
        → is_stamped old.ready_at ≡ true
        → made.1.ready_at ≡ old.ready_at

  read_service_state-found :
      (store : Dict (Deployment F)) (deployment_id : String) (d : Deployment F)
      → is_run_id deployment_id ≡ true
      → get store deployment_id ≡ some d
      → read_service_state store deployment_id ≡ deployment_state d
  unfolding read_service_state read_deployment
  read_service_state-found store deployment_id d valid found = rw (valid, found)

  write_deployment-state :
      (d : Deployment F) (deployment_id : String) (times : Times) (event : String)
      (s : DeploymentState F)
      → deployment_state (write_deployment d deployment_id times event s) ≡ ok s
  unfolding deployment_state write_deployment
  write_deployment-state d deployment_id times event s = refl

  read_deployment-valid :
      (store : Dict (Deployment F)) (deployment_id : String) (d : Deployment F)
      → read_deployment store deployment_id ≡ ok d
      → is_run_id deployment_id ≡ true
  unfolding read_deployment
  read_deployment-valid store deployment_id d h =
      let (valid, _) = guard-bind-eq-ok (is_run_id deployment_id) _ _ h in valid

  read_service_state-read :
      (store : Dict (Deployment F)) (deployment_id : String) (d : Deployment F)
      (s : DeploymentState F)
      → read_deployment store deployment_id ≡ ok d
      → deployment_state d ≡ ok s
      → read_service_state store deployment_id ≡ ok s
  unfolding read_service_state
  read_service_state-read store deployment_id d s found here = rw (found, here)

  -- An update with a clock that reads something is read back and leaves the other deployments alone.
  -- A ready deployment then has the time at which it was ready, an ended one the time of its end, and
  -- the time at which it was first ready does not move.
  pub update_deployment-Stamped :
      (store : Dict (Deployment F)) (deployment_id : String) (times : Times) (event : String)
      (changes : List ServiceChange) (made : Dict (Deployment F) × DeploymentState F)
      → (times.updated == "") ≡ false
      → update_deployment store deployment_id times event changes ≡ ok made
      → Stamped store deployment_id made
  unfolding update_deployment stamp_deployment
  update_deployment-Stamped store deployment_id times event changes made clock h =
      let (d, found, h1) = >>=-eq-ok (read_deployment store deployment_id) _ h in
      let (s, here, h2) = >>=-eq-ok (deployment_state d) _ h1 in
      let changed = change_deployment s changes in
      let new = stamp_deployment changed times.updated in
      let written = write_deployment d deployment_id times event new in
      let valid = read_deployment-valid store deployment_id d found in
      subst (Stamped store deployment_id) (ok-injective h2) (record {
        read =
            read_service_state-found (put store deployment_id written) deployment_id written valid
              (get-put_self store deployment_id written)
            ∙ write_deployment-state d deployment_id times event new;
        others = λ other apart. get-put store deployment_id other written ∙ rw apart;
        readied = stamp_ready changed times.updated clock;
        over = stamp_over changed times.updated clock;
        kept = λ old read stamped.
            let same : s ≡ old =
              ok-injective
                (sym (read_service_state-read store deployment_id d s found here) ∙ read) in
            let before =
              change_deployment-ready_at changes s
              ∙ ap (λ (x : DeploymentState F). x.ready_at) same in
            stamp_kept changed times.updated (rw before stamped) ∙ before;
      })
