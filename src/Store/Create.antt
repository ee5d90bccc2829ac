-- ===== src/Store/Create.antt =====
-- What `create_run` makes, src/kernel_infra/store.py.
use Prim.Native.String
use mathlib.Core.Path.{subst}
use gpu_infra.Prelude.{
  ◌≡◌, refl, ◌∙◌, String, true, false, not, none, Dict, get, put, is_some, get-put, get-put_self,
  arith, Result, ok, >>=-eq-ok, ok-injective, guard-bind-eq-ok, ◌==◌,
}
use gpu_infra.Fault.{Fault}
use gpu_infra.Contracts.Spec.{TaskSpec}
use gpu_infra.Store.Types.{accepted, is_terminal, State, Run, Times}
use gpu_infra.Store.Ops.{is_run_id, read_state, write_state, create_run, first_state}
use gpu_infra.Store.Update.{StoreOk, RunOk-put, write_state-StateOk, read_state-found}

module _ {F : Type 0} where
  -- What creating a run from this store and this snapshot makes.
  pub record Created (store : Dict (Run F)) (snapshot : Result Fault String)
      (made : Dict (Run F) × State) : Type 0 where
    pub kept : StoreOk made.0
    pub fresh : get store made.1.run_id ≡ none
    pub read : read_state made.0 made.1.run_id ≡ ok made.1
    pub digest : snapshot ≡ ok made.1.candidate_sha256
    pub phase : made.1.state ≡ accepted
    pub others :
        (other : String) → (made.1.run_id == other) ≡ false → get made.0 other ≡ get store other

  write_first :
      (store : Dict (Run F)) (task : TaskSpec F) (run_id digest label : String)
      (snapshot : Result Fault String) (times : Times) (run : Run F)
      → StoreOk store
      → is_run_id run_id ≡ true
      → not (is_some (get store run_id)) ≡ true
      → snapshot ≡ ok digest
      → Created store snapshot (
        put store run_id (
            write_state run run_id times "accepted"
              (first_state task run_id digest label times.updated)),
        first_state task run_id digest label times.updated,
      )
  unfolding first_state write_state is_terminal
  write_first store task run_id digest label snapshot times run h valid free took =
      let s = first_state task run_id digest label times.updated in
      let new = write_state run run_id times "accepted" s in
      record {
        kept =
            RunOk-put store run_id new
              (valid, write_state-StateOk run run_id times "accepted" s refl (λ t. cc)) h;
        fresh = ground arith;
        read =
            read_state-found (put store run_id new) run_id new s valid
              (get-put_self store run_id new) refl;
        digest = took;
        phase = refl;
        others = λ other apart. get-put store run_id other new ∙ rw apart;
      }

  -- A run that is created in a well-formed store is a new directory with a good name, whose state reads back as accepted
  -- with the digest of the snapshot; the store stays well-formed and the other runs are not touched.
  pub create_run-Created :
      (store : Dict (Run F)) (task : TaskSpec F) (hex : String) (snapshot : Result Fault String)
      (candidate_source label : String) (times : Times) (made : Dict (Run F) × State)
      → StoreOk store
      → create_run store task hex snapshot candidate_source label times ≡ ok made
      → Created store snapshot made
  unfolding create_run
  create_run-Created store task hex snapshot source label times made h e =
      let run_id = String.◌++◌ task.task_id (String.◌++◌ "-" hex) in
      let (valid, e1) = guard-bind-eq-ok (is_run_id run_id) _ _ e in
      let (free, e2) = guard-bind-eq-ok (not (is_some (get store run_id))) _ _ e1 in
      let (digest, took, e3) = >>=-eq-ok snapshot _ e2 in
      subst (Created store snapshot) (ok-injective e3)
        (write_first store task run_id digest label snapshot times _ h valid free took)
