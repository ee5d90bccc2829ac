-- ===== src/Runner/Closes.antt =====
-- How `_run` of src/kernel_infra/runner.py closes a run: after its last stage, and on an exception.
use mathlib.Core.Path.{subst}
use gpu_infra.Prelude.{
  ◌≡◌, refl, sym, String, Option, none, some, List, [], ◌∷◌, get, put, get-put_self, Result, ok,
  err, All, All-at, In-get, ◌⊎◌, inl, inr,
}
use gpu_infra.Json.{Floats}
use gpu_infra.Fault.{Fault}
use gpu_infra.Contracts.Spec.{TaskSpec}
use gpu_infra.Results.Types.{RunResult, StageEntry, Outcome, infra_error}
use gpu_infra.Results.Verdict.{Validated}
use gpu_infra.Frontier.Aggregated.{Written, override}
use gpu_infra.Frontier.Reduce.{Projection}
use gpu_infra.Frontier.Candidates.{rebuild}
use gpu_infra.Store.Types.{
  State, Run, Request, Change, ended, set_state, set_reason, set_stage_id, set_stage_kind,
  set_stage_index,
}
use gpu_infra.Store.Ops.{stamp, apply_change, apply_changes, write_state}
use gpu_infra.Store.Update.{RunOk, StoreOk, RunOk-put}
use gpu_infra.Runner.Types.{Raised, exception, cancelled_error, World, Interruption, Manager}
use gpu_infra.Runner.Interrupt.{interrupt_process}
use gpu_infra.Runner.Act as act
use gpu_infra.Runner.Act.{Act, pure, lift, await, after, update, ◌>>=◌}
use gpu_infra.Runner.Stage.{update_}
use gpu_infra.Runner.Execute.{
  settle, abort, handle, settled, conclude, stop_run, stored_run, write_result, final_of, stop_of,
  stop_text, outcome_text,
}
use gpu_infra.Runner.Live.{Live, Ticks, update-new, Live-new, new_state, new_run}

module _ {F : Type 0} (run_id : String) (request : Request F) (final : RunResult F) where
  -- The run is there, with this result.
  pub record Reported (w : World F) : Type 0 where
    live : Live run_id request w
    reported : live.run.result ≡ some final

  pub write_result-Reported :
      (w : World F) → Live run_id request w → Reported (write_result run_id final w).0
  unfolding write_result
  write_result-Reported w l =
      let run = record l.run { result = some final } in
      let stored : Live run_id request (record w { store = put w.store run_id run }) = record {
        store_ok =
            RunOk-put w.store run_id run
              (All-at RunOk l.store_ok.runs_ok (In-get w.store run_id l.run l.found)) l.store_ok;
        valid = l.valid;
        run = run;
        state = l.state;
        found = get-put_self w.store run_id run;
        read = l.read;
        asked = l.asked;
      } in
      let whole : Reported (record w { store = put w.store run_id run }) = record {
        live = stored;
        reported = refl;
      } in
      subst
        (λ o.
          Reported (record w {
            store = put w.store run_id (record (stored_run o) { result = some final });
          }))
        (sym l.found) whole

module _ {F : Type 0} ⦃fl : Floats F⦄ where
  -- The run is over: its state is terminal, and its result, which the runner wrote from validated
  -- stage results, has the outcome that the state shows.
  pub record Ended (task : TaskSpec F) (run_id : String) (w : World F) : Type 0 where
    pub store_ok : StoreOk w.store
    pub run : Run F
    pub state : State
    pub result : RunResult F
    pub found : get w.store run_id ≡ some run
    pub read : run.state ≡ some state
    pub recorded : run.result ≡ some result
    pub phase : state.state ≡ ended result.outcome
    pub written : Written task result

  abbrev pub Closes : TaskSpec F → String → World F × Result Raised (Unit {0}) → Type 0
  Closes task run_id p = (p.1 ≡ ok tt) × Ended task run_id p.0

abbrev pub abort_changes : Outcome → String → List Change
abort_changes stop reason = set_state (ended stop) ∷ set_reason (some reason) ∷ []

pub abort_shows :
    (s : State) (now : String) (stop : Outcome) (reason : String)
    → (stamp (apply_changes s (abort_changes stop reason)) now).state ≡ ended stop
unfolding stamp apply_changes apply_change
abort_shows s now stop reason = refl

abbrev pub settle_changes : Outcome → Option String → List Change
settle_changes outcome reason =
    set_state (ended outcome)
    ∷ set_stage_id none
    ∷ set_stage_kind none
    ∷ set_stage_index none
    ∷ set_reason reason
    ∷ []

pub settle_shows :
    (s : State) (now : String) (outcome : Outcome) (reason : Option String)
    → (stamp (apply_changes s (settle_changes outcome reason)) now).state ≡ ended outcome
unfolding stamp apply_changes apply_change
settle_shows s now outcome reason = refl

module _ {F : Type 0} ⦃fl : Floats F⦄ (manager : Manager F) (ticks : Ticks manager.python)
    (run_id : String) (request : Request F) (task : TaskSpec F) where
  pub close_run :
      (event : String) (changes : List Change) (final : RunResult F) (w : World F)
      (r : Reported run_id request final w)
      → ((s : State) (now : String)
          → (stamp (apply_changes s changes) now).state ≡ ended final.outcome)
      → Written task final
      → Closes task run_id (update_ (update manager.python run_id event changes) w)
  unfolding write_state act.◌>>=◌ pure
  close_run event changes final w r shows written =
      let l = r.live in
      subst (λ (p : World F × Result Raised State). Closes task run_id (after p (λ s. pure tt)))
        (sym (update-new run_id manager.python w event changes request l))
        (
          refl,
          record {
            store_ok =
                (Live-new run_id manager.python w event changes request l (ticks w.ticks)).store_ok;
            run = new_run run_id manager.python w event changes request l;
            state = new_state run_id manager.python w event changes request l;
            result = final;
            found = get-put_self w.store run_id _;
            read = refl;
            recorded = r.reported;
            phase = shows l.state (manager.python.clock w.ticks).updated;
            written = written;
          },
        )

  abbrev pub Entries : Type 0
  Entries = List (StageEntry F)

  pub abort-Closes :
      (entries : Entries) (stop : Outcome) (reason : String) (w : World F)
      → Live run_id request w
      → All (Validated task.workloads) entries
      → Closes task run_id (abort manager run_id task request entries stop reason w)
  unfolding abort act.◌>>=◌ write_result final_of override
  abort-Closes entries stop reason w l validated =
      let final = override (final_of task request run_id entries (some reason)) stop in
      close_run (outcome_text stop) (abort_changes stop reason) final
        (write_result run_id final w).0 (write_result-Reported run_id request final w l)
        (λ s now. abort_shows s now stop reason)
        (Written.stopped run_id request.task_sha256 request.candidate_sha256 entries (some reason)
          stop validated)

  -- The run is over, or the interruption of its process, which only a cancelled run comes to,
  -- raised, and what it raised leaves the run as it stands.
  abbrev pub Leaves : Interruption → World F × Result Raised (Unit {0}) → Type 0
  Leaves met p =
      Closes task run_id p
      ⊎ ((e : Raised) × (interrupt_process met ≡ err e) × (p.1 ≡ err e) × Live run_id request p.0)

  interrupted-Leaves :
      (entries : Entries) (met : Interruption) (r : Result Raised (Unit {0})) (w : World F)
      → interrupt_process met ≡ r
      → Live run_id request w
      → All (Validated task.workloads) entries
      → Leaves met ((await r >>= λ (u : Unit {0}). stop_run manager run_id task request entries) w)
  unfolding await act.◌>>=◌ stop_run
  interrupted-Leaves entries met (ok u) w asked l validated =
      inl (abort-Closes entries (stop_of w run_id) (stop_text (stop_of w run_id)) w l validated)
  interrupted-Leaves entries met (err e) w asked l validated = inr (e, asked, refl, l)

  pub handle-Leaves :
      (entries : Entries) (met : Interruption) (e : Raised) (w : World F)
      → Live run_id request w
      → All (Validated task.workloads) entries
      → Leaves met (handle manager met run_id task request entries e w)
  unfolding handle
  handle-Leaves entries met cancelled_error w l validated =
      interrupted-Leaves entries met (interrupt_process met) w refl l validated
  handle-Leaves entries met (exception e) w l validated =
      inl (abort-Closes entries infra_error (manager.python.show_fault e) w l validated)

  -- how the rest of the `try` block ends: the run is over, or an exception goes to the handler
  abbrev pub Settles : World F × Result Raised (Unit {0}) → Type 0
  Settles (w, ok u) = Ended task run_id w
  Settles (w, err e) = Live run_id request w

  pub Closes-Settles : (p : World F × Result Raised (Unit {0})) → Closes task run_id p → Settles p
  Closes-Settles (w, ok u) h = h.1
  Closes-Settles (w, err e) h = cc

  pub settle_rest :
      (entries : Entries) (reason : Option String) (w : World F) (r : Result Fault (Projection F))
      → Reported run_id request (final_of task request run_id entries reason) w
      → All (Validated task.workloads) entries
      → let final = final_of task request run_id entries reason in
        Settles (
          after (lift r w) (λ projection. update_ (
            update manager.python run_id
              (outcome_text final.outcome)
              (settle_changes final.outcome reason))))
  unfolding lift final_of
  settle_rest entries reason w (err e) r validated = r.live
  settle_rest entries reason w (ok projection) r validated =
      let final = final_of task request run_id entries reason in
      Closes-Settles _ (
        close_run (outcome_text final.outcome) (settle_changes final.outcome reason) final w r
          (λ s now. settle_shows s now final.outcome reason)
          (Written.reported run_id request.task_sha256 request.candidate_sha256 entries reason
            validated))

  pub settle-Settles :
      (entries : Entries) (reason : Option String) (w : World F)
      → Live run_id request w
      → All (Validated task.workloads) entries
      → Settles (settle manager run_id task request entries reason w)
  unfolding settle act.◌>>=◌ write_result
  settle-Settles entries reason w l validated =
      let final = final_of task request run_id entries reason in
      let w1 = (write_result run_id final w).0 in
      settle_rest entries reason w1 (rebuild w1.store task)
        (write_result-Reported run_id request final w l) validated

  pub conclude_settled :
      (entries : Entries) (met : Interruption) (p : World F × Result Raised (Unit {0}))
      → Settles p
      → All (Validated task.workloads) entries
      → Leaves met (settled manager met run_id task request entries p)
  conclude_settled entries met (w, ok u) h validated = inl (refl, h)
  conclude_settled entries met (w, err e) l validated = handle-Leaves entries met e w l validated

  pub conclude-Leaves :
      (entries : Entries) (met : Interruption) (r : Result Raised (Option String)) (w : World F)
      → Live run_id request w
      → All (Validated task.workloads) entries
      → Leaves met (conclude manager met run_id task request (w, (entries, r)))
  unfolding conclude
  conclude-Leaves entries met (err e) w l validated = handle-Leaves entries met e w l validated
  conclude-Leaves entries met (ok reason) w l validated =
      conclude_settled entries met (settle manager run_id task request entries reason w)
        (settle-Settles entries reason w l validated) validated
