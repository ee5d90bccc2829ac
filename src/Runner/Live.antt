-- ===== src/Runner/Live.antt =====
-- A run whose directory is in order stays in order, whatever its stages meet.
use mathlib.Core.Path.{subst}
use gpu_infra.Prelude.{
  ◌≡◌, refl, sym, ap, ℕ, ℤ, ◌+◌, String, Bool, true, false, Option, none, some, List, [], ◌∷◌, Dict,
  get, put, get-put_self, Result, ok, err, ◌==◌, if◌then◌else◌,
}
use gpu_infra.Json.{Json, Floats}
use gpu_infra.Fault.{Fault}
use gpu_infra.Contracts.Spec.{TaskSpec, StageSpec}
use gpu_infra.Store.Types.{
  State, queued, running, set_state, set_broker_job_id, set_gpu_ids, Run, Request, Change, Times,
}
use gpu_infra.Store.Ops.{is_run_id, stamp, apply_changes, write_state, read_state, update_state}
use gpu_infra.Store.Update.{StoreOk, read_run-found, read_state-found, update_state-StoreOk}
use gpu_infra.Runner.Types.{Raised, Receipt, World, Script, Python, Manager}
use gpu_infra.Runner.Act.{
  Act, pure, lift, await, finally, on_raise, after, raise_out, ◌>>=◌, release_if, acquire, update,
  tick, current,
}
use gpu_infra.Runner.Command.{parse_gpu_ids}
use gpu_infra.Runner.Stage.{
  is_local, write_receipt, take_slot, update_, on_group, on_queued, on_accepted, pump_line,
  pump_lines, wait_beside, enter_local, prepare, run_process, begin_stage, finish_stage, run_stage,
}

module _ {F : Type 0} (run_id : String) (request : Request F) where
  -- The store is well-formed and holds the run, with its state and its request.
  pub record Live (w : World F) : Type 0 where
    pub store_ok : StoreOk w.store
    pub valid : is_run_id run_id ≡ true
    pub run : Run F
    pub state : State
    pub found : get w.store run_id ≡ some run
    pub read : run.state ≡ some state
    pub asked : run.request ≡ some request

  -- An action after which the run is still there.
  abbrev pub Keeps : {A : Type 0} → Act F A → Type 0
  Keeps act = (w : World F) → Live w → Live (act w).0

  pub Live-same : (w w' : World F) → w.store ≡ w'.store → Live w → Live w'
  Live-same w w' same l = record {
    store_ok = subst StoreOk same l.store_ok;
    valid = l.valid;
    run = l.run;
    state = l.state;
    found = subst (λ d. get d run_id ≡ some l.run) same l.found;
    read = l.read;
    asked = l.asked;
  }

  Keeps-lift : {A : Type 0} (r : Result Fault A) → Keeps (lift r)
  unfolding lift
  Keeps-lift (ok a) w l = l
  Keeps-lift (err e) w l = l

  Keeps-pure : {A : Type 0} (a : A) → Keeps (pure a)
  unfolding pure
  Keeps-pure a w l = l

  Keeps-await : {A : Type 0} (r : Result Raised A) → Keeps (await r)
  unfolding await
  Keeps-await r w l = l

  Keeps-after :
      {A B : Type 0} (p : World F × Result Raised A) (f : A → Act F B)
      → Live p.0
      → ((a : A) → Keeps (f a))
      → Live (after p f).0
  Keeps-after (w, ok a) f l hf = hf a w l
  Keeps-after (w, err e) f l hf = l

  Keeps-bind :
      {A B : Type 0} (m : Act F A) (f : A → Act F B)
      → Keeps m
      → ((a : A) → Keeps (f a))
      → Keeps (m >>= f)
  unfolding ◌>>=◌
  Keeps-bind m f hm hf w l = Keeps-after (m w) f (hm w l) hf

update-ok :
    {F : Type 0} (python : Python F) (run_id event : String) (changes : List Change) (w : World F)
    (store : Dict (Run F)) (s : State)
    → update_state w.store run_id (python.clock w.ticks) event changes ≡ ok (store, s)
    → update python run_id event changes w ≡ (record w { store = store; ticks = w.ticks + 1 }, ok s)
unfolding update
update-ok python run_id event changes w store s e = ap (tick w) e

module _ {F : Type 0} (run_id : String) (python : Python F) (w : World F) (event : String)
    (changes : List Change) (request : Request F) (l : Live run_id request w) where
  abbrev times_now : Times
  times_now = python.clock w.ticks

  abbrev pub new_state : State
  new_state = stamp (apply_changes l.state changes) times_now.updated

  abbrev pub new_run : Run F
  new_run = write_state l.run run_id times_now event new_state

  abbrev pub new_world : World F
  new_world = record w { store = put w.store run_id new_run; ticks = w.ticks + 1 }

  updated :
      update_state w.store run_id times_now event changes
      ≡ ok (put w.store run_id new_run, new_state)
  unfolding update_state
  updated = rw (
    read_run-found w.store run_id l.run l.valid l.found,
    read_state-found w.store run_id l.run l.state l.valid l.found l.read,
  )

  -- An update of a run that is there returns.
  pub update-new : update python run_id event changes w ≡ (new_world, ok new_state)
  update-new =
      update-ok python run_id event changes w (put w.store run_id new_run) new_state updated

  pub Live-new : ((python.clock w.ticks).updated == "") ≡ false → Live run_id request new_world
  unfolding write_state
  Live-new clock = record {
    store_ok =
        update_state-StoreOk w.store run_id times_now event changes (put w.store run_id new_run)
          new_state clock l.store_ok updated;
    valid = l.valid;
    run = new_run;
    state = new_state;
    found = get-put_self w.store run_id new_run;
    read = refl;
    asked = l.asked;
  }

-- a clock that reads something
abbrev pub Ticks : {F : Type 0} → Python F → Type 0
Ticks python = (n : ℕ) → ((python.clock n).updated == "") ≡ false

module _ {F : Type 0} ⦃fl : Floats F⦄ (manager : Manager F) (ticks : Ticks manager.python)
    (run_id : String) (request : Request F) where
  Keeps-update :
      (event : String) (changes : List Change)
      → Keeps run_id request (update manager.python run_id event changes)
  Keeps-update event changes w l =
      subst (λ (p : World F × Result Raised State). Live run_id request p.0)
        (sym (update-new run_id manager.python w event changes request l))
        (Live-new run_id manager.python w event changes request l (ticks w.ticks))

  Keeps-update_ :
      (event : String) (changes : List Change)
      → Keeps run_id request (update_ (update manager.python run_id event changes))
  Keeps-update_ event changes =
      Keeps-bind run_id request (update manager.python run_id event changes) (λ s. pure tt)
        (Keeps-update event changes) (λ s. Keeps-pure run_id request tt)

  Keeps-on_group : (o : Option String) → Keeps run_id request (on_group manager run_id o)
  unfolding on_group
  Keeps-on_group none w l = Keeps-pure run_id request tt w l
  Keeps-on_group (some group) w l =
      Keeps-bind run_id request (lift (parse_gpu_ids group)) _
        (Keeps-lift run_id request (parse_gpu_ids group))
        (λ ids. Keeps-update_ "broker_started" (set_state running ∷ set_gpu_ids ids ∷ [])) w l

  Keeps-on_queued :
      (line : String) (b : Bool) → Keeps run_id request (on_queued manager run_id line b)
  unfolding on_queued
  Keeps-on_queued line true = Keeps-update_ "broker_queued" (set_state queued ∷ [])
  Keeps-on_queued line false = Keeps-on_group (manager.python.gpu_ids_group line)

  Keeps-on_accepted :
      (line : String) (o : Option String) → Keeps run_id request (on_accepted manager run_id line o)
  unfolding on_accepted
  Keeps-on_accepted line (some job) =
      Keeps-update_ "broker_accepted" (set_state queued ∷ set_broker_job_id (some job) ∷ [])
  Keeps-on_accepted line none = Keeps-on_queued line (manager.python.is_queued line)

  Keeps-pump_line : (line : String) → Keeps run_id request (pump_line manager run_id line)
  unfolding pump_line
  Keeps-pump_line line = Keeps-on_accepted line (manager.python.accepted_job line)

  Keeps-pump_lines : (lines : List String) → Keeps run_id request (pump_lines manager run_id lines)
  unfolding pump_lines
  Keeps-pump_lines [] w l = Keeps-pure run_id request tt w l
  Keeps-pump_lines (line ∷ lines) w l =
      Keeps-bind run_id request (pump_line manager run_id line)
        (λ u. pump_lines manager run_id lines) (Keeps-pump_line line) (λ u. Keeps-pump_lines lines)
        w l

  Keeps-if :
      {A : Type 0} (b : Bool) (m n : Act F A)
      → Keeps run_id request m
      → Keeps run_id request n
      → Keeps run_id request (if b then m else n)
  Keeps-if true m n hm hn = hm
  Keeps-if false m n hm hn = hn

  pub Keeps-enter_local :
      (script : Script F) (stage : StageSpec F)
      → Keeps run_id request (enter_local manager script run_id stage)
  unfolding enter_local acquire
  Keeps-enter_local script stage = Keeps-bind run_id request _ _ (Keeps-update_ _ _) (λ u.
      Keeps-bind run_id request (await script.slot) _ (Keeps-await run_id request script.slot) (λ u.
        Keeps-bind run_id request take_slot _ (λ w l. Live-same run_id request w _ refl l)
          (λ u.
            Keeps-bind run_id request _ _ (Keeps-update_ _ _)
              (λ u. Keeps-pure run_id request stage.command))))

  Keeps-release :
      (b : Bool) (w : World F) → Live run_id request w → Live run_id request (release_if b w)
  unfolding release_if
  Keeps-release true w l = Live-same run_id request w _ refl l
  Keeps-release false w l = l

  Keeps-finally :
      {A : Type 0} (b : Bool) (m : Act F A)
      → Keeps run_id request m
      → Keeps run_id request (finally (release_if b) m)
  unfolding finally
  Keeps-finally b m hm w l = Keeps-release b (m w).0 (hm w l)

  on_raise_out :
      {A : Type 0} (b : Bool) (p : World F × Result Raised A)
      → Live run_id request p.0
      → Live run_id request (raise_out (release_if b) p).0
  on_raise_out b (w, ok a) l = l
  on_raise_out b (w, err e) l = Keeps-release b w l

  Keeps-on_raise :
      {A : Type 0} (b : Bool) (m : Act F A)
      → Keeps run_id request m
      → Keeps run_id request (on_raise (release_if b) m)
  unfolding on_raise
  Keeps-on_raise b m hm w l = on_raise_out b (m w) (hm w l)

  pub Keeps-prepare :
      (script : Script F) (task : TaskSpec F) (stage : StageSpec F) (label : String)
      → Keeps run_id request (prepare manager script run_id task stage label)
  unfolding prepare
  Keeps-prepare script task stage label =
      Keeps-if (is_local stage) _ _ (Keeps-enter_local script stage) (Keeps-lift run_id request _)

  Keeps-wait_beside :
      (exit : Result Raised ℤ) (pumps : Act F (Unit {0}))
      → Keeps run_id request pumps
      → Keeps run_id request (wait_beside exit pumps)
  unfolding wait_beside
  Keeps-wait_beside exit pumps keeps w l = keeps w l

  pub Keeps-run_process :
      (script : Script F) (stage : StageSpec F) (command : List String)
      → Keeps run_id request (run_process manager script run_id stage command)
  unfolding run_process
  Keeps-run_process script stage command =
      Keeps-bind run_id request _ _
        (Keeps-on_raise (is_local stage) _ (Keeps-await run_id request (script.spawn command)))
        (λ u. Keeps-finally (is_local stage) _ (
          Keeps-wait_beside script.exit _ (
            Keeps-if (is_local stage) _ _ (Keeps-pure run_id request tt)
              (Keeps-pump_lines script.lines))))

  Keeps-current : Keeps run_id request (current run_id)
  unfolding current
  Keeps-current w l = Keeps-lift run_id request (read_state w.store run_id) w l

  Keeps-write_receipt : (receipt : Receipt) → Keeps run_id request (write_receipt receipt)
  unfolding write_receipt
  Keeps-write_receipt receipt w l = Live-same run_id request w _ refl l

  Keeps-finish_stage :
      (task : TaskSpec F) (stage : StageSpec F) (report : Result Fault (Json F)) (exit_code : ℤ)
      → Keeps run_id request (finish_stage manager run_id task stage report exit_code)
  unfolding finish_stage
  Keeps-finish_stage task stage report exit_code =
      Keeps-bind run_id request _ _ (Keeps-lift run_id request _) (λ loaded.
        Keeps-bind run_id request _ _ Keeps-current (λ s.
          Keeps-bind run_id request _ _ (Keeps-write_receipt _) (λ u.
            Keeps-bind run_id request _ _ (Keeps-update_ _ _) (λ u. Keeps-pure run_id request _))))

  -- A stage leaves the run in order.
  pub Keeps-run_stage :
      (script : Script F) (task : TaskSpec F) (stage : StageSpec F) (index : ℕ) (label : String)
      → Keeps run_id request (run_stage manager script run_id task stage index label)
  unfolding run_stage begin_stage
  Keeps-run_stage script task stage index label =
      Keeps-bind run_id request _ _ (Keeps-lift run_id request script.mkdir) (λ u.
        Keeps-bind run_id request _ _ (Keeps-update_ _ _) (λ u.
          Keeps-bind run_id request _ _ (Keeps-prepare script task stage label) (λ command.
            Keeps-bind run_id request _ _ (Keeps-lift run_id request script.pipe) (λ u.
              Keeps-bind run_id request _ _ (Keeps-run_process script stage command)
                (λ exit_code. Keeps-finish_stage task stage script.report exit_code)))))
