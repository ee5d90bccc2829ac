-- ===== src/Store/Update.antt =====
-- What `update_state` keeps, src/kernel_infra/store.py.
use mathlib.Core.Path.{subst}
use gpu_infra.Prelude.{
  ◌≡◌, refl, sym, ap, ◌∙◌, String, true, false, Option, none, some, List, [], ◌∷◌, ◌++◌, Dict, get,
  put, keys, All, All-at, Distinct, Distinct-keys-put, In-get, All-put, get-put, get-put_self, ◌==◌,
  arith, ok, >>=-eq-ok, ok-injective, guard-bind-eq-ok,
}
use gpu_infra.Store.Types.{
  is_terminal, State, Event, Run, Change, set_state, set_stage_id, set_stage_kind,
  set_broker_job_id, set_reason, set_stage_index, set_gpu_ids, Times,
}
use gpu_infra.Store.Ops.{
  is_run_id, apply_change, apply_changes, is_stamped, stamp, event_of, read_run, read_state,
  write_state, update_state,
}

unfoldable pub last : {A : Type 0} → List A → Option A
last [] = none
last (x ∷ []) = some x
last (x ∷ y ∷ ys) = last (y ∷ ys)

pub last-append : {A : Type 0} (xs : List A) (x : A) → last (xs ++ x ∷ []) ≡ some x
unfolding last
last-append [] x = refl
last-append (y ∷ []) x = refl
last-append (y ∷ z ∷ zs) x = last-append (z ∷ zs) x

-- A line of the journal that says what the state says.
pub record Shows (run_id : String) (s : State) (e : Event) : Type 0 where
  pub run_id_shown : e.run_id ≡ run_id
  pub state_shown : e.state ≡ s.state
  pub stage_id_shown : e.stage_id ≡ s.stage_id
  pub broker_job_id_shown : e.broker_job_id ≡ s.broker_job_id
  pub gpu_ids_shown : e.gpu_ids ≡ s.gpu_ids
  pub reason_shown : e.reason ≡ s.reason

event_of-Shows :
    (at event run_id : String) (s : State) → Shows run_id s (event_of at event run_id s)
unfolding event_of
event_of-Shows at event run_id s = record {
  run_id_shown = refl;
  state_shown = refl;
  stage_id_shown = refl;
  broker_job_id_shown = refl;
  gpu_ids_shown = refl;
  reason_shown = refl;
}

-- A state file that agrees with its directory, carries the time of its end once it has ended, and is
-- what the last line of the journal says.
pub record StateOk (run_id : String) (events : List Event) (s : State) : Type 0 where
  pub named : s.run_id ≡ run_id
  pub stamped : is_terminal s.state ≡ true → is_stamped s.terminal_at ≡ true
  pub journal : (e : Event) × (last events ≡ some e) × Shows run_id s e

module _ {F : Type 0} where
  abbrev pub RunOk : String × Run F → Type 0
  RunOk e = (is_run_id e.0 ≡ true) × ((s : State) → e.1.state ≡ some s → StateOk e.0 e.1.events s)

  -- A store that the code wrote.
  pub record StoreOk (store : Dict (Run F)) : Type 0 where
    pub own_names : Distinct (keys store)
    pub runs_ok : All RunOk store

apply_changes-run_id : (cs : List Change) (s : State) → (apply_changes s cs).run_id ≡ s.run_id
unfolding apply_changes apply_change
apply_changes-run_id [] s = refl
apply_changes-run_id (set_state p ∷ cs) s = apply_changes-run_id cs _
apply_changes-run_id (set_stage_id o ∷ cs) s = apply_changes-run_id cs _
apply_changes-run_id (set_stage_kind o ∷ cs) s = apply_changes-run_id cs _
apply_changes-run_id (set_broker_job_id o ∷ cs) s = apply_changes-run_id cs _
apply_changes-run_id (set_reason o ∷ cs) s = apply_changes-run_id cs _
apply_changes-run_id (set_stage_index o ∷ cs) s = apply_changes-run_id cs _
apply_changes-run_id (set_gpu_ids o ∷ cs) s = apply_changes-run_id cs _

apply_changes-terminal_at :
    (cs : List Change) (s : State) → (apply_changes s cs).terminal_at ≡ s.terminal_at
unfolding apply_changes apply_change
apply_changes-terminal_at [] s = refl
apply_changes-terminal_at (set_state p ∷ cs) s = apply_changes-terminal_at cs _
apply_changes-terminal_at (set_stage_id o ∷ cs) s = apply_changes-terminal_at cs _
apply_changes-terminal_at (set_stage_kind o ∷ cs) s = apply_changes-terminal_at cs _
apply_changes-terminal_at (set_broker_job_id o ∷ cs) s = apply_changes-terminal_at cs _
apply_changes-terminal_at (set_reason o ∷ cs) s = apply_changes-terminal_at cs _
apply_changes-terminal_at (set_stage_index o ∷ cs) s = apply_changes-terminal_at cs _
apply_changes-terminal_at (set_gpu_ids o ∷ cs) s = apply_changes-terminal_at cs _

stamp-stamped :
    (s : State) (now : String)
    → (now == "") ≡ false
    → is_terminal (stamp s now).state ≡ true
    → is_stamped (stamp s now).terminal_at ≡ true
unfolding stamp is_stamped
stamp-stamped s now h t = ground arith

stamp-kept :
    (s : State) (now : String)
    → is_stamped s.terminal_at ≡ true
    → (stamp s now).terminal_at ≡ s.terminal_at
unfolding stamp
stamp-kept s now h = ground arith

module _ {F : Type 0} where
  read_run-inverse :
      (store : Dict (Run F)) (run_id : String) (run : Run F)
      → read_run store run_id ≡ ok run
      → (is_run_id run_id ≡ true) × (get store run_id ≡ some run)
  unfolding read_run
  read_run-inverse store run_id run h =
      let (valid, found) = guard-bind-eq-ok (is_run_id run_id) _ _ h in (valid, ground arith)

  pub read_run-found :
      (store : Dict (Run F)) (run_id : String) (run : Run F)
      → is_run_id run_id ≡ true
      → get store run_id ≡ some run
      → read_run store run_id ≡ ok run
  unfolding read_run
  read_run-found store run_id run valid found = rw (valid, found)

  pub read_state-found :
      (store : Dict (Run F)) (run_id : String) (run : Run F) (s : State)
      → is_run_id run_id ≡ true
      → get store run_id ≡ some run
      → run.state ≡ some s
      → read_state store run_id ≡ ok s
  unfolding read_state
  read_state-found store run_id run s valid found here =
      rw (read_run-found store run_id run valid found, here)

  -- What a successful update was made from, and what it made.
  pub record Updated (store : Dict (Run F)) (run_id : String) (times : Times) (event : String)
      (changes : List Change) (store' : Dict (Run F)) (new : State) : Type 0 where
    pub run : Run F
    pub old : State
    pub valid : is_run_id run_id ≡ true
    pub found : get store run_id ≡ some run
    pub read : run.state ≡ some old
    pub made : stamp (apply_changes old changes) times.updated ≡ new
    pub wrote : put store run_id (write_state run run_id times event new) ≡ store'

  read_state-inverse :
      (store : Dict (Run F)) (run_id : String) (run : Run F) (s : State)
      → read_run store run_id ≡ ok run
      → read_state store run_id ≡ ok s
      → run.state ≡ some s
  unfolding read_state
  read_state-inverse store run_id run s found h = ground arith

  pub update_state-Updated :
      (store : Dict (Run F)) (run_id : String) (times : Times) (event : String)
      (changes : List Change) (store' : Dict (Run F)) (new : State)
      → update_state store run_id times event changes ≡ ok (store', new)
      → Updated store run_id times event changes store' new
  unfolding update_state
  update_state-Updated store run_id times event changes store' new h =
      let (run, found, h1) = >>=-eq-ok (read_run store run_id) _ h in
      let (old, read, h2) = >>=-eq-ok (read_state store run_id) _ h1 in
      let (valid, here) = read_run-inverse store run_id run found in
      let made : stamp (apply_changes old changes) times.updated ≡ new = ground arith in
      let wrote : put store run_id
            (write_state run run_id times event (stamp (apply_changes old changes) times.updated))
          ≡ store' =
        ground arith in
      record {
        run = run;
        old = old;
        valid = valid;
        found = here;
        read = read_state-inverse store run_id run old found read;
        made = made;
        wrote =
            subst (λ s. put store run_id (write_state run run_id times event s) ≡ store') made
              wrote;
      }

  pub write_state-StateOk :
      (run : Run F) (run_id : String) (times : Times) (event : String) (s : State)
      → s.run_id ≡ run_id
      → (is_terminal s.state ≡ true → is_stamped s.terminal_at ≡ true)
      → (t : State) → (write_state run run_id times event s).state ≡ some t
      → StateOk run_id (write_state run run_id times event s).events t
  unfolding write_state
  write_state-StateOk run run_id times event s named stamped t e =
      let same : s ≡ t = ground arith in
      subst (StateOk run_id (run.events ++ event_of times.logged event run_id s ∷ [])) same
        (record {
          named = named;
          stamped = stamped;
          journal = (_, last-append run.events _, event_of-Shows times.logged event run_id s);
        })

  state_at :
      (store : Dict (Run F)) (run_id : String) (run : Run F) (s : State)
      → StoreOk store
      → get store run_id ≡ some run
      → run.state ≡ some s
      → StateOk run_id run.events s
  state_at store run_id run s h found read =
      (All-at RunOk h.runs_ok (In-get store run_id run found)).1 s read

  pub RunOk-put :
      (store : Dict (Run F)) (run_id : String) (run : Run F)
      → RunOk (run_id, run)
      → StoreOk store
      → StoreOk (put store run_id run)
  RunOk-put store run_id run ok_run h = record {
    own_names = Distinct-keys-put store run_id run h.own_names;
    runs_ok = All-put RunOk store run_id run ok_run h.runs_ok;
  }

  -- An update with a clock that reads something keeps the store well-formed: the state file agrees
  -- with its directory, an ended run has the time of its end, and the last event has the state,
  -- stage, job, GPUs and reason of the state file.
  pub update_state-StoreOk :
      (store : Dict (Run F)) (run_id : String) (times : Times) (event : String)
      (changes : List Change) (store' : Dict (Run F)) (new : State)
      → (times.updated == "") ≡ false
      → StoreOk store
      → update_state store run_id times event changes ≡ ok (store', new)
      → StoreOk store'
  unfolding stamp
  update_state-StoreOk store run_id times event changes store' new clock h e =
      let u = update_state-Updated store run_id times event changes store' new e in
      let old_ok = state_at store run_id u.run u.old h u.found u.read in
      let named : new.run_id ≡ run_id =
        sym (ap (λ (s : State). s.run_id) u.made)
        ∙ apply_changes-run_id changes u.old
        ∙ old_ok.named in
      let stamped : is_terminal new.state ≡ true → is_stamped new.terminal_at ≡ true =
        subst (λ (s : State). is_terminal s.state ≡ true → is_stamped s.terminal_at ≡ true) u.made
          (stamp-stamped (apply_changes u.old changes) times.updated clock) in
      subst StoreOk u.wrote (
        RunOk-put store run_id (write_state u.run run_id times event new)
          (u.valid, write_state-StateOk u.run run_id times event new named stamped) h)

  -- An update is read back, leaves every other run alone, and
  -- does not move the time at which a run has ended.
  pub update_state-read :
      (store : Dict (Run F)) (run_id : String) (times : Times) (event : String)
      (changes : List Change) (store' : Dict (Run F)) (new : State)
      → update_state store run_id times event changes ≡ ok (store', new)
      → (read_state store' run_id ≡ ok new)
        × ((other : String) → (run_id == other) ≡ false → get store' other ≡ get store other)
        × ((old : State)
            → read_state store run_id ≡ ok old
            → is_stamped old.terminal_at ≡ true
            → new.terminal_at ≡ old.terminal_at)
  unfolding write_state
  update_state-read store run_id times event changes store' new e =
      let u = update_state-Updated store run_id times event changes store' new e in
      let written = write_state u.run run_id times event new in
      let found : get store' run_id ≡ some written =
        subst (λ d. get d run_id ≡ some written) u.wrote (get-put_self store run_id written) in
      (
        read_state-found store' run_id written new u.valid found refl,
        λ other apart.
            subst (λ d. get d other ≡ get store other) u.wrote
              (get-put store run_id other written ∙ rw apart),
        λ old read stamped.
            let first = read_state-found store run_id u.run u.old u.valid u.found u.read in
            let same : u.old ≡ old = ok-injective (sym first ∙ read) in
            let kept =
              apply_changes-terminal_at changes u.old ∙ ap (λ (s : State). s.terminal_at) same in
            sym (ap (λ (s : State). s.terminal_at) u.made)
            ∙ stamp-kept (apply_changes u.old changes) times.updated (rw kept stamped)
            ∙ kept,
      )
