-- ===== src/Store/Listing.antt =====
-- The states that a well-formed store lists, src/kernel_infra/store.py.
use mathlib.Core.Path.{subst}
use gpu_infra.Prelude.{
  ◌≡◌, refl, sym, ap, ◌∙◌, String, Bool, true, Option, none, some, List, [], ◌∷◌, map, Dict, get,
  keys, All-at, In, here, there, In-cons, In-map, In-map_rev, In-get, Distinct, get_of_In,
  In-sort_by, In-sort_by_rev, Distinct-sort_by, sort_by, text_lt, filter_by, filter_by-In,
  Option-cases, inl, inr, ok,
}
use gpu_infra.Store.Types.{State, Run}
use gpu_infra.Store.Ops.{is_run_id, read_run, read_state, list_states, states_of, of_task}
use gpu_infra.Store.Update.{RunOk, StoreOk, read_state-found}

abbrev pub run_ids : List State → List String
run_ids ss = map (λ (s : State). s.run_id) ss

listed-all : (ss : List State) → filter_by (of_task none) ss ≡ ss
unfolding filter_by of_task
listed-all [] = refl
listed-all (s ∷ ss) = ap (λ xs. s ∷ xs) (listed-all ss)

-- the orders of `list_states`
abbrev by_time : State → State → Bool
by_time a b = text_lt a.accepted_at b.accepted_at

abbrev by_path : {F : Type 0} → String × Run F → String × Run F → Bool
by_path a b = text_lt a.0 b.0

module _ {F : Type 0} where
  -- The directory of a state, under its own name.
  pub record Holds (store : Dict (Run F)) (s : State) : Type 0 where
    pub run : Run F
    pub valid : is_run_id s.run_id ≡ true
    pub found : get store s.run_id ≡ some run
    pub read : run.state ≡ some s

  pub Holds-kept :
      (store store' : Dict (Run F)) (s : State)
      → get store' s.run_id ≡ get store s.run_id
      → Holds store s
      → Holds store' s
  Holds-kept store store' s same held = record {
    run = held.run;
    valid = held.valid;
    found = same ∙ held.found;
    read = held.read;
  }

  pub read-Holds :
      (store : Dict (Run F)) (s : State) → Holds store s → read_state store s.run_id ≡ ok s
  read-Holds store s held =
      read_state-found store s.run_id held.run s held.valid held.found held.read

  pub read_state-same :
      (store store' : Dict (Run F)) (k : String)
      → get store' k ≡ get store k
      → read_state store' k ≡ read_state store k
  unfolding read_state read_run
  read_state-same store store' k same = rw same

  -- The states that are listed are those of the directories.
  states_of-source :
      (runs : List (String × Run F)) {s : State}
      → In s (states_of runs)
      → (e : String × Run F) × In e runs × (e.1.state ≡ some s)
  unfolding states_of
  states_of-source [] m = elim m [ ]
  states_of-source ((k, run) ∷ runs) {s} m = elim (Option-cases run.state) [
    | inl e ↦ let (f, n, q) = states_of-source runs (rw e at m) in (f, there n, q)
    | inr (t, e) ↦ elim (In-cons (first_or_rest t e m)) [
      | inl same ↦ ((k, run), here, e ∙ ap some (sym same))
      | inr n ↦ let (f, n', q) = states_of-source runs n in (f, there n', q)
    ]
  ]
    where
      first_or_rest :
          (t : State)
          → run.state ≡ some t
          → In s (states_of ((k, run) ∷ runs))
          → In s (t ∷ states_of runs)
      first_or_rest t e m = rw e at m

  abbrev Named : String × Run F → Type 0
  Named e = (s : State) → e.1.state ≡ some s → s.run_id ≡ e.0

  Distinct-states_of :
      (runs : List (String × Run F))
      → Distinct (keys runs)
      → ((e : String × Run F) → In e runs → Named e)
      → Distinct (run_ids (states_of runs))
  unfolding states_of
  Distinct-states_of [] own named = tt
  Distinct-states_of ((k, run) ∷ runs) own named = elim (Option-cases run.state) [
    | inl e ↦ rw e (Distinct-states_of runs own.1 (λ f m. named f (there m)))
    | inr (t, e) ↦ rw e (
      λ m.
          let (s, n, q) = In-map_rev (λ (x : State). x.run_id) (states_of runs) m in
          let (f, n', q') = states_of-source runs n in
          let same : f.0 ≡ k = sym (named f (there n') s q') ∙ q ∙ named (k, run) here t e in
          own.0 (rw (sym same) (In-map (λ (x : String × Run F). x.0) n')),
      Distinct-states_of runs own.1 (λ f m. named f (there m)),
    )
  ]

  StoreOk-Named :
      (store : Dict (Run F)) → StoreOk store → (e : String × Run F) → In e store → Named e
  StoreOk-Named store h e m s q = ((All-at RunOk h.runs_ok m).1 s q).named

  -- Every state that a well-formed store lists is held under its own name.
  pub list_states-Holds :
      (store : Dict (Run F)) (task_id : Option String) {s : State}
      → StoreOk store
      → In s (list_states store task_id)
      → Holds store s
  unfolding list_states
  list_states-Holds store task_id {s} h m =
      let k = In-sort_by_rev by_time _ m in
      let (n, _) = filter_by-In (of_task task_id) _ k in
      let (e, n', q) = states_of-source (sort_by by_path store) n in
      let listed = In-sort_by_rev by_path store n' in
      let (valid, good) = All-at RunOk h.runs_ok listed in
      let named = sym (good s q).named in
      record {
        run = e.1;
        valid = subst (λ k. is_run_id k ≡ true) named valid;
        found =
            subst (λ k. get store k ≡ some e.1) named (get_of_In store e.0 e.1 h.own_names listed);
        read = q;
      }

  pub Distinct-list_states :
      (store : Dict (Run F)) → StoreOk store → Distinct (run_ids (list_states store none))
  unfolding list_states
  Distinct-list_states store h =
      let runs = sort_by by_path store in
      let own = Distinct-sort_by by_path (λ (e : String × Run F). e.0) store h.own_names in
      Distinct-sort_by by_time (λ (s : State). s.run_id) (filter_by (of_task none) (states_of runs))
        (rw (listed-all (states_of runs)) (
          Distinct-states_of runs own
            (λ e m. StoreOk-Named store h e (In-sort_by_rev by_path store m))))

  states_of-In :
      (runs : List (String × Run F)) {e : String × Run F} {s : State}
      → In e runs
      → e.1.state ≡ some s
      → In s (states_of runs)
  unfolding states_of
  states_of-In [] m q = elim m [ ]
  states_of-In (e ∷ runs) here q = rw q here
  states_of-In ((k, run) ∷ runs) (there m) q =
      let n = states_of-In runs m q in
      elim (Option-cases run.state) [ inl e ↦ rw e n | inr (t, e) ↦ rw e (there n) ]

  pub list_states-In :
      (store : Dict (Run F)) (s : State) → Holds store s → In s (list_states store none)
  unfolding list_states
  list_states-In store s held =
      let m = In-sort_by by_path store (In-get store s.run_id held.run held.found) in
      In-sort_by by_time (filter_by (of_task none) (states_of (sort_by by_path store))) (
        rw (listed-all (states_of (sort_by by_path store)))
          (states_of-In (sort_by by_path store) m held.read))
