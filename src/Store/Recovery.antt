-- ===== src/Store/Recovery.antt =====
-- What `recover_interrupted` does to a store, src/kernel_infra/store.py.
use mathlib.Core.Path.{subst}
use gpu_infra.Prelude.{
  ℕ, ◌≡◌, refl, sym, ap, ◌∙◌, String, Bool, true, false, not, none, some, List, [], ◌∷◌, Dict, get,
  put, All, All-at, All-of_In, In, here, there, In-map, In-map_rev, Distinct, count_by, ◌+◌, arith,
  mem, mem-In, In-mem, Bool-cases, inl, inr, ok, ok-injective, if◌then◌else◌, ◌==◌, eq_iff,
}
use gpu_infra.Results.Types.{interrupted}
use gpu_infra.Store.Types.{is_terminal, ended, State, Run, Change, Times}
use gpu_infra.Store.Ops.{
  apply_change, apply_changes, is_stamped, stamp, read_state, write_state, update_state,
  recovery_changes, recover_loop, recover_interrupted, list_states,
}
use gpu_infra.Store.Update.{
  StoreOk, read_run-found, read_state-found, update_state-read, update_state-StoreOk,
}
use gpu_infra.Store.Listing.{
  run_ids, Holds, Holds-kept, read-Holds, read_state-same, Distinct-list_states, list_states-In,
  list_states-Holds,
}

-- An unfinished state after a restart: it is interrupted, says why, and carries the time; the rest
-- of it is as before.
abbrev pub restarted : String → State → State
restarted now s = record s {
  state = ended interrupted;
  reason = some "kernel-infrad restarted before the run became terminal";
  updated_at = now;
  terminal_at = if not (is_stamped s.terminal_at) then some now else s.terminal_at;
}

restarted-made :
    (now : String) (s : State) → stamp (apply_changes s recovery_changes) now ≡ restarted now s
unfolding stamp apply_changes apply_change is_terminal
restarted-made now s = refl

-- the state of a run after a recovery
abbrev pub recovered : (String → Times) → State → State
recovered times s = if is_terminal s.state then s else restarted (times s.run_id).updated s

abbrev pub is_active : State → Bool
is_active s = not (is_terminal s.state)

-- a clock that reads something
abbrev pub Clock : (String → Times) → Type 0
Clock times = (k : String) → ((times k).updated == "") ≡ false

pub apart_of : {a b : String} → (¬ (a ≡ b)) → (a == b) ≡ false
apart_of {a} {b} h = elim (Bool-cases (a == b)) [
  | inl e ↦ absurd (h ((eq_iff a b).0 e))
  | inr e ↦ e
]

recovered-terminal :
    (times : String → Times) (s : State) → is_terminal (recovered times s).state ≡ true
unfolding is_terminal
recovered-terminal times s = elim (Bool-cases (is_terminal s.state)) [
  | inl e ↦ rw e e
  | inr e ↦ rw e refl
]

module _ {F : Type 0} where
  pub update_state-Holds :
      (store : Dict (Run F)) (s : State) (times : Times) (event : String) (changes : List Change)
      → (held : Holds store s)
      → let new = stamp (apply_changes s changes) times.updated in
        update_state store s.run_id times event changes
        ≡ ok (put store s.run_id (write_state held.run s.run_id times event new), new)
  unfolding update_state
  update_state-Holds store s times event changes held = rw (
    read_run-found store s.run_id held.run held.valid held.found,
    read_state-found store s.run_id held.run s held.valid held.found held.read,
  )

  -- What the loop leaves.
  pub record Recovered (times : String → Times) (store : Dict (Run F)) (ss : List State)
      (r : Dict (Run F) × ℕ) : Type 0 where
    pub states : All (λ s. read_state r.0 s.run_id ≡ ok (recovered times s)) ss
    pub others : (k : String) → (¬ In k (run_ids ss)) → get r.0 k ≡ get store k
    pub counted : r.1 ≡ count_by is_active ss
    pub kept : StoreOk r.0

  abbrev Recovers : (String → Times) → Dict (Run F) → List State → Type 0
  Recovers times store ss =
      (r : Dict (Run F) × ℕ) × (recover_loop times store ss ≡ ok r) × Recovered times store ss r

  recover_skipped :
      (times : String → Times) (store : Dict (Run F)) (s : State) (ss : List State)
      → is_terminal s.state ≡ true
      → (¬ In s.run_id (run_ids ss))
      → Holds store s
      → Recovers times store ss
      → Recovers times store (s ∷ ss)
  unfolding recover_loop count_by
  recover_skipped times store s ss ended_s own held (r, e, done) = (
    r,
    rw (ended_s, e),
    record {
      states = (
        rw ended_s (read-Holds r.0 s (Holds-kept store r.0 s (done.others s.run_id own) held)),
        done.states,
      );
      others = λ k m. done.others k (λ n. m (there n));
      counted = ground (arith, done.counted);
      kept = done.kept;
    },
  )

  recover_updated :
      (times : String → Times) (store next : Dict (Run F)) (s new : State) (ss : List State)
      → is_terminal s.state ≡ false
      → new ≡ restarted (times s.run_id).updated s
      → update_state store s.run_id (times s.run_id) "interrupted" recovery_changes ≡ ok (next, new)
      → (¬ In s.run_id (run_ids ss))
      → Recovers times next ss
      → Recovers times store (s ∷ ss)
  unfolding recover_loop count_by
  recover_updated times store next s new ss active made updated own (r, e, done) =
      let (read, frame, _) =
        update_state-read store s.run_id (times s.run_id) "interrupted" recovery_changes next new
          updated in
      (
        (r.0, 1 + r.1),
        rw (active, updated, e),
        record {
          states = (
            rw active
                (read_state-same next r.0 s.run_id (done.others s.run_id own) ∙ read ∙ ap ok made),
            done.states,
          );
          others =
              λ k m. done.others k (λ n. m (there n)) ∙ frame k (apart_of (λ q. m (rw q here)));
          counted = ground (arith, done.counted);
          kept = done.kept;
        },
      )

  recover_loop-Recovers :
      (times : String → Times) (store : Dict (Run F)) (ss : List State)
      → Clock times
      → StoreOk store
      → Distinct (run_ids ss)
      → All (Holds store) ss
      → Recovers times store ss
  unfolding recover_loop count_by
  recover_loop-Recovers times store [] clock h own held =
      ((store, 0), refl, record { states = tt; others = λ k m. refl; counted = refl; kept = h })
  recover_loop-Recovers times store (s ∷ ss) clock h own held =
      elim (Bool-cases (is_terminal s.state)) [
        | inl e ↦
            recover_skipped times store s ss e own.0 held.0
              (recover_loop-Recovers times store ss clock h own.1 held.1)
        | inr e ↦
            let times_of = times s.run_id in
            let new = stamp (apply_changes s recovery_changes) times_of.updated in
            let written = write_state held.0.run s.run_id times_of "interrupted" new in
            let next = put store s.run_id written in
            let updated =
              update_state-Holds store s times_of "interrupted" recovery_changes held.0 in
            let next_ok =
              update_state-StoreOk store s.run_id times_of "interrupted" recovery_changes next new
                (clock s.run_id) h updated in
            let frame =
              (update_state-read store s.run_id times_of "interrupted" recovery_changes next new
                updated).1 in
            recover_updated times store next s new ss e (restarted-made times_of.updated s) updated
              own.0
              (recover_loop-Recovers times next ss clock next_ok own.1 (
                All-of_In (Holds next) ss (λ t m.
                  Holds-kept store next t
                    (frame t.run_id
                      (apart_of (λ q. own.0 (rw q (In-map (λ (x : State). x.run_id) m)))))
                    (All-at (Holds store) held.1 m))))
      ]

  -- Recovery of a well-formed store, with a clock that reads something, never raises. It leaves every ended run as it was. Every
  -- other listed run reads back in the state `interrupted`, with the restart as its reason and the
  -- time of that update, and is otherwise as before. Nothing else is touched, the runs it ended are
  -- counted, and the store stays well-formed.
  pub recover_interrupted-Recovered :
      (times : String → Times) (store : Dict (Run F))
      → Clock times
      → StoreOk store
      → (r : Dict (Run F) × ℕ) × (recover_interrupted times store ≡ ok r)
        × Recovered times store (list_states store none) r
  unfolding recover_interrupted
  recover_interrupted-Recovered times store clock h =
      recover_loop-Recovers times store (list_states store none) clock h
        (Distinct-list_states store h)
        (All-of_In (Holds store) (list_states store none) (λ s m. list_states-Holds store none h m))

  Recovered-terminal :
      (times : String → Times) (store : Dict (Run F)) (r : Dict (Run F) × ℕ) (s : State)
      → Recovered times store (list_states store none) r
      → Holds r.0 s
      → is_terminal s.state ≡ true
  Recovered-terminal times store r s what held =
      let listed = list_states store none in
      let ids = run_ids listed in
      elim (Bool-cases (mem s.run_id ids)) [
        | inl e ↦
            let (t, m, q) = In-map_rev (λ (x : State). x.run_id) listed (mem-In s.run_id ids e) in
            let read_t =
              All-at (λ (x : State). read_state r.0 x.run_id ≡ ok (recovered times x)) what.states
                m in
            let read_s = subst (λ k. read_state r.0 k ≡ ok s) (sym q) (read-Holds r.0 s held) in
            let same : recovered times t ≡ s = ok-injective (sym read_t ∙ read_s) in
            subst (λ (x : State). is_terminal x.state ≡ true) same (recovered-terminal times t)
        | inr e ↦
            let absent : ¬ In s.run_id ids =
              λ m. let there_it_is = In-mem s.run_id ids m in ground arith in
            let n =
              list_states-In store s
                (Holds-kept r.0 store s (sym (what.others s.run_id absent)) held) in
            absurd (absent (In-map (λ (x : State). x.run_id) n))
      ]

  -- After a recovery of a well-formed store, with a clock that reads something, every run that the
  -- store lists has ended.
  pub recover_interrupted-terminal :
      (times : String → Times) (store store' : Dict (Run F)) (n : ℕ)
      → Clock times
      → StoreOk store
      → recover_interrupted times store ≡ ok (store', n)
      → All (λ s. is_terminal s.state ≡ true) (list_states store' none)
  recover_interrupted-terminal times store store' n clock h e =
      let (r, done, what) = recover_interrupted-Recovered times store clock h in
      let same : r ≡ (store', n) = ok-injective (sym done ∙ e) in
      subst (λ (q : Dict (Run F) × ℕ). All (λ s. is_terminal s.state ≡ true) (list_states q.0 none))
        same
        (All-of_In (λ s. is_terminal s.state ≡ true) (list_states r.0 none)
          (λ s m. Recovered-terminal times store r s what (list_states-Holds r.0 none what.kept m)))
