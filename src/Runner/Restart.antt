-- ===== src/Runner/Restart.antt =====
-- A restart leaves no run unfinished once the broker has answered: `RunManager.recover_interrupted`, src/kernel_infra/runner.py.
use gpu_infra.Prelude.{
  ℕ, ◌≡◌, refl, sym, String, Bool, true, none, some, List, [], ◌∷◌, Dict, put, All, All-at,
  All-of_In, In-map, In-map_rev, Distinct, filter_by, filter_by-In, Option-cases, Bool-cases, inl,
  inr, ◌⊎◌, ok, err, Result, In, here, there, arith,
}
use gpu_infra.Store.Types.{State, Run, Times, is_terminal}
use gpu_infra.Fault.{Fault}
use gpu_infra.Store.Ops.{update_state, apply_changes, stamp, write_state, list_states}
use gpu_infra.Store.Update.{StoreOk, update_state-StoreOk, update_state-read}
use gpu_infra.Store.Listing.{run_ids, Holds, Holds-kept, Distinct-list_states, list_states-Holds}
use gpu_infra.Store.Recovery.{
  Clock, apart_of, update_state-Holds, recover_interrupted-Recovered, recover_interrupted-terminal,
}
use gpu_infra.Runner.Manage.{job_of, is_unfinished, reconcile, reconcile_changes, recover_manager}

answer-cases :
    {A : Type 0} (r : Result Fault A) → ((a : A) × (r ≡ ok a)) ⊎ ((e : Fault) × (r ≡ err e))
answer-cases (ok a) = inl (a, refl)
answer-cases (err e) = inr (e, refl)

filter_by-Distinct :
    (p : State → Bool) (ss : List State)
    → Distinct (run_ids ss)
    → Distinct (run_ids (filter_by p ss))
unfolding filter_by
filter_by-Distinct p [] own = tt
filter_by-Distinct p (s ∷ ss) own = elim (Bool-cases (p s)) [
  | inr e ↦ rw e (filter_by-Distinct p ss own.1)
  | inl e ↦ rw e (
    λ m.
        let (t, n, q) = In-map_rev (λ (x : State). x.run_id) (filter_by p ss) m in
        let (n', _) = filter_by-In p ss n in
        own.0 (rw (sym q) (In-map (λ (x : State). x.run_id) n')),
    filter_by-Distinct p ss own.1,
  )
]

-- The broker did not answer for the job of an unfinished run.
abbrev pub Refused : (String → Result Fault Bool) → List State → Fault → Type 0
Refused cancels ss e =
    (s : State) × (job : String) × In s ss × (job_of s ≡ some job) × (cancels job ≡ err e)

Refused-there :
    (cancels : String → Result Fault Bool) (s : State) (ss : List State) (e : Fault)
    → Refused cancels ss e
    → Refused cancels (s ∷ ss) e
Refused-there cancels s ss e (t, job, m, named, refused) = (t, job, there m, named, refused)

module _ {F : Type 0} (times : String → Times) (cancels : String → Result Fault Bool)
    (clock : Clock times) where
  abbrev Reconciles : Dict (Run F) → List State → Type 0
  Reconciles store ss =
      ((next : Dict (Run F)) × (reconcile times cancels store ss ≡ ok next) × StoreOk next)
      ⊎ ((e : Fault) × (reconcile times cancels store ss ≡ err e) × Refused cancels ss e)

  skip-Reconciles :
      (store : Dict (Run F)) (s : State) (ss : List State)
      → job_of s ≡ none
      → Reconciles store ss
      → Reconciles store (s ∷ ss)
  unfolding reconcile
  skip-Reconciles store s ss e (inl (next, done, good)) = inl (next, ground (arith, e, done), good)
  skip-Reconciles store s ss e (inr (f, failed, refused)) =
      inr (f, ground (arith, e, failed), Refused-there cancels s ss f refused)

  update-Reconciles :
      (store : Dict (Run F)) (s : State) (ss : List State) (job : String) (was_active : Bool)
      (store' : Dict (Run F)) (new : State)
      → job_of s ≡ some job
      → cancels job ≡ ok was_active
      → update_state store s.run_id
          (times s.run_id)
          "recovery_broker_reconciled"
          (reconcile_changes was_active job)
        ≡ ok (store', new)
      → Reconciles store' ss
      → Reconciles store (s ∷ ss)
  unfolding reconcile
  update-Reconciles store s ss job was_active store' new e asked updated (inl (next, done, good)) =
      inl (next, ground (arith, e, asked, updated, done), good)
  update-Reconciles store s ss job was_active store' new e asked updated
        (inr (f, failed, refused)) =
      inr (f, ground (arith, e, asked, updated, failed), Refused-there cancels s ss f refused)

  refuse-Reconciles :
      (store : Dict (Run F)) (s : State) (ss : List State) (job : String) (f : Fault)
      → job_of s ≡ some job
      → cancels job ≡ err f
      → Reconciles store (s ∷ ss)
  unfolding reconcile
  refuse-Reconciles store s ss job f e asked =
      inr (f, ground (arith, e, asked), (s, job, here, e, asked))

  reconcile-Reconciles :
      (store : Dict (Run F)) (ss : List State)
      → StoreOk store
      → Distinct (run_ids ss)
      → All (Holds store) ss
      → Reconciles store ss
  unfolding reconcile
  reconcile-Reconciles store [] h own held = inl (store, refl, h)
  reconcile-Reconciles store (s ∷ ss) h own held = elim (Option-cases (job_of s)) [
    | inl e ↦ skip-Reconciles store s ss e (reconcile-Reconciles store ss h own.1 held.1)
    | inr (job, e) ↦ elim (answer-cases (cancels job)) [
      | inr (f, asked) ↦ refuse-Reconciles store s ss job f e asked
      | inl (was_active, asked) ↦
          let now = times s.run_id in
          let event : String = "recovery_broker_reconciled" in
          let changes = reconcile_changes was_active job in
          let new = stamp (apply_changes s changes) now.updated in
          let store' = put store s.run_id (write_state held.0.run s.run_id now event new) in
          let updated = update_state-Holds store s now event changes held.0 in
          let h' =
            update_state-StoreOk store s.run_id now event changes store' new (clock s.run_id) h
              updated in
          let frame = (update_state-read store s.run_id now event changes store' new updated).1 in
          let held' : All (Holds store') ss = All-of_In (Holds store') ss (λ t m.
            Holds-kept store store' t
              (frame t.run_id (apart_of (λ q. own.0 (rw q (In-map (λ (x : State). x.run_id) m)))))
              (All-at (Holds store) held.1 m)) in
          update-Reconciles store s ss job was_active store' new e asked updated
            (reconcile-Reconciles store' ss h' own.1 held')
    ]
  ]

  abbrev Recovers : Dict (Run F) → Type 0
  Recovers store =
      ((r : Dict (Run F) × ℕ) × (recover_manager times cancels store ≡ ok r)
        × StoreOk r.0
        × All (λ s. is_terminal s.state ≡ true) (list_states r.0 none))
      ⊎ ((e : Fault) × (recover_manager times cancels store ≡ err e)
          × Refused cancels (filter_by is_unfinished (list_states store none)) e)

  reconciled-Recovers :
      (store : Dict (Run F))
      → Reconciles store (filter_by is_unfinished (list_states store none))
      → Recovers store
  unfolding recover_manager
  reconciled-Recovers store (inr (e, failed, refused)) = inr (e, rw failed, refused)
  reconciled-Recovers store (inl (next, done, good)) =
      let (r, ends, what) = recover_interrupted-Recovered times next clock good in
      inl (
        r,
        rw (done, ends),
        what.kept,
        recover_interrupted-terminal times next r.0 r.1 clock good ends,
      )

  -- Recovery at the start of the manager, over a well-formed store and with a clock that reads
  -- something, leaves a well-formed store in which every listed run has ended, or it raises what the
  -- request to the broker raised for the job of an unfinished run; nothing else makes it raise.
  pub recover_manager-terminal :
      (store : Dict (Run F))
      → StoreOk store
      → ((r : Dict (Run F) × ℕ) × (recover_manager times cancels store ≡ ok r)
          × StoreOk r.0
          × All (λ s. is_terminal s.state ≡ true) (list_states r.0 none))
        ⊎ ((e : Fault) × (recover_manager times cancels store ≡ err e)
            × Refused cancels (filter_by is_unfinished (list_states store none)) e)
  recover_manager-terminal store h =
      let listed = list_states store none in
      let active = filter_by is_unfinished listed in
      let held =
        All-of_In (Holds store) active
          (λ s m. list_states-Holds store none h (filter_by-In is_unfinished listed m).0) in
      reconciled-Recovers store (
        reconcile-Reconciles store active h
          (filter_by-Distinct is_unfinished listed (Distinct-list_states store h)) held)
