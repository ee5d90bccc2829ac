-- ===== src/Diagnostics/Counts.antt =====
-- The counts of a report of `build_diagnosis`, src/kernel_infra/diagnostics.py.
use Prim.Native.Nat.{suc}
use gpu_infra.Prelude.{
  ℕ, ◌+◌, String, Bool, Option, List, [], ◌∷◌, ◌≡◌, sym, ap, ◌∙◌, map, Dict, get, put, get-put,
  keys, Distinct, Distinct-keys-put, Distinct-sort_by, In-sort_by, In-sort_by_rev, In-get,
  get_of_In, count_by, option_or, length, refl, Option-cases, Bool-cases, inl, inr, eq_iff, ok,
  arith, ◌==◌, sort_by, text_lt,
}
use mathlib.Core.Path.{subst}
use gpu_infra.Json.{Json, Floats, str}
use gpu_infra.Diagnostics.Read.{Calendar}
use gpu_infra.Diagnostics.Broker.{text_of, object_list, read_status}
use gpu_infra.Contracts.Stage.{value_or_none}
use gpu_infra.Diagnostics.Types.{Diagnosis}
use gpu_infra.Diagnostics.Report.{
  Report, Runs, build_diagnosis, report_of, tally, counter, diagnosis_text,
}
use gpu_infra.Diagnostics.Parts.{build_diagnosis-parts}

tally-Distinct :
    (ws : List String) (counts : Dict ℕ)
    → Distinct (keys counts)
    → Distinct (keys (tally ws counts))
unfolding tally
tally-Distinct [] counts h = h
tally-Distinct (w ∷ ws) counts h = tally-Distinct ws _ (Distinct-keys-put counts w _ h)

-- How often a word was counted.
abbrev pub count_of : Dict ℕ → String → ℕ
count_of counts w = option_or (get counts w) 0

tally-count :
    (ws : List String) (counts : Dict ℕ) (w : String)
    → count_of (tally ws counts) w ≡ count_of counts w + count_by (λ x. x == w) ws
unfolding tally count_by
tally-count [] counts w = omega arith
tally-count (x ∷ ws) counts w = elim (Bool-cases (x == w)) [
  | inl e ↦ ground (
    arith,
    e,
    tally-count ws (put counts x (count_of counts x + 1)) w,
    get-put counts x w (count_of counts x + 1),
    (eq_iff x w).0 e,
  )
  | inr e ↦ ground (
    arith,
    e,
    tally-count ws (put counts x (count_of counts x + 1)) w,
    get-put counts x w (count_of counts x + 1),
  )
]

get-sort_by :
    {V : Type 0} (lt : String × V → String × V → Bool) (d : Dict V) (k : String)
    → Distinct (keys d)
    → get (sort_by lt d) k ≡ get d k
get-sort_by lt d k h = elim (Option-cases (get d k)) [
  | inl e ↦ elim (Option-cases (get (sort_by lt d) k)) [
    | inl q ↦ q ∙ sym e
    | inr (v, q) ↦
        let again = get_of_In d k v h (In-sort_by_rev lt d (In-get (sort_by lt d) k v q)) in cc
  ]
  | inr (v, e) ↦
      get_of_In (sort_by lt d) k v (Distinct-sort_by lt (λ e. e.0) d h)
        (In-sort_by lt d (In-get d k v e))
      ∙ sym e
]

counter-count :
    (ws : List String) (w : String) → count_of (counter ws) w ≡ count_by (λ x. x == w) ws
unfolding counter get
counter-count ws w =
    let sorted =
      ap (λ o. option_or o 0)
        (get-sort_by (λ a b. text_lt a.0 b.0) (tally ws []) w (tally-Distinct ws [] tt)) in
    let counted = tally-count ws [] w in sorted ∙ (counted ∙ omega arith)

count_by-map :
    {A B : Type 0} (f : A → B) (p : B → Bool) (xs : List A)
    → count_by p (map f xs) ≡ count_by (λ x. p (f x)) xs
unfolding count_by
count_by-map f p [] = refl
count_by-map f p (x ∷ xs) = ground (arith, count_by-map f p xs)

length-map : {A B : Type 0} (f : A → B) (xs : List A) → length (map f xs) ≡ length xs
length-map f [] = refl
length-map f (x ∷ xs) = ap suc (length-map f xs)

module _ {F T : Type 0} ⦃fl : Floats F⦄ (calendar : Calendar F T) where
  -- The counts of the summary are those of the broker's snapshot, of the services and of the views
  -- that the report lists.
  pub record Counted (snapshot : Dict (Json F)) (services : List (Dict (Json F)))
      (report : Report F) : Type 0 where
    pub diagnoses :
        (d : Diagnosis)
        → count_of report.summary.run_diagnoses (diagnosis_text d)
          ≡ count_by (λ r. diagnosis_text r.diagnosis == diagnosis_text d) report.runs
    pub states :
        (w : String)
        → count_of report.summary.gpu_states w
          ≡ count_by
              (λ g. text_of calendar (option_or (get g "state") (str "unknown")) == w)
              (object_list (value_or_none snapshot "gpus"))
    pub running :
        report.summary.running_broker_jobs ≡ length (object_list (value_or_none snapshot "running"))
    pub queued :
        report.summary.queued_broker_jobs ≡ length (object_list (value_or_none snapshot "queue"))
    pub services_counted : report.summary.active_services ≡ length services
    pub running_listed : length report.broker.running ≡ report.summary.running_broker_jobs
    pub queued_listed : length report.broker.queue ≡ report.summary.queued_broker_jobs
    pub services_listed : length report.services ≡ report.summary.active_services

  -- The counts of a report: of a diagnosis, the number of the views with it; of a GPU's state, of the
  -- GPUs that the broker's snapshot has with it; and of the running and the queued jobs that the
  -- snapshot has, and of the services. The report lists that many jobs and services.
  pub build_diagnosis-count :
      (observed_at : String) (limit : F) (runs : Runs F) (broker : Option (Dict (Json F)))
      (broker_error : Option String) (services : List (Dict (Json F))) (report : Report F)
      → build_diagnosis calendar observed_at limit runs broker broker_error services ≡ ok report
      → Counted (option_or broker []) services report
  unfolding report_of read_status
  build_diagnosis-count observed_at limit runs broker broker_error services report h =
      let (now, seen, views, verdict, hs, hv, hd, e) =
        build_diagnosis-parts calendar observed_at limit runs broker broker_error services report
          h in
      subst (Counted (option_or broker []) services) e (record {
        diagnoses = λ d.
            counter-count _ (diagnosis_text d)
            ∙ count_by-map (λ r. diagnosis_text r.diagnosis) _ views;
        states = λ w. counter-count _ w ∙ count_by-map _ _ _;
        running = refl;
        queued = refl;
        services_counted = refl;
        running_listed = length-map _ _;
        queued_listed = length-map _ _;
        services_listed = length-map _ services;
      })
