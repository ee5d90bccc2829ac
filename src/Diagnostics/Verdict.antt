-- ===== src/Diagnostics/Verdict.antt =====
-- The verdict of `build_diagnosis`, src/kernel_infra/diagnostics.py.
use gpu_infra.Prelude.{
  String, Bool, true, false, Option, List, [], ◌∷◌, ◌≡◌, refl, sym, ap, ◌∙◌, ◌↔◌, Dict, option_or,
  any, All, Bool-cases, inl, inr, if◌then◌else◌, Result, ok, ◌>>=◌, >>=-eq-ok, ok-injective, arith,
  ◌||◌,
}
use mathlib.Core.Path.{subst}
use gpu_infra.Json.{Json, Floats}
use gpu_infra.Fault.{Fault}
use gpu_infra.Contracts.Stage.{value_or_none}
use gpu_infra.Diagnostics.Types.{RunView, Health, healthy, attention, uncertain}
use gpu_infra.Diagnostics.Read.{Calendar, number}
use gpu_infra.Diagnostics.Broker.{any_ok, read_status}
use gpu_infra.Diagnostics.Parts.{build_diagnosis-parts}
use gpu_infra.Diagnostics.Report.{
  is_unknown, needs_attention, waits_long, verdict_of, Report, Runs, build_diagnosis, report_of,
}

pub any-none {ℓ} :
    {A : Type ℓ} (p : A → Bool) (xs : List A) → (any p xs ≡ false) ↔ All (λ x. p x ≡ false) xs
unfolding any
any-none p [] = (λ h. tt, λ h. refl)
any-none p (x ∷ xs) =
    let rest = any-none p xs in
    (
      λ h. (ground arith, rest.0 (ground arith)),
      λ h. let later = rest.1 h.1 in let first = h.0 in ground arith,
    )

pub any_ok-none {ℓ κ} :
    {E : Type ℓ} {A : Type κ} (p : A → Result E Bool) (xs : List A)
    → (any_ok p xs ≡ ok false) ↔ All (λ x. p x ≡ ok false) xs
unfolding any_ok
any_ok-none p [] = (λ h. tt, λ h. refl)
any_ok-none p (x ∷ xs) =
    let rest = any_ok-none p xs in
    (
      λ h. (ground arith, rest.0 (ground arith)),
      λ h. let later = rest.1 h.1 in let first = h.0 in ground arith,
    )

pub All-mono {ℓ κ μ} :
    {A : Type ℓ} {P : A → Type κ} {Q : A → Type μ}
    → ((x : A) → P x → Q x)
    → (xs : List A) → All P xs
    → All Q xs
All-mono f [] h = tt
All-mono f (x ∷ xs) h = (f x h.0, All-mono f xs h.1)

module _ {F : Type 0} ⦃fl : Floats F⦄ where
  -- Nothing about the run asks for a look.
  abbrev pub IsCalm : RunView F → Type 0
  IsCalm r = (is_unknown r.diagnosis ≡ false) × (needs_attention r.diagnosis ≡ false)

  -- The wait of the job is read, and is below the limit.
  abbrev pub WaitsShort : F → Dict (Json F) → Type 0
  WaitsShort limit job =
      (wait : Option F) × (number (value_or_none job "wait_seconds") ≡ ok wait)
      × (fl.le limit (option_or wait (fl.lit 0)) ≡ false)

  waits_long-short :
      (limit : F) (job : Dict (Json F)) → waits_long limit job ≡ ok false → WaitsShort limit job
  unfolding waits_long
  waits_long-short limit job h =
      let (wait, read, late) = >>=-eq-ok (number (value_or_none job "wait_seconds")) _ h in
      (wait, read, ok-injective late)

  short-waits_long :
      (limit : F) (job : Dict (Json F)) → WaitsShort limit job → waits_long limit job ≡ ok false
  unfolding waits_long
  short-waits_long limit job (wait, read, late) = rw (read, late)

  pair_views :
      (runs : List (RunView F))
      → All (λ r. is_unknown r.diagnosis ≡ false) runs
      → All (λ r. needs_attention r.diagnosis ≡ false) runs
      → All IsCalm runs
  pair_views [] h k = tt
  pair_views (r ∷ runs) h k = ((h.0, k.0), pair_views runs h.1 k.1)

  split_calm :
      (runs : List (RunView F))
      → All IsCalm runs
      → All (λ r. is_unknown r.diagnosis ≡ false) runs
        × All (λ r. needs_attention r.diagnosis ≡ false) runs
  split_calm [] h = (tt, tt)
  split_calm (r ∷ runs) h = let rest = split_calm runs h.1 in ((h.0.0, rest.0), (h.0.1, rest.1))

  healthy_queue :
      (limit : F) (queue : List (Dict (Json F)))
      → ◌≡◌ {A = Result Fault Health}
          (do late ← any_ok (waits_long limit) queue; ok (if late then attention else healthy))
          (ok healthy)
      → any_ok (waits_long limit) queue ≡ ok false
  healthy_queue limit queue h =
      let (late, e, q) = >>=-eq-ok (any_ok (waits_long limit) queue) _ h in
      elim (Bool-cases late) [ inl l ↦ ground (arith, e, q, l) | inr l ↦ rw l at e ]

  healthy_verdict :
      (u v w : Bool) (limit : F) (queue : List (Dict (Json F)))
      → ◌≡◌ {A = Result Fault Health}
          (if u || v then ok uncertain else if w then ok attention else do
            late ← any_ok (waits_long limit) queue
            ok (if late then attention else healthy))
          (ok healthy)
      → (u ≡ false) × (v ≡ false) × (w ≡ false) × (any_ok (waits_long limit) queue ≡ ok false)
  healthy_verdict true v w limit queue h = cc
  healthy_verdict false true w limit queue h = cc
  healthy_verdict false false true limit queue h = cc
  healthy_verdict false false false limit queue h = (refl, refl, refl, healthy_queue limit queue h)

  verdict_of-healthy :
      (broker_unknown : Bool) (runs : List (RunView F)) (queue : List (Dict (Json F))) (limit : F)
      → (verdict_of broker_unknown runs queue limit ≡ ok healthy)
        ↔ ((broker_unknown ≡ false) × All IsCalm runs × All (WaitsShort limit) queue)
  unfolding verdict_of
  verdict_of-healthy u runs queue limit = (
    λ h.
        let (hu, hv, hw, hq) = healthy_verdict u _ _ limit queue h in
        (
          hu,
          pair_views runs ((any-none _ runs).0 hv) ((any-none _ runs).0 hw),
          All-mono (waits_long-short limit) queue ((any_ok-none (waits_long limit) queue).0 hq),
        ),
    λ (hu, calm, short).
        let (hv, hw) = split_calm runs calm in
        let hq =
          (any_ok-none (waits_long limit) queue).1
            (All-mono (short-waits_long limit) queue short) in
        rw
          (
            hu,
            (any-none (λ r. is_unknown r.diagnosis) runs).1 hv,
            (any-none (λ r. needs_attention r.diagnosis) runs).1 hw,
            hq,
          )
          refl,
  )

  -- A report says that all is well exactly when the observation of the broker is trusted, every run
  -- has a diagnosis that is known and asks for no look, and every queued job has waited less than
  -- the limit.
  pub build_diagnosis-healthy :
      {T : Type 0} (calendar : Calendar F T) (observed_at : String) (limit : F) (runs : Runs F)
      (broker : Option (Dict (Json F))) (broker_error : Option String)
      (services : List (Dict (Json F))) (report : Report F)
      → build_diagnosis calendar observed_at limit runs broker broker_error services ≡ ok report
      → (report.verdict ≡ healthy) ↔ (
          (report.broker.is_unknown ≡ false)
          × All IsCalm report.runs
          × All (WaitsShort limit) (read_status (option_or broker [])).queue)
  unfolding report_of
  build_diagnosis-healthy calendar observed_at limit runs broker broker_error services report h =
      let (now, seen, views, verdict, hs, hv, hd, e) =
        build_diagnosis-parts calendar observed_at limit runs broker broker_error services report
          h in
      let queue = (read_status (option_or broker [])).queue in
      let exact = verdict_of-healthy seen.0 views queue limit in
      let told : (verdict ≡ healthy)
          ↔ ((seen.0 ≡ false) × All IsCalm views × All (WaitsShort limit) queue) =
        (λ q. exact.0 (hd ∙ ap ok q), λ k. ok-injective (sym hd ∙ exact.1 k)) in
      subst
        (λ r.
          (r.verdict ≡ healthy)
          ↔ ((r.broker.is_unknown ≡ false) × All IsCalm r.runs × All (WaitsShort limit) queue))
        e told
