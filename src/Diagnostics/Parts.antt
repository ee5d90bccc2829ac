-- ===== src/Diagnostics/Parts.antt =====
-- What a report of `build_diagnosis`, src/kernel_infra/diagnostics.py, was put together from.
use gpu_infra.Prelude.{
  String, Bool, Option, List, [], ◌≡◌, Dict, option_or, ok, >>=-eq-ok, ok-injective,
}
use gpu_infra.Json.{Json, Floats}
use gpu_infra.Diagnostics.Types.{RunView, Health}
use gpu_infra.Diagnostics.Read.{Calendar}
use gpu_infra.Diagnostics.Broker.{read_status, jobs_of}
use gpu_infra.Diagnostics.Report.{
  time_of, verdict_of, observe, classify_runs, Report, Runs, build_diagnosis, report_of,
}

module _ {F T : Type 0} ⦃fl : Floats F⦄ (calendar : Calendar F T) (observed_at : String) (limit : F)
    (runs : Runs F) (broker : Option (Dict (Json F))) (broker_error : Option String)
    (services : List (Dict (Json F))) where
  abbrev pub Parts : Report F → Type 0
  Parts report =
      (now : T) × (seen : Bool × Bool) × (views : List (RunView F)) × (verdict : Health) × (observe
          calendar broker broker_error
        ≡ ok seen)
      × (classify_runs calendar runs (jobs_of calendar (read_status (option_or broker []))) seen.0
            now limit
          ≡ ok views)
      × (verdict_of seen.0 views (read_status (option_or broker [])).queue limit ≡ ok verdict)
      × (report_of calendar observed_at limit broker broker_error seen services views verdict
          ≡ report)

  pub build_diagnosis-parts :
      (report : Report F)
      → build_diagnosis calendar observed_at limit runs broker broker_error services ≡ ok report
      → Parts report
  unfolding build_diagnosis
  build_diagnosis-parts report h =
      let (now, found, rest) = >>=-eq-ok (time_of calendar observed_at limit) _ h in
      let (seen, hs, after_seen) = >>=-eq-ok (observe calendar broker broker_error) _ rest in
      let (views, hv, after_views) =
        >>=-eq-ok (classify_runs calendar runs _ seen.0 now limit) _ after_seen in
      let (verdict, hd, done) = >>=-eq-ok (verdict_of seen.0 views _ limit) _ after_views in
      (now, seen, views, verdict, hs, hv, hd, ok-injective done)
