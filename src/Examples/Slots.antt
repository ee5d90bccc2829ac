-- ===== src/Examples/Slots.antt =====
-- The local slots of a run whose pipe opens, and of a stage whose pipe does not.
use gpu_infra.Prelude.{ℕ, ◌≡◌, refl, none, [], ◌∷◌, err}
use gpu_infra.Fault.{os_error}
use gpu_infra.Contracts.Spec.{StageSpec}
use gpu_infra.Runner.Types.{Script, exception}
use gpu_infra.Runner.Execute.{run}
use gpu_infra.Runner.Stage.{run_stage, is_local}
use gpu_infra.Runner.Returned.{run-held}
use gpu_infra.Runner.Leak.{run_stage-held_pipe}
use gpu_infra.Examples.Data.{whole_floats, gemm}
use gpu_infra.Examples.Stores.{manager, scripts, killed, world, world-Live, request_first}

abbrev local_stage : StageSpec ℕ
local_stage = record {
  id = "check";
  kind = "correctness";
  execution = "local";
  judge_identity = "judge";
  cwd = "/judge";
  command = "run" ∷ [];
  resources = none;
  service_deployment_id = none;
}

-- no file descriptor is left
abbrev no_pipe : Script ℕ
no_pipe = record (scripts 0) { pipe = err (os_error "too many open files") }

run-held_example : (run manager scripts killed "gemm-1" gemm world).0.held ≡ 0
run-held_example =
    run-held manager scripts killed "gemm-1" request_first gemm world (λ n. refl) (λ i. refl)
      world-Live

run_stage-held_pipe_example :
    ((run_stage manager no_pipe "gemm-1" gemm local_stage 0 "label" world).1
      ≡ err (exception (os_error "too many open files")))
    × ((run_stage manager no_pipe "gemm-1" gemm local_stage 0 "label" world).0.held ≡ 1)
unfolding is_local
run_stage-held_pipe_example =
    run_stage-held_pipe manager (λ n. refl) "gemm-1" request_first no_pipe gemm local_stage 0
      "label" world (os_error "too many open files") refl refl refl refl world-Live
