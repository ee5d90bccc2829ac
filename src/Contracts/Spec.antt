-- ===== src/Contracts/Spec.antt =====
-- The dataclasses of src/kernel_infra/contracts.py, lines 79 to 119, and what the parser takes from
-- outside the repository: SHA-256 of canonical JSON, path resolution, and `str` of a JSON value.
use gpu_infra.Prelude.{ℕ, String, Option, List, Dict}
use gpu_infra.Json.{Json}

pub record Platform (F : Type 0) : Type 0 where
  -- `digest_json`
  pub digest : Json F → String
  -- the judge's directory, resolved against the task's
  pub resolve : String → String → String
  -- `path.parent`
  pub parent : String → String
  -- `str(value)`
  pub show : Json F → String

pub record ResourceSpec (F : Type 0) : Type 0 where
  pub mode : String
  pub gpu_count : ℕ
  pub estimate_s : Option F
  pub queue_timeout_s : Option F
  pub run_timeout_s : F
  pub allowed_gpu_ids : Option (List ℕ)

pub record StageSpec (F : Type 0) : Type 0 where
  pub id : String
  pub kind : String
  pub execution : String
  pub judge_identity : String
  pub cwd : String
  pub command : List String
  pub resources : Option (ResourceSpec F)
  pub service_deployment_id : Option String

pub record ComparisonSpec (F : Type 0) : Type 0 where
  pub primary_workloads : List String
  pub guardrails : Dict F
  pub relative_noise_floor : F

pub record TaskSpec (F : Type 0) : Type 0 where
  pub task_id : String
  pub description : String
  pub workloads : List String
  pub comparison : ComparisonSpec F
  pub stages : List (StageSpec F)
  pub raw : Json F
  pub digest : String
  pub source_path : String
