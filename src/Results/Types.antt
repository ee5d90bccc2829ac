-- ===== src/Results/Types.antt =====
-- The documents of src/kernel_infra/results.py. A validated JSON object is a record whose fields are
-- the allowed keys; a key that may be missing is an option. The texts of an enumeration, which the
-- validation admits alone, are constructors.
use gpu_infra.Prelude.{String, Bool, Option, List, Dict}
use gpu_infra.Json.{Json, Number}

-- `STATUSES` and `VALIDITIES`
pub data Status : Type 0 where
  passed failed : Status

pub data Validity : Type 0 where
  valid invalid unknown : Validity

-- one element of `workloads`
pub record Row (F : Type 0) : Type 0 where
  pub id : String
  pub correct : Option Bool
  pub candidate_ms : Option (Number F)
  pub baseline_ms : Option (Number F)
  pub candidate_samples_ms : Option (List (Number F))
  pub baseline_samples_ms : Option (List (Number F))
  pub stable : Option Bool
  pub speedup : Option (Number F)
  pub notes : Option String

pub record StageResult (F : Type 0) : Type 0 where
  pub status : Status
  pub validity : Validity
  pub summary : Option String
  pub workloads : List (Row F)
  pub artifacts : Option (Dict (Json F))
  pub fingerprints : Option (Dict (Json F))
  pub metrics : Option (Dict (Json F))

-- one element of `stage_results`, the triple of `_run`
pub record StageEntry (F : Type 0) : Type 0 where
  pub stage_id : String
  pub stage_kind : String
  pub result : StageResult F

-- the terminal lifecycle states that `aggregate_run_result` and `_run` assign
pub data Outcome : Type 0 where
  completed rejected infra_error cancelled interrupted : Outcome

pub record StageSummary : Type 0 where
  pub id : String
  pub kind : String
  pub status : Status
  pub validity : Validity
  pub summary : String

pub record RunResult (F : Type 0) : Type 0 where
  pub run_id : String
  pub task_id : String
  pub task_sha256 : String
  pub candidate_sha256 : String
  pub outcome : Outcome
  pub validity : Validity
  pub frontier_eligible : Bool
  pub terminal_reason : Option String
  pub stages : List StageSummary
  pub workloads : List (Row F)
  pub fingerprints : Dict (Json F)
  pub metrics : Dict (Dict (Json F))
