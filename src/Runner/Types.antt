-- ===== src/Runner/Types.antt =====
-- The state of `RunManager` as one run sees it, and what the outside does while a stage is awaited,
-- src/kernel_infra/runner.py.
use gpu_infra.Prelude.{ℕ, ℤ, String, Bool, Option, List, Dict, Result}
use gpu_infra.Json.{Json}
use gpu_infra.Fault.{Fault}
use gpu_infra.Results.Types.{Outcome}
use gpu_infra.Store.Types.{Run, Times}

-- `asyncio.CancelledError`, which `except Exception` does not catch, and the other exceptions
pub data Raised : Type 0 where
  cancelled_error : Raised
  exception : Fault → Raised

-- `receipt.json`, less its times
pub record Receipt : Type 0 where
  pub run_id : String
  pub stage_id : String
  pub stage_kind : String
  pub execution : String
  pub judge_identity : String
  pub exit_code : ℤ
  pub broker_job_id : Option String
  pub gpu_ids : List ℕ
  pub judge_result_valid : Bool
  pub error : Option String

-- The store, how often the clock was read, the local slots that this run holds, the receipts, and
-- the manager's tables: the runs with a task, why a run is to stop, and the runs whose event is set.
pub record World (F : Type 0) : Type 0 where
  pub store : Dict (Run F)
  pub ticks : ℕ
  pub held : ℕ
  pub receipts : List Receipt
  pub tasks : List String
  pub stop_reasons : Dict Outcome
  pub done : List String

-- What a stage meets: the result of each call into the system and of each `await`, the lines of
-- stderr that were pumped before the process was gone or the run cancelled, and the judge's file. A
-- cancellation while the process or the pumps are awaited is in `exit`.
pub record Script (F : Type 0) : Type 0 where
  pub mkdir : Result Fault (Unit {0})
  pub slot : Result Raised (Unit {0})
  pub pipe : Result Fault (Unit {0})
  pub spawn : List String → Result Raised (Unit {0})
  pub lines : List String
  pub exit : Result Raised ℤ
  pub report : Result Fault (Json F)

-- What the interruption of a run's process meets: whether a process is registered that has not
-- exited, what each signal to its group did (`false` where there was no such process), and how each
-- wait ended (`false` where the time was over).
pub record Interruption : Type 0 where
  pub is_alive : Bool
  pub interrupt : Result Fault Bool
  pub first_wait : Result Raised Bool
  pub terminate : Result Fault Bool
  pub second_wait : Result Raised Bool
  pub kill : Result Fault Bool
  pub last_wait : Result Raised (Unit {0})

-- The parts of the standard library that the runner calls.
pub record Python (F : Type 0) : Type 0 where
  -- what `utc_now` returns, by the number of the reading
  pub clock : ℕ → Times
  -- the group of `_ACCEPTED.search(line)`, the test for a queued line, the group of `_GPU_IDS`
  pub accepted_job : String → Option String
  pub is_queued : String → Bool
  pub gpu_ids_group : String → Option String
  -- `str(x)` of a float, an int and an exit code, `f"{type(exc).__name__}: {exc}"`, and `text[:n]`
  pub show_float : F → String
  pub show_int : ℕ → String
  pub show_exit : ℤ → String
  pub show_fault : Fault → String
  pub prefix : ℕ → String → String

-- The fields of `RunManager` that do not change, and the text of a run's directory.
pub record Manager (F : Type 0) : Type 0 where
  pub python : Python F
  pub gpu_run : String
  pub broker_socket : String
  pub run_path : String → String
