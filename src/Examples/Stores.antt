-- ===== src/Examples/Stores.antt =====
-- The store and the runner from an empty store on.
use gpu_infra.Prelude.{
  ℕ, Bool, ◌≡◌, ◌==◌, leb, if◌then◌else◌, refl, String, true, false, none, some, List, [], ◌∷◌,
  Dict, ok, err, Result, ◌⊎◌, filter_by, All, get, put, mem_ℕ, pos,
}
use gpu_infra.Results.Types.{cancelled}
use gpu_infra.Store.Types.{
  State, Request, Run, Times, Change, is_terminal, set_state, set_broker_job_id, set_gpu_ids,
  running,
}
use gpu_infra.Store.Ops.{
  create_run, is_run_id, first_state, request_of, write_state, update_state, read_run, read_state,
  apply_changes, stamp, is_stamped, recover_interrupted, list_states,
}
use gpu_infra.Store.Update.{StoreOk, update_state-StoreOk, update_state-read}
use gpu_infra.Store.Create.{Created, create_run-Created}
use gpu_infra.Store.Recovery.{
  Recovered, recover_interrupted-Recovered, recover_interrupted-terminal,
}
use gpu_infra.Runner.Types.{World, Script, Interruption, Python, Manager, cancelled_error}
use gpu_infra.Runner.Execute.{run, run_stages}
use gpu_infra.Runner.Order.{run_stages-InOrder}
use gpu_infra.Results.Verdict.{InOrder}
use gpu_infra.Runner.Manage.{recover_manager, is_unfinished}
use gpu_infra.Runner.Restart.{Refused, recover_manager-terminal}
use gpu_infra.Fault.{Fault}
use gpu_infra.Runner.Live.{Live}
use gpu_infra.Examples.Data.{whole_floats, gemm, check_report}

abbrev noon : Times
noon = record { updated = "12:00"; logged = "12:00" }

abbrev empty : Dict (Run ℕ)
empty = []

empty-StoreOk : StoreOk empty
empty-StoreOk = record { own_names = tt; runs_ok = tt }

abbrev pub first : State
first = first_state gemm "gemm-1" "candidate" "label" "12:00"

abbrev pub request_first : Request ℕ
request_first = request_of gemm "gemm-1" "candidate" "/candidate" "label" "12:00"

abbrev blank : Run ℕ
blank = record { request = some request_first; state = none; events = []; result = none }

abbrev created : Dict (Run ℕ)
created = put empty "gemm-1" (write_state blank "gemm-1" noon "accepted" first)

creates : create_run empty gemm "1" (ok "candidate") "/candidate" "label" noon ≡ ok (created, first)
unfolding create_run is_run_id mem_ℕ get
creates = refl

create_run-Created_example : Created empty (ok "candidate") (created, first)
create_run-Created_example =
    create_run-Created empty gemm "1" (ok "candidate") "/candidate" "label" noon (created, first)
      empty-StoreOk creates

created-StoreOk : StoreOk created
created-StoreOk =
    (create_run-Created empty gemm "1" (ok "candidate") "/candidate" "label" noon (created, first)
      empty-StoreOk creates).kept

abbrev started : List Change
started = set_state running ∷ set_broker_job_id (some "7") ∷ set_gpu_ids (0 ∷ []) ∷ []

abbrev pub busy : State
busy = stamp (apply_changes first started) "12:00"

abbrev busy_store : Dict (Run ℕ)
busy_store = put created "gemm-1" (
    write_state (write_state blank "gemm-1" noon "accepted" first) "gemm-1" noon "broker_started"
      busy)

updates : update_state created "gemm-1" noon "broker_started" started ≡ ok (busy_store, busy)
unfolding update_state read_state read_run is_run_id mem_ℕ get put write_state
updates = refl

update_state-StoreOk_example : StoreOk busy_store
update_state-StoreOk_example =
    update_state-StoreOk created "gemm-1" noon "broker_started" started busy_store busy refl
      created-StoreOk updates

update_state-read_example :
    (read_state busy_store "gemm-1" ≡ ok busy)
    × ((other : String) → ("gemm-1" == other) ≡ false → get busy_store other ≡ get created other)
    × ((old : State)
        → read_state created "gemm-1" ≡ ok old
        → is_stamped old.terminal_at ≡ true
        → busy.terminal_at ≡ old.terminal_at)
update_state-read_example =
    update_state-read created "gemm-1" noon "broker_started" started busy_store busy updates

abbrev clock : String → Times
clock run_id = noon

recover_interrupted-Recovered_example :
    (r : Dict (Run ℕ) × ℕ) × (recover_interrupted clock created ≡ ok r)
    × Recovered clock created (list_states created none) r
recover_interrupted-Recovered_example =
    recover_interrupted-Recovered clock created (λ k. refl) created-StoreOk

recovers : (r : Dict (Run ℕ) × ℕ) × (recover_interrupted clock created ≡ ok r)
recovers =
    let (r, e, _) = recover_interrupted-Recovered clock created (λ k. refl) created-StoreOk in
    (r, e)

recover_interrupted-terminal_example :
    All (λ s. is_terminal s.state ≡ true) (list_states recovers.0.0 none)
recover_interrupted-terminal_example =
    recover_interrupted-terminal clock created recovers.0.0 recovers.0.1 (λ k. refl) created-StoreOk
      recovers.1

-- A manager whose broker says nothing, and stages that are cancelled while they wait.
abbrev python : Python ℕ
python = record {
  clock = λ n. noon;
  accepted_job = λ line. none;
  is_queued = λ line. false;
  gpu_ids_group = λ line. none;
  show_float = λ x. "1";
  show_int = λ n. "1";
  show_exit = λ n. "1";
  show_fault = λ e. "error";
  prefix = λ n s. s;
}

abbrev pub manager : Manager ℕ
manager = record {
  python = python;
  gpu_run = "/gpu-run";
  broker_socket = "/socket";
  run_path = λ run_id. run_id;
}

abbrev pub scripts : ℕ → Script ℕ
scripts index = record {
  mkdir = ok tt;
  slot = ok tt;
  pipe = ok tt;
  spawn = λ command. ok tt;
  lines = [];
  exit = if leb 1 index then err cancelled_error else ok (pos 0);
  report = ok check_report;
}

-- A process that does not stop before it is killed.
abbrev pub killed : Interruption
killed = record {
  is_alive = true;
  interrupt = ok true;
  first_wait = ok false;
  terminate = ok true;
  second_wait = ok false;
  kill = ok true;
  last_wait = ok tt;
}

abbrev pub world : World ℕ
world = record {
  store = created;
  ticks = 0;
  held = 0;
  receipts = [];
  tasks = "gemm-1" ∷ [];
  stop_reasons = ("gemm-1", cancelled) ∷ [];
  done = [];
}

pub world-Live : Live "gemm-1" request_first world
unfolding put get is_run_id mem_ℕ write_state
world-Live = record {
  store_ok = created-StoreOk;
  valid = refl;
  run = write_state blank "gemm-1" noon "accepted" first;
  state = first;
  found = refl;
  read = refl;
  asked = refl;
}

run_stages-InOrder_example :
    InOrder gemm.stages
      (run_stages manager scripts "gemm-1" gemm "label" [] 0 gemm.stages world).1.0
run_stages-InOrder_example = run_stages-InOrder manager scripts "gemm-1" gemm "label" world

busy_store-StoreOk : StoreOk busy_store
busy_store-StoreOk =
    update_state-StoreOk created "gemm-1" noon "broker_started" started busy_store busy refl
      created-StoreOk updates

abbrev cancels : String → Result Fault Bool
cancels job = ok true

recover_manager-terminal_example :
    ((r : Dict (Run ℕ) × ℕ) × (recover_manager clock cancels busy_store ≡ ok r)
      × StoreOk r.0
      × All (λ s. is_terminal s.state ≡ true) (list_states r.0 none))
    ⊎ ((e : Fault) × (recover_manager clock cancels busy_store ≡ err e)
        × Refused cancels (filter_by is_unfinished (list_states busy_store none)) e)
recover_manager-terminal_example =
    recover_manager-terminal clock cancels (λ k. refl) busy_store busy_store-StoreOk
