-- ===== src/Runner/Interrupt.antt =====
-- `_interrupt_process` of src/kernel_infra/runner.py, over what its signals and waits meet.
use gpu_infra.Prelude.{Bool, Result, ok, err, if◌then◌else◌, not, ◌>>=◌}
use gpu_infra.Fault.{Fault}
use gpu_infra.Runner.Types.{Raised, exception, Interruption}

-- `os.killpg`, whose `ProcessLookupError` is caught
unfoldable pub signal : Result Fault Bool → Result Raised Bool
signal (ok found) = ok found
signal (err e) = err (exception e)

unfoldable pub interrupt_process : Interruption → Result Raised (Unit {0})
interrupt_process met = if not met.is_alive then ok tt else do
  found ← signal met.interrupt
  if not found then ok tt else do
    exited ← met.first_wait
    if exited then ok tt else do
      found ← signal met.terminate
      if not found then ok tt else do
        exited ← met.second_wait
        if exited
            then ok tt
            else do found ← signal met.kill; if not found then ok tt else met.last_wait
