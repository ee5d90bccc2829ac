-- ===== src/Runner.antt =====
-- The run manager, src/kernel_infra/runner.py: `Types`, `Act` and `Command` are its data, `Stage`, `Interrupt` and
-- `Execute` the coroutines of a run, and the other children the proofs.
pub mod Types
pub mod Act
pub mod Command
pub mod Stage
pub mod Interrupt
pub mod Execute
pub mod Live
pub mod Reports
pub mod Closes
pub mod Ends
pub mod Order
pub mod Calm
pub mod Slots
pub mod Returned
pub mod Leak
pub mod Manage
pub mod Restart
