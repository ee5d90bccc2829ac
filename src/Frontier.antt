-- ===== src/Frontier.antt =====
-- src/kernel_infra/frontier.py: the per-workload frontier, rebuilt from the results of a task's runs.
-- `Reduce` is the loop of `rebuild_frontier`; the other children are the proofs.
pub mod Reduce
pub mod Total
pub mod Cells
pub mod Steps
pub mod Owned
pub mod Aggregated
pub mod Candidates
