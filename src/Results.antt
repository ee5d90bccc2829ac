-- ===== src/Results.antt =====
-- src/kernel_infra/results.py: judge-owned stage results and the aggregate of a run. `Types` are the
-- documents, `Validate` reads one, `Aggregate` folds them, and the other children are the proofs.
pub mod Types
pub mod Validate
pub mod Aggregate
pub mod Verdict
pub mod Merged
pub mod Eligible
