-- ===== src/Diagnostics.antt =====
-- Progress of runs against the live broker, src/kernel_infra/diagnostics.py.
pub mod Types
pub mod Read
pub mod Jobs
pub mod Classify
pub mod Broker
pub mod Report
pub mod Parts
pub mod Verdict
pub mod JobViews
pub mod Views
pub mod Fair
pub mod Counts
