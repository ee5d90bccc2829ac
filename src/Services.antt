-- ===== src/Services.antt =====
-- Managed evaluator services: the launch contract of src/kernel_infra/service_contracts.py and the
-- deployments of src/kernel_infra/service_store.py.
pub mod Spec
pub mod SpecSound
pub mod Deployments
pub mod Stamps
