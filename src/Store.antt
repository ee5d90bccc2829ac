-- ===== src/Store.antt =====
-- The run store, src/kernel_infra/store.py.
pub mod Types
pub mod Ops
pub mod Update
pub mod Create
pub mod Listing
pub mod Recovery
