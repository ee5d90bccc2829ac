-- ===== src/Fleet.antt =====
-- Routing to the hosts of a fleet, src/kernel_infra/fleet.py.
pub mod Types
pub mod Catalog
pub mod CatalogSound
pub mod Resolve
pub mod Locator
pub mod LocatorBack
pub mod Selection
pub mod Fits
pub mod Chosen
pub mod Found
pub mod Batch
pub mod Plan
pub mod Planned
pub mod Paths
pub mod PathsSafe
pub mod Manifest
pub mod ManifestSound
pub mod Artifacts
pub mod ArtifactsSound
