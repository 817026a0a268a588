-- ===== src/Reconcile.antt =====
-- internal/reconcile: what is to be done so that the triggers of the database match the configuration.
pub mod Marker
pub mod Ownership
pub mod Plan
pub mod Classify
pub mod Diff
pub mod DdlText
pub mod Apply
pub mod Registry
pub mod RunLock
pub mod Target
