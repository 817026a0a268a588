-- ===== src/Tests.antt =====
-- The theorems at concrete inputs, and runs of the model.
mod Settling
mod Claiming
mod Retrying
mod Names
mod When
mod Configured
mod Locking
mod Maintaining
mod Generation
mod Worker
mod Wakes
mod Signing
mod Plans
mod Applying
mod Registering
mod Repairing
mod Guarding
mod Targeting
