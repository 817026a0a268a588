-- ===== src/Delivery.antt =====
-- internal/delivery: the worker that takes claimed events to their listeners.
pub mod Duration
pub mod Classify
pub mod Policy
pub mod Semaphore
pub mod Worker
pub mod Dispatch
pub mod Hold
pub mod RunOnce
pub mod RetryAfter
pub mod Record
pub mod Wakeup
pub mod Drain
pub mod Signing
pub mod Destination
