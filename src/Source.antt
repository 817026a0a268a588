-- ===== src/Source.antt =====
-- internal/source: the event source over the queue tables.
pub mod Qualified
pub mod StorableText
pub mod Store
pub mod Transition
pub mod Literal
pub mod Generate
pub mod Claim
pub mod Sweep
