-- ===== src/Schema.antt =====
-- internal/schema: the service schema, its identifiers and its partitions.
pub mod Identifier
pub mod ObjectName
pub mod Partition
pub mod Stamp
pub mod Maintain
pub mod Repair
