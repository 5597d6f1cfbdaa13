-- ===== src/Compose/Stable.antt =====
-- components/compose/serializer.ts: reading a written service and writing it again.
pub mod Fields
pub mod Lines
pub mod Maps
pub mod Groups
pub mod Limits
pub mod Whole
pub mod File
