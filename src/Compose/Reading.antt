-- ===== src/Compose/Reading.antt =====
-- components/compose/serializer.ts: what the parser reads, and what the serializer does with it.
pub mod Pairs
pub mod Throws
pub mod Short
pub mod Loss
