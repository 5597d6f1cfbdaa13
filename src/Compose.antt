-- ===== src/Compose.antt =====
-- components/compose: the types of a Compose file, the short forms of ports and mounts, the
-- parser and the serializer.
pub mod Port
pub mod Mount
pub mod Service
pub mod Parse
pub mod Serialize
pub mod Stable
pub mod Reading
mod Tests
