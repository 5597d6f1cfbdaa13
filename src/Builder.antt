-- ===== src/Builder.antt =====
-- The edits of components/compose/ComposeBuilder.tsx on a Compose file, and what they keep.
pub mod Used
pub mod Keys
pub mod Services
pub mod Panels
pub mod Image
pub mod Sections
mod Tests
