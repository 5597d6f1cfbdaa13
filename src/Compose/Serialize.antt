-- ===== src/Compose/Serialize.antt =====
-- components/compose/serializer.ts: `serializeService` and `serializeCompose`.
mod Object
mod Fields
mod Groups
mod Whole
unfoldable pub use Object.*
unfoldable pub use Fields.*
unfoldable pub use Groups.*
unfoldable pub use Whole.*
