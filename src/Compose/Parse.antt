-- ===== src/Compose/Parse.antt =====
-- components/compose/serializer.ts: `parseService`, from the fields of the document's object.
mod Fields
mod Maps
mod Groups
mod Whole
unfoldable pub use Fields.*
unfoldable pub use Maps.*
unfoldable pub use Groups.*
unfoldable pub use Whole.*
