-- ===== src/Pages.antt =====
-- The pages of web/src/pages that decide something themselves.
pub mod Images
pub mod Files
pub mod Paths
pub mod Streams
pub mod Paging
pub mod Metrics
pub mod Containers
pub mod Forms
pub mod Tests
