-- ===== src/Project.antt =====
-- The editor of a project: pages/ProjectDetail.tsx and pages/ProjectEditor.tsx.
pub mod Save
pub mod Deployment
pub mod Variables
pub mod Secrets
mod Tests
