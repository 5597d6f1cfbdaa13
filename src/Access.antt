-- ===== src/Access.antt =====
-- Who may do what: the drafts of permissions of pages/Roles.tsx and pages/Users.tsx, and the session
-- of store/auth.ts.
pub mod Drafts
pub mod Dialogs
pub mod Session
mod Tests
