-- ===== src/Api.antt =====
-- The modules of api/ that name the server's routes: each function is the call of `request` that it
-- makes. A body that is handed on unread is a value; ids are natural numbers.
pub mod Docker
pub mod Projects
pub mod Access
pub mod Server
pub mod Routes
pub mod Tests
