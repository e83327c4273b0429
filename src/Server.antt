-- ===== src/Server.antt =====
-- fs_api: who may see what. The handlers' replies are values, and the database's tables lists.
pub mod Paths
pub mod Access
pub mod Grants
pub mod Identity
pub mod Rules
pub mod Resolve
pub mod Query
pub mod Search
pub mod Login
pub mod Claims
pub mod Sessions
pub mod Requests
mod Tests
