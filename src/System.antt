-- ===== src/System.antt =====
-- Both servers as one system over one database: every handler and every call of the background
-- code as one step, in any order.
pub mod Actions
pub mod Queries
pub mod WebQueries
pub mod Syncing
pub mod Handlers
pub mod Enrolling
pub mod WebHandlers
pub mod Growth
pub mod Uses
pub mod History
pub mod Calls
