-- ===== src/WebApi.antt =====
-- web-api: the second server, over the same database as the sync engine. A JSON object with an
-- "error" stands as a `failure` with its status.
pub mod Config
pub mod Queries
pub mod Handlers
pub mod Routes
pub mod Login
pub mod Posting
pub mod Listing
pub mod Delivery
