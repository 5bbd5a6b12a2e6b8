-- ===== src/Sync.antt =====
-- sync-engine/internal/sync: the change tracker, the sync manager, the WAL reader and service.
pub mod Tracker
pub mod Manager
pub mod Feed
pub mod WalReader
pub mod WalService
