-- ===== src/Mirror.antt =====
-- Mirrors of repositories of other hubs, mirror/reposyncer.
pub mod Sync
pub mod Finished
pub mod Objects
pub mod Queue
mod Examples
