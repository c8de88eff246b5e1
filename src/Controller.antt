-- ===== src/Controller.antt =====
-- internal/controller: the reconcilers of Backup and Restore.
mod Tests
pub mod Client
pub mod Action
pub mod Status
pub mod LastJob
pub mod Owned
pub mod Report
pub mod Backup
pub mod Restore
