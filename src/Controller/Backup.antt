-- ===== src/Controller/Backup.antt =====
-- internal/controller/backup_controller.go
pub mod Status
pub mod Inputs
pub mod Reconcile
pub mod Ready
pub mod Guards
pub mod Synced
pub mod Reported
pub mod Holder
pub mod Secrets
pub mod Table
pub mod Unready
pub mod Grows
pub mod Converged
