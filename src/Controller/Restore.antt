-- ===== src/Controller/Restore.antt =====
-- internal/controller/restore_controller.go
pub mod Status
pub mod Steady
pub mod Converged
pub mod Reported
pub mod Inputs
pub mod Reconcile
pub mod Ready
pub mod Guards
pub mod Holder
pub mod Secrets
pub mod Table
pub mod Synced
pub mod Unready
pub mod Grows
