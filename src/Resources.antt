-- ===== src/Resources.antt =====
-- internal/resources: what a Backup or a Restore owns in the cluster, computed from its spec.
mod Tests
pub mod Config
pub mod Names
pub mod Engine
pub mod Labels
pub mod Runtime
pub mod Images
pub mod Requirements
pub mod Defaults
pub mod Security
pub mod PvcSource
pub mod ConfigMap
pub mod Pipeline
pub mod Container
pub mod BackupCronJob
pub mod RestoreCronJob
pub mod Holder
pub mod Pvc
pub mod Wiring
