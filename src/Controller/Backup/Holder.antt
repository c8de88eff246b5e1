-- ===== src/Controller/Backup/Holder.antt =====
-- The volume holder of a Backup, as internal/controller/backup_controller.go builds it for ensureOwned.
use karkive.Api.Backup.{Backup}
