-- ===== src/Resources/Names.antt =====
-- internal/resources/names.go
pub mod Distinct
use Prim.Native.String.{String, ◌++◌}
use karkive.Api.Backup.{Backup}
use karkive.Api.Restore.{Restore}

abbrev pub backup_name_prefix : String
backup_name_prefix = "karkive-backup-"

abbrev pub restore_name_prefix : String
restore_name_prefix = "karkive-restore-"

abbrev pub legacy_name_prefix : String
legacy_name_prefix = "karkive-"

unfoldable pub backup_owned_name : Backup → String
backup_owned_name backup = backup_name_prefix ++ backup.meta.name

unfoldable pub restore_owned_name : Restore → String
restore_owned_name restore = restore_name_prefix ++ restore.meta.name

unfoldable pub legacy_owned_name : String → String
legacy_owned_name cr_name = legacy_name_prefix ++ cr_name
