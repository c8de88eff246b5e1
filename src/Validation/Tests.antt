-- ===== src/Validation/Tests.antt =====
-- The theorems on the checks at sample specs.
use karkive.Prelude.{◌≡◌, ◌↔◌, none}
use karkive.Validation.{validate_backup_spec, validate_restore_spec}
use karkive.Validation.Predicates.{IsBackupSpec, IsRestoreSpec}
use karkive.Validation.Laws.{validate_backup_spec_iff, validate_restore_spec_iff}
use karkive.Validation.Webhook.{
  create, update, Object, backup_review, restore_review, backup_review_iff, restore_review_iff,
  IsValidBackup, IsValidRestore,
}
use karkive.Samples.{external, backup_spec, restore_spec, backup, restore}

validate_backup_spec_iff_example :
    (validate_backup_spec external backup_spec ≡ none) ↔ IsBackupSpec external backup_spec
validate_backup_spec_iff_example = validate_backup_spec_iff external backup_spec

validate_restore_spec_iff_example :
    (validate_restore_spec external restore_spec ≡ none) ↔ IsRestoreSpec external restore_spec
validate_restore_spec_iff_example = validate_restore_spec_iff external restore_spec

backup_review_iff_example :
    (backup_review external (update (Object.restore restore) (Object.backup backup)) ≡ none)
    ↔ IsValidBackup external (Object.backup backup)
backup_review_iff_example =
    backup_review_iff external (update (Object.restore restore) (Object.backup backup))

restore_review_iff_example :
    (restore_review external (create (Object.restore restore)) ≡ none)
    ↔ IsValidRestore external (Object.restore restore)
restore_review_iff_example = restore_review_iff external (create (Object.restore restore))
