-- ===== src/Resources/Labels.antt =====
-- internal/resources/labels.go
use karkive.Prelude.{String, StringMap, [], ◌∷◌, ◌==◌, if◌then◌else◌}
use karkive.Api.Backup.{Backup}
use karkive.Api.Restore.{Restore}
use karkive.Resources.Engine.{effective_engine}

abbrev pub label_app_name : String
label_app_name = "app.kubernetes.io/name"

abbrev pub label_app_instance : String
label_app_instance = "app.kubernetes.io/instance"

abbrev pub label_app_component : String
label_app_component = "app.kubernetes.io/component"

abbrev pub label_app_managed_by : String
label_app_managed_by = "app.kubernetes.io/managed-by"

abbrev pub label_app_part_of : String
label_app_part_of = "app.kubernetes.io/part-of"

abbrev pub label_backup_name : String
label_backup_name = "karkive.io/backup"

abbrev pub label_restore_name : String
label_restore_name = "karkive.io/restore"

abbrev pub label_engine : String
label_engine = "karkive.io/engine"

abbrev pub label_kind : String
label_kind = "karkive.io/kind"

abbrev pub label_runtime_role : String
label_runtime_role = "karkive.io/runtime-role"

abbrev pub managed_by : String
managed_by = "karkive"

abbrev pub part_of : String
part_of = "karkive"

abbrev pub kind_backup : String
kind_backup = "backup"

abbrev pub kind_restore : String
kind_restore = "restore"

unfoldable pub backup_labels : Backup → StringMap
backup_labels backup =
    let component =
      if backup.spec.component == "" then backup.meta.name else backup.spec.component in
    (label_app_name, backup.meta.name)
    ∷ (label_app_instance, backup.meta.name)
    ∷ (label_app_component, component)
    ∷ (label_app_managed_by, managed_by)
    ∷ (label_app_part_of, part_of)
    ∷ (label_backup_name, backup.meta.name)
    ∷ (label_engine, effective_engine backup.spec.engine)
    ∷ (label_kind, kind_backup)
    ∷ []

unfoldable pub restore_labels : Restore → StringMap
restore_labels restore =
    let component =
      if restore.spec.component == "" then restore.meta.name else restore.spec.component in
    (label_app_name, restore.meta.name)
    ∷ (label_app_instance, restore.meta.name)
    ∷ (label_app_component, component)
    ∷ (label_app_managed_by, managed_by)
    ∷ (label_app_part_of, part_of)
    ∷ (label_restore_name, restore.meta.name)
    ∷ (label_engine, effective_engine restore.spec.engine)
    ∷ (label_kind, kind_restore)
    ∷ []
