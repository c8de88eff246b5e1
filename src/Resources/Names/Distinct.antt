-- ===== src/Resources/Names/Distinct.antt =====
-- When names of owned objects are equal: internal/resources/names.go.
use Prim.Native.String.{count}
use text.Mathlib.TextLemmas.{append_inj, append_cancel_left, length-append, append_assoc}
use mathlib.Core.Path.{ap}
use karkive.Prelude.{◌≡◌, refl, ◌≢◌, arith, eq_iff, sym, ◌∙◌}
use karkive.Api.Backup.{Backup}
use karkive.Api.Restore.{Restore}
use karkive.Resources.Names.{
  backup_owned_name, restore_owned_name, legacy_owned_name, backup_name_prefix, legacy_name_prefix,
}

-- No Backup and Restore own objects of the same name, whatever their own names are.
backup-ne-restore_owned_name :
    (backup : Backup) (restore : Restore) → backup_owned_name backup ≢ restore_owned_name restore
unfolding backup_owned_name restore_owned_name
backup-ne-restore_owned_name backup restore e =
    let (heads, _) =
      append_inj
        (sym (append_assoc "karkive-b" "ackup-" backup.meta.name)
          ∙ e
          ∙ append_assoc "karkive-r" "estore-" restore.meta.name)
        refl in
    ground (arith, eq_iff "karkive-b" "karkive-r", heads)

-- Two Backups whose owned objects have the same name have the same name themselves.
backup_owned_name_injective :
    (a b : Backup) → backup_owned_name a ≡ backup_owned_name b → a.meta.name ≡ b.meta.name
unfolding backup_owned_name
backup_owned_name_injective a b e = append_cancel_left backup_name_prefix a.meta.name b.meta.name e

-- The legacy name of a Backup is never the name of its present objects, so the early return of
-- deleteLegacyOwned is not taken for a Backup.
legacy-ne-backup_owned_name :
    (backup : Backup) → legacy_owned_name backup.meta.name ≢ backup_owned_name backup
unfolding legacy_owned_name backup_owned_name
legacy-ne-backup_owned_name backup e =
    let lengths = ap count e in
    omega (
      arith,
      lengths,
      length-append legacy_name_prefix backup.meta.name,
      length-append backup_name_prefix backup.meta.name,
    )
