-- ===== src/Validation/Webhook.antt =====
-- backup_webhook.go and restore_webhook.go: the admission validators.
use karkive.Prelude.{◌≡◌, refl, ◌↔◌, ◌⊎◌, inl, inr, String, Option, none, some}
use Prim.Native.String.{◌++◌}
use mathlib.Core.Path.{subst}
use karkive.Api.Backup.{Backup}
use karkive.Api.Restore.{Restore}
use karkive.Validation.{External, Check, validate_backup_spec, validate_restore_spec}
use karkive.Validation.Predicates.{IfSet, IsBackupSpec, IsRestoreSpec}
use karkive.Validation.Laws.{validate_backup_spec_iff, validate_restore_spec_iff}

-- runtime.Object: the value of an admission request, with the name of its Go type.
pub data Object : Type 0 where
  backup : Backup → Object
  restore : Restore → Object
  unknown : (type : String) → Object

-- fmt's %T
abbrev type_of : Object → String
type_of (backup b) = "*v1alpha1.Backup"
type_of (restore r) = "*v1alpha1.Restore"
type_of (unknown type) = type

-- asBackup; the result is the object or the error
as_backup : Object → Backup ⊎ String
as_backup (backup b) = inl b
as_backup o = inr ("expected Backup, got " ++ type_of o)

as_restore : Object → Restore ⊎ String
as_restore (restore r) = inl r
as_restore o = inr ("expected Restore, got " ++ type_of o)

-- The validators return the error alone: they never return a warning.
-- What an admission request does to an object.
pub data Request : Type 0 where
  create : Object → Request
  update : (old_obj new_obj : Object) → Request
  delete : Object → Request

-- The object that a request would leave in the cluster.
abbrev pub stored : Request → Option Object
stored (create o) = some o
stored (update o o') = some o'
stored (delete o) = none

module _ (ext : External) where
  backup_validate_create : Object → Check
  unfolding as_backup
  backup_validate_create obj = elim (as_backup obj) [
    | inl b ↦ validate_backup_spec ext b.spec
    | inr e ↦ some e
  ]

  backup_validate_update : Object → Object → Check
  unfolding as_backup
  backup_validate_update old_obj new_obj = elim (as_backup new_obj) [
    | inl b ↦ validate_backup_spec ext b.spec
    | inr e ↦ some e
  ]

  backup_validate_delete : Object → Check
  backup_validate_delete obj = none

  restore_validate_create : Object → Check
  unfolding as_restore
  restore_validate_create obj = elim (as_restore obj) [
    | inl r ↦ validate_restore_spec ext r.spec
    | inr e ↦ some e
  ]

  restore_validate_update : Object → Object → Check
  unfolding as_restore
  restore_validate_update old_obj new_obj = elim (as_restore new_obj) [
    | inl r ↦ validate_restore_spec ext r.spec
    | inr e ↦ some e
  ]

  restore_validate_delete : Object → Check
  restore_validate_delete obj = none

  pub backup_review : Request → Check
  unfolding backup_validate_create backup_validate_update backup_validate_delete
  backup_review (create o) = backup_validate_create o
  backup_review (update o o') = backup_validate_update o o'
  backup_review (delete o) = backup_validate_delete o

  pub restore_review : Request → Check
  unfolding restore_validate_create restore_validate_update restore_validate_delete
  restore_review (create o) = restore_validate_create o
  restore_review (update o o') = restore_validate_update o o'
  restore_review (delete o) = restore_validate_delete o

  -- A valid Backup, and a valid Restore.
  abbrev pub IsValidBackup : Object → Type 0
  IsValidBackup o = (b : Backup) × (o ≡ backup b) × IsBackupSpec ext b.spec

  abbrev pub IsValidRestore : Object → Type 0
  IsValidRestore o = (r : Restore) × (o ≡ restore r) × IsRestoreSpec ext r.spec

  backup_validate_create_iff : (o : Object) → (backup_validate_create o ≡ none) ↔ IsValidBackup o
  unfolding backup_validate_create
  backup_validate_create_iff (backup b) =
      let iff = validate_backup_spec_iff ext b.spec in
      (
        λ h. (b, refl, iff.0 h),
        λ t. let e : t.0 ≡ b = cc t.1 in iff.1 (subst (λ y. IsBackupSpec ext y.spec) e t.2),
      )
  backup_validate_create_iff (restore r) = ((λ h. cc), λ t. absurd (cc t.1))
  backup_validate_create_iff (unknown t) = ((λ h. cc), λ t. absurd (cc t.1))

  -- The Backup webhook lets a request through exactly if what it would store is a valid Backup: the
  -- object that an update replaces does not count, and a delete always passes.
  pub backup_review_iff : (q : Request) → (backup_review q ≡ none) ↔ IfSet IsValidBackup (stored q)
  unfolding backup_review backup_validate_create
  backup_review_iff (create o) = backup_validate_create_iff o
  backup_review_iff (update o o') = backup_validate_create_iff o'
  backup_review_iff (delete o) = (λ h. tt, λ h. refl)

  restore_validate_create_iff : (o : Object) → (restore_validate_create o ≡ none) ↔ IsValidRestore o
  unfolding restore_validate_create
  restore_validate_create_iff (backup b) = ((λ h. cc), λ t. absurd (cc t.1))
  restore_validate_create_iff (restore r) =
      let iff = validate_restore_spec_iff ext r.spec in
      (
        λ h. (r, refl, iff.0 h),
        λ t. let e : t.0 ≡ r = cc t.1 in iff.1 (subst (λ y. IsRestoreSpec ext y.spec) e t.2),
      )
  restore_validate_create_iff (unknown t) = ((λ h. cc), λ t. absurd (cc t.1))

  -- The Restore webhook lets a request through exactly if what it would store is a valid Restore.
  pub restore_review_iff :
      (q : Request) → (restore_review q ≡ none) ↔ IfSet IsValidRestore (stored q)
  unfolding restore_review restore_validate_create
  restore_review_iff (create o) = restore_validate_create_iff o
  restore_review_iff (update o o') = restore_validate_create_iff o'
  restore_review_iff (delete o) = (λ h. tt, λ h. refl)
