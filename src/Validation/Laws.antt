-- ===== src/Validation/Laws.antt =====
-- ValidateBackupSpec and ValidateRestoreSpec of api/v1alpha1/validation.go, and valid specs.
use karkive.Prelude.{
  ◌≡◌, ◌↔◌, inl, inr, false, not, Option, none, some, arith, eq_iff, ◌==◌, Bool-cases, refl,
}
use mathlib.Core.Path.{subst}
use karkive.Api.Common.{
  S3Spec, engine_pvc, engine_mariadb, engine_redis, enabled_or_default, SecretKeySelector,
}
use karkive.Api.Backup.{BackupSpec, PvcSourceSpec}
use karkive.Api.Restore.{RestoreSpec}
use karkive.Validation.{
  External, validate_source, validate_destination, validate_backup_spec, persistence_disabled,
  selector_missing, reject_if, validate_target_secret, validate_restore_spec, validate_pvc_source,
}
use karkive.Validation.Predicates.{
  IsSource, IsDestination, IsBackupSpec, IsNamed, IsPvcSource, IsTargetSecret, IsRestoreSpec,
  HasObjectStorage,
}
use karkive.Validation.Checks.{
  >>_iff, reject_if_ne_iff, reject_if_empty_iff, validate_schedule_iff, validate_job_policy_iff,
  validate_runtime_iff, validate_database_iff, validate_pvc_source_iff,
}

selector_missing_iff : (s : Option SecretKeySelector) → (selector_missing s ≡ false) ↔ IsNamed s
unfolding selector_missing
selector_missing_iff none = ground arith
selector_missing_iff (some s) = ground (arith, eq_iff s.name "")

validate_destination_iff :
    (spec : BackupSpec) → (validate_destination spec ≡ none) ↔ IsDestination spec
unfolding validate_destination enabled_or_default persistence_disabled
validate_destination_iff spec = ground (arith, eq_iff spec.s3.path "")

require_storage_iff :
    (s : S3Spec)
    → (reject_if
          (not (enabled_or_default s))
          "spec.s3.enabled cannot be false; restore from local retained dumps is not implemented"
        ≡ none)
      ↔ HasObjectStorage s.enabled
unfolding enabled_or_default
require_storage_iff s = ground arith

validate_target_secret_iff :
    (spec : RestoreSpec) → (validate_target_secret spec ≡ none) ↔ IsTargetSecret spec
unfolding validate_target_secret
validate_target_secret_iff spec = ground (
  arith,
  eq_iff spec.engine engine_mariadb,
  eq_iff spec.engine engine_redis,
  eq_iff engine_mariadb engine_redis,
  selector_missing_iff spec.mariadb_secret,
  selector_missing_iff spec.redis_secret,
  selector_missing_iff spec.postgres_secret,
)

module _ (ext : External) where
  validate_claim_iff :
      (pvc : Option PvcSourceSpec)
      → (validate_pvc_source ext pvc ≡ none)
        ↔ ((src : PvcSourceSpec) × (pvc ≡ some src) × IsPvcSource ext src)
  unfolding validate_pvc_source
  validate_claim_iff none = ((λ h. cc), λ h. absurd (cc h.1))
  validate_claim_iff (some src) =
      let iff = validate_pvc_source_iff ext src in
      (
        λ h. (src, refl, iff.0 h),
        λ t. let e : t.0 ≡ src = cc t.1 in iff.1 (subst (IsPvcSource ext) e t.2),
      )

  validate_source_iff : (spec : BackupSpec) → (validate_source ext spec ≡ none) ↔ IsSource ext spec
  unfolding validate_source
  validate_source_iff spec = elim (Bool-cases (spec.engine == engine_pvc)) [
    | inl e ↦ rw e (
      λ h. inl ((eq_iff _ _).0 e, (validate_claim_iff spec.pvc).0 h),
      λ v. elim v [
        | inl p ↦ (validate_claim_iff spec.pvc).1 p.1
        | inr d ↦ absurd (d.0 ((eq_iff _ _).0 e))
      ],
    )
    | inr e ↦ rw e (
      λ h. inr (grind (arith, eq_iff spec.engine engine_pvc, validate_database_iff spec.database)),
      λ v. grind (arith, eq_iff spec.engine engine_pvc, validate_database_iff spec.database),
    )
  ]

  -- ValidateBackupSpec returns nil exactly for the valid specs.
  pub validate_backup_spec_iff :
      (spec : BackupSpec) → (validate_backup_spec ext spec ≡ none) ↔ IsBackupSpec ext spec
  unfolding validate_backup_spec
  validate_backup_spec_iff spec =
      let iff = >>_iff _ _ (validate_schedule_iff ext spec.schedule) (
        >>_iff _ _ (validate_source_iff spec) (
          >>_iff _ _ (validate_destination_iff spec) (
            >>_iff _ _ (reject_if_empty_iff spec.secret_ref.name "spec.secretRef.name is required")
              (>>_iff _ _ (validate_job_policy_iff spec.job)
                (validate_runtime_iff ext spec.runtime spec.persistence))))) in
      (
        λ h.
            let (schedule, (source, (destination, (secret, (job, runtime))))) = iff.0 h in
            record {
              schedule = schedule;
              source = source;
              destination = destination;
              secret = secret;
              job = job;
              runtime = runtime;
            },
        λ v. iff.1 (v.schedule, (v.source, (v.destination, (v.secret, (v.job, v.runtime))))),
      )

  -- ValidateRestoreSpec returns nil exactly for the valid specs.
  pub validate_restore_spec_iff :
      (spec : RestoreSpec) → (validate_restore_spec ext spec ≡ none) ↔ IsRestoreSpec ext spec
  unfolding validate_restore_spec
  validate_restore_spec_iff spec =
      let iff = >>_iff _ _ (validate_schedule_iff ext spec.schedule) (
        >>_iff _ _
          (reject_if_ne_iff spec.engine engine_pvc
            "engine pvc is backup-only; restore a PVC archive manually (gpg --decrypt | tar -x)")
          (>>_iff _ _ (validate_database_iff spec.database) (
            >>_iff _ _ (require_storage_iff spec.s3) (
              >>_iff _ _ (reject_if_empty_iff spec.s3.path "spec.s3.path is required") (
                >>_iff _ _
                  (reject_if_empty_iff spec.secret_ref.name "spec.secretRef.name is required")
                  (>>_iff _ _ (validate_target_secret_iff spec) (
                    >>_iff _ _ (validate_job_policy_iff spec.job)
                      (validate_runtime_iff ext spec.runtime spec.persistence)))))))) in
      (
        λ h.
            let (
              schedule,
              (engine, (database, (storage, (path, (secret, (target, (job, runtime))))))),
            ) =
              iff.0 h in
            record {
              schedule = schedule;
              engine = engine;
              database = database;
              storage = storage;
              path = path;
              secret = secret;
              target = target;
              job = job;
              runtime = runtime;
            },
        λ v. iff.1 (
          v.schedule,
          (
            v.engine,
            (v.database, (v.storage, (v.path, (v.secret, (v.target, (v.job, v.runtime)))))),
          ),
        ),
      )
