-- ===== src/Validation.antt =====
-- api/v1alpha1/validation.go: the checks of a spec that need no cluster, and what calls them at
-- admission (backup_webhook.go, restore_webhook.go).
pub mod Predicates
pub mod Checks
pub mod Laws
pub mod Webhook
mod Tests
use karkive.Prelude.{
  ℕ, String, Bool, true, false, not, ◌&&◌, ◌||◌, Option, none, some, List, [], ◌∷◌, ◌==◌,
  starts_with, contains, split_slash, has_newline, trim_space, is_nil, if◌then◌else◌,
}
use Prim.Native.String.{◌++◌}
use karkive.Kube.Meta.{LabelSelector}
use karkive.Api.Common.{
  Engine, engine_pvc, engine_mariadb, engine_redis, S3Spec, enabled_or_default, PersistenceSpec,
  DatabaseSpec, RuntimeSpec, effective_mode, mode_cron_job, mode_cron_job_with_volume_holder,
  mode_persistent_pod_with_trigger_job, mode_persistent_pod_with_in_pod_cron, JobPolicy,
  SecretKeySelector,
}
use karkive.Api.Backup.{PvcSourceSpec, BackupSpec}
use karkive.Api.Restore.{RestoreSpec}

-- What the checks call outside the repository: `cron.ParseStandard` and
-- `metav1.LabelSelectorAsSelector`, each with the text of its error, and the verb %q of `fmt`.
pub record External : Type 0 where
  pub parse_standard : String → Option String
  pub label_selector_as_selector : LabelSelector → Option String
  pub quote : String → String

-- The result of a check: `none` is the nil error.
abbrev pub Check : Type 0
Check = Option String

infixl 5 ◌>>◌
abbrev pub ◌>>◌ : Check → Check → Check
none >> k = k
some e >> k = some e

-- if test { return fmt.Errorf(message) }
abbrev pub reject_if : Bool → String → Check
reject_if true message = some message
reject_if false message = none

-- if err != nil { return fmt.Errorf("…: %w", err) }
abbrev pub wrap : String → Check → Check
wrap text none = none
wrap text (some e) = some (text ++ e)

-- for _, x := range xs { if err := check(x) … }
module _ {ℓ} {A : Type ℓ} where
  unfoldable pub each : (A → Check) → List A → Check
  each check [] = none
  each check (x ∷ xs) = do check x; each check xs

unfoldable pub persistence_enabled : Option PersistenceSpec → Bool
persistence_enabled none = true
persistence_enabled (some p) = elim p.enabled [ none ↦ true | some b ↦ b ]

unfoldable pub validate_job_policy : Option JobPolicy → Check
validate_job_policy none = none
validate_job_policy (some job) = do
  reject_if (not (contains ("" ∷ "Allow" ∷ "Forbid" ∷ "Replace" ∷ []) job.concurrency_policy))
      "spec.job.concurrencyPolicy must be Allow, Forbid, or Replace"
  reject_if (not (contains ("" ∷ "Always" ∷ "OnFailure" ∷ "Never" ∷ []) job.restart_policy))
      "spec.job.restartPolicy must be Always, OnFailure, or Never"

unfoldable pub validate_exclude : String → Check
validate_exclude e =
    reject_if (trim_space e == "" || has_newline e)
      "spec.pvc.excludes entries must be non-empty single-line patterns"

unfoldable pub validate_path : String → Check
validate_path p = if p == "" then none else do
  reject_if (starts_with p "/" || contains (split_slash p) "..")
      "spec.pvc.path must be relative to the claim root without .. segments"
  reject_if (has_newline p) "spec.pvc.path must not contain newlines"

-- spec.database.host and spec.database.name
unfoldable pub validate_database : DatabaseSpec → Check
validate_database db = do
  reject_if (db.host == "") "spec.database.host is required"
  reject_if (db.name == "") "spec.database.name is required"

-- spec.Persistence != nil && spec.Persistence.Enabled != nil && !*spec.Persistence.Enabled
unfoldable pub persistence_disabled : Option PersistenceSpec → Bool
persistence_disabled none = false
persistence_disabled (some p) = elim p.enabled [ none ↦ false | some b ↦ not b ]

-- The branch of ValidateBackupSpec on spec.s3.enabled.
unfoldable pub validate_destination : BackupSpec → Check
validate_destination spec =
    if enabled_or_default spec.s3
    then reject_if (spec.s3.path == "") "spec.s3.path is required"
    else reject_if (persistence_disabled spec.persistence)
        "spec.persistence.enabled must be true when spec.s3.enabled is false (dumps stay in retained/ on the PVC)"

-- s == nil || s.Name == ""
unfoldable pub selector_missing : Option SecretKeySelector → Bool
selector_missing none = true
selector_missing (some s) = s.name == ""

-- The switch of ValidateRestoreSpec on the engine.
unfoldable pub validate_target_secret : RestoreSpec → Check
validate_target_secret spec =
    if spec.engine == engine_mariadb
    then reject_if (selector_missing spec.mariadb_secret) "spec.mariadbSecret.name is required"
    else if spec.engine == engine_redis
    then reject_if (selector_missing spec.redis_secret) "spec.redisSecret.name is required"
    else reject_if (selector_missing spec.postgres_secret) "spec.postgresSecret.name is required"

module _ (ext : External) where
  unfoldable pub validate_schedule : String → Check
  validate_schedule schedule = do
    reject_if (trim_space schedule == "") "spec.schedule is required"
    wrap "spec.schedule is not a valid cron expression: " (ext.parse_standard schedule)

  unfoldable pub validate_selector : Option LabelSelector → Check
  validate_selector none = none
  validate_selector (some sel) = do
    reject_if (is_nil sel.match_labels && is_nil sel.match_expressions)
        "spec.pvc.consumerSelector must set matchLabels or matchExpressions (empty matches every pod)"
    wrap "spec.pvc.consumerSelector is invalid: " (ext.label_selector_as_selector sel)

  unfoldable pub validate_pvc_source : Option PvcSourceSpec → Check
  validate_pvc_source none = some "spec.pvc.claimName is required for engine pvc"
  validate_pvc_source (some src) = do
    reject_if (src.claim_name == "") "spec.pvc.claimName is required for engine pvc"
    validate_path src.path
    each validate_exclude src.excludes
    validate_selector src.consumer_selector

  unfoldable pub validate_runtime : Option RuntimeSpec → Option PersistenceSpec → Check
  validate_runtime runtime persistence =
      let mode = effective_mode runtime in
      if mode == mode_cron_job
      then none
      else if mode == mode_cron_job_with_volume_holder
      then reject_if (not (persistence_enabled persistence))
          "spec.runtime.mode CronJobWithVolumeHolder requires spec.persistence.enabled"
      else if mode == mode_persistent_pod_with_trigger_job
      then some "spec.runtime.mode PersistentPodWithTriggerJob is not implemented"
      else if mode == mode_persistent_pod_with_in_pod_cron
      then some "spec.runtime.mode PersistentPodWithInPodCron is not implemented"
      else some ("spec.runtime.mode " ++ ext.quote mode ++ " is invalid")

  -- The branch of ValidateBackupSpec on the engine.
  unfoldable pub validate_source : BackupSpec → Check
  validate_source spec =
      if spec.engine == engine_pvc then validate_pvc_source spec.pvc else elim spec.pvc [
        | some src ↦ some "spec.pvc is only valid with engine pvc"
        | none ↦ validate_database spec.database
      ]

  unfoldable pub validate_backup_spec : BackupSpec → Check
  validate_backup_spec spec = do
    validate_schedule spec.schedule
    validate_source spec
    validate_destination spec
    reject_if (spec.secret_ref.name == "") "spec.secretRef.name is required"
    validate_job_policy spec.job
    validate_runtime spec.runtime spec.persistence

  unfoldable pub validate_restore_spec : RestoreSpec → Check
  validate_restore_spec spec = do
    validate_schedule spec.schedule
    reject_if (spec.engine == engine_pvc)
        "engine pvc is backup-only; restore a PVC archive manually (gpg --decrypt | tar -x)"
    validate_database spec.database
    reject_if (not (enabled_or_default spec.s3))
        "spec.s3.enabled cannot be false; restore from local retained dumps is not implemented"
    reject_if (spec.s3.path == "") "spec.s3.path is required"
    reject_if (spec.secret_ref.name == "") "spec.secretRef.name is required"
    validate_target_secret spec
    validate_job_policy spec.job
    validate_runtime spec.runtime spec.persistence
