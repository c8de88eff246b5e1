-- ===== src/Controller/Tests/Admitted.antt =====
-- The sample Backup passes every check of the sample cluster.
use mathlib.Core.Bool.{false≢true}
use karkive.Prelude.{trim_space, insert, insert_all, contains, ℕ, ◌≡◌, refl, true, []}
use karkive.Errors.{ok}
use karkive.Errors.{is_not_found}
use karkive.Api.Common.{enabled_or_default, effective_mode}
use karkive.Resources.Defaults as Defaults
use karkive.Resources.Defaults.{s3_endpoint, s3_bucket}
use karkive.Resources.Images.{first_non_empty}
use karkive.Resources.Engine.{effective_engine, engine_implemented}
use karkive.Resources.PvcSource.{is_pvc_backup, pvc_consumer_affinity_terms, pvc_source_volume}
use karkive.Resources.Labels.{backup_labels}
use karkive.Resources.Requirements.{backup_stage_resources}
use karkive.Resources.Names.{legacy_owned_name, backup_owned_name}
use karkive.Resources.Runtime.{needs_volume_holder, volume_holder_name}
use karkive.Resources.ConfigMap.{
  mutate_backup_config_map, check_bucket, backup_entries, backup_s3_entries, backup_engine_entries,
}
use karkive.Api.Backup.{Backup, BackupStatus}
use karkive.Kube.Objects.{CronJob}
use karkive.Validation.{
  validate_backup_spec, validate_schedule, validate_source, validate_destination,
  validate_job_policy, validate_runtime, validate_database, persistence_enabled,
}
use karkive.Validation.Predicates.{IsBackupSpec}
use karkive.Validation.Laws.{validate_backup_spec_iff}
use karkive.Resources.BackupCronJob.{mutate_backup_cron_job}
use karkive.Controller.Client.{ObjectKey}
use karkive.Controller.Action.{Machine, try}
use karkive.Controller.Owned.{
  ensure_owned, ensure_config_map, ensure_claim, ensure_volume_holder, ensure_cron_job, with_reason,
  owned_config_map, owned_claim, owned_deployment, owned_cron_job, delete_legacy_owned,
  delete_if_controller, ignore_not_found, volume_holder_available,
}
use karkive.Controller.Report.{Reconciler}
use karkive.Controller.Backup.Inputs.{ensure_secret, check_secret_keys, require_keys}
use karkive.Controller.Backup.Reconcile.{owned_resources, reconcile_request}
use karkive.Controller.Backup.Reported.{reconcile-ReportsReady, ReportsReady}
use karkive.Controller.Backup.Ready.{Wrote, IsAdmitted, Applied, HolderAvailable}
use karkive.Controller.Backup.Synced.{after_writes}
use karkive.Controller.Tests.Conditions.{status_ops}
use karkive.Samples.{external, quantities, scripts, config, client, backup, cron_job, deployment}

abbrev pub reconciler : Reconciler ℕ
reconciler = record {
  client = client;
  external = external;
  ops = status_ops;
  quantities = quantities;
  scripts = scripts;
  config = config;
  has_recorder = true;
}

abbrev pub start : Machine ℕ
start = record { world = 0; calls = [] }

abbrev pub key : ObjectKey
key = record { namespace = "db"; name = "app" }

backup-IsBackupSpec : IsBackupSpec external backup.spec
unfolding validate_backup_spec validate_schedule trim_space validate_source validate_database
    validate_destination enabled_or_default validate_job_policy validate_runtime effective_mode
    persistence_enabled
backup-IsBackupSpec = (validate_backup_spec_iff external backup.spec).0 refl

abbrev pub synced_cron_job : CronJob
synced_cron_job =
    mutate_backup_cron_job scripts quantities (cron_job "karkive-backup-app") backup config

-- The sample Backup with any status, and the cluster that holds it.
module _ (status : BackupStatus) where
  abbrev pub stored : Backup
  stored = record backup { status = status }

  abbrev pub reporting : Reconciler ℕ
  reporting = record reconciler { client = record client { get_backup = λ k w. ok stored } }

  -- The machine after ensureOwned and after the removal of the legacy objects.
  abbrev after_apply : Machine ℕ
  after_apply =
      (ensure_owned reporting.client quantities (owned_resources reporting stored) start).1

  ensure_owned-backup :
      (ensure_owned reporting.client quantities (owned_resources reporting stored) start).0
      ≡ ok synced_cron_job
  unfolding ensure_owned ensure_config_map ensure_claim ensure_volume_holder ensure_cron_job
      with_reason try owned_resources owned_config_map owned_claim owned_deployment owned_cron_job
      mutate_backup_config_map check_bucket backup_entries backup_s3_entries backup_engine_entries
      insert insert_all s3_endpoint s3_bucket first_non_empty enabled_or_default needs_volume_holder
      effective_mode effective_engine Defaults.persistence_enabled backup_owned_name
      mutate_backup_cron_job backup_labels pvc_consumer_affinity_terms backup_stage_resources
      is_pvc_backup pvc_source_volume
  ensure_owned-backup = refl

  delete_legacy_owned-backup :
      (delete_legacy_owned reporting.client stored.meta (backup_owned_name stored) after_apply).0
      ≡ ok tt
  unfolding delete_legacy_owned delete_if_controller legacy_owned_name backup_owned_name
      ignore_not_found is_not_found try
  delete_legacy_owned-backup = refl

  holder_available :
      HolderAvailable reporting stored
        (delete_legacy_owned reporting.client stored.meta (backup_owned_name stored) after_apply).1
  unfolding volume_holder_available volume_holder_name backup_owned_name
  holder_available held = (deployment "karkive-backup-app-holder", refl, refl)

  backup-Applied : Applied reporting stored start
  backup-Applied =
      (synced_cron_job, ensure_owned-backup, (delete_legacy_owned-backup, holder_available))

  backup-ensure_secret : ensure_secret reporting stored 0 ≡ ok tt
  unfolding ensure_secret check_secret_keys require_keys is_pvc_backup enabled_or_default
  backup-ensure_secret = refl

  pub backup-IsAdmitted : IsAdmitted reporting stored start
  unfolding engine_implemented effective_engine is_pvc_backup contains
  backup-IsAdmitted = record {
    live = refl;
    engine = refl;
    valid = backup-IsBackupSpec;
    secret = backup-ensure_secret;
    source = λ pvc. absurd (false≢true pvc);
    applied = backup-Applied;
  }

  pub admitted-cron_job : backup-IsAdmitted.applied.0 ≡ synced_cron_job
  unfolding backup-IsAdmitted backup-Applied
  admitted-cron_job = refl

reconcile-ReportsReady_example :
    Wrote reconciler backup start
    × ReportsReady reconciler backup
        (backup-IsAdmitted backup.status).applied.0
        (after_writes reconciler backup start)
        (reconcile_request reconciler key start)
reconcile-ReportsReady_example =
    reconcile-ReportsReady reconciler key start backup refl (backup-IsAdmitted backup.status)
