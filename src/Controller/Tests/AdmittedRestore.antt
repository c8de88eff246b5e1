-- ===== src/Controller/Tests/AdmittedRestore.antt =====
-- The sample Restore passes every check of the sample cluster.
use karkive.Prelude.{trim_space, insert, insert_all, contains, ℕ, ◌≡◌, refl}
use karkive.Errors.{ok}
use karkive.Errors.{is_not_found}
use karkive.Api.Common.{enabled_or_default, effective_mode}
use karkive.Resources.Labels.{restore_labels}
use karkive.Resources.Requirements.{restore_stage_resources}
use karkive.Resources.Defaults as Defaults
use karkive.Resources.Defaults.{
  restore_target_secret, restore_postgres_secret, restore_secret_keys, restore_s3_endpoint,
  restore_s3_bucket,
}
use karkive.Resources.Images.{first_non_empty}
use karkive.Resources.Engine.{effective_engine, engine_implemented, restore_engine_implemented}
use karkive.Resources.Names.{legacy_owned_name, restore_owned_name}
use karkive.Resources.Runtime.{needs_volume_holder, volume_holder_name}
use karkive.Resources.ConfigMap.{
  mutate_restore_config_map, check_bucket, restore_entries, restore_engine_entries,
}
use karkive.Kube.Objects.{CronJob}
use karkive.Api.Restore.{Restore, RestoreStatus}
use karkive.Validation.{
  validate_target_secret, selector_missing, validate_restore_spec, validate_schedule,
  validate_destination, validate_job_policy, validate_runtime, validate_database,
  persistence_enabled,
}
use karkive.Validation.Predicates.{IsRestoreSpec}
use karkive.Validation.Laws.{validate_restore_spec_iff}
use karkive.Resources.RestoreCronJob.{mutate_restore_cron_job}
use karkive.Controller.Action.{Machine, try}
use karkive.Controller.Owned.{
  ensure_owned, ensure_config_map, ensure_claim, ensure_volume_holder, ensure_cron_job, with_reason,
  owned_config_map, owned_claim, owned_deployment, owned_cron_job, delete_legacy_owned,
  delete_if_controller, ignore_not_found, volume_holder_available,
}
use karkive.Controller.Report.{Reconciler}
use karkive.Controller.Restore.Inputs.{ensure_job_secret, ensure_target_secret, require_secret_keys}
use karkive.Controller.Restore.Reconcile.{owned_resources, reconcile_request}
use karkive.Controller.Restore.Reported.{reconcile_restore-ReportsReady, ReportsReady}
use karkive.Controller.Restore.Ready.{Wrote, IsAdmitted, Applied, HolderAvailable}
use karkive.Controller.Restore.Synced.{after_writes}
use karkive.Controller.Tests.Admitted.{reconciler, start, key}
use karkive.Samples.{external, quantities, scripts, config, client, restore, cron_job, deployment}

restore-IsRestoreSpec : IsRestoreSpec external restore.spec
unfolding validate_restore_spec validate_schedule trim_space validate_database validate_destination
    enabled_or_default validate_job_policy validate_runtime effective_mode persistence_enabled
    validate_target_secret selector_missing
restore-IsRestoreSpec = (validate_restore_spec_iff external restore.spec).0 refl

abbrev pub synced_cron_job : CronJob
synced_cron_job =
    mutate_restore_cron_job scripts quantities (cron_job "karkive-restore-app") restore config

-- The sample Restore with any status, and the cluster that holds it.
module _ (status : RestoreStatus) where
  abbrev pub stored : Restore
  stored = record restore { status = status }

  abbrev pub reporting : Reconciler ℕ
  reporting = record reconciler { client = record client { get_restore = λ k w. ok stored } }

  -- The machine after ensureOwned and after the removal of the legacy objects.
  abbrev after_apply : Machine ℕ
  after_apply =
      (ensure_owned reporting.client quantities (owned_resources reporting stored) start).1

  ensure_owned-restore :
      (ensure_owned reporting.client quantities (owned_resources reporting stored) start).0
      ≡ ok synced_cron_job
  unfolding ensure_owned ensure_config_map ensure_claim ensure_volume_holder ensure_cron_job
      with_reason try owned_resources owned_config_map owned_claim owned_deployment owned_cron_job
      mutate_restore_config_map check_bucket restore_entries restore_engine_entries insert
      insert_all restore_s3_endpoint restore_s3_bucket first_non_empty enabled_or_default
      needs_volume_holder effective_mode effective_engine Defaults.persistence_enabled
      restore_owned_name volume_holder_name delete_if_controller mutate_restore_cron_job
      restore_labels restore_stage_resources Defaults.restore_workdir restore_postgres_secret
  ensure_owned-restore = refl

  delete_legacy_owned-restore :
      (delete_legacy_owned reporting.client stored.meta (restore_owned_name stored) after_apply).0
      ≡ ok tt
  unfolding delete_legacy_owned delete_if_controller legacy_owned_name restore_owned_name
      ignore_not_found is_not_found try
  delete_legacy_owned-restore = refl

  holder_available :
      HolderAvailable reporting stored
        (delete_legacy_owned reporting.client stored.meta (restore_owned_name stored) after_apply).1
  unfolding volume_holder_available volume_holder_name restore_owned_name
  holder_available held = (deployment "karkive-restore-app-holder", refl, refl)

  restore-Applied : Applied reporting stored start
  restore-Applied =
      (synced_cron_job, ensure_owned-restore, (delete_legacy_owned-restore, holder_available))

  restore-ensure_job_secret : ensure_job_secret reporting stored 0 ≡ ok tt
  unfolding ensure_job_secret require_secret_keys
  restore-ensure_job_secret = refl

  restore-ensure_target_secret : ensure_target_secret reporting stored 0 ≡ ok tt
  unfolding ensure_target_secret require_secret_keys restore_target_secret restore_postgres_secret
      restore_secret_keys effective_engine
  restore-ensure_target_secret = refl

  pub restore-IsAdmitted : IsAdmitted reporting stored start
  unfolding restore_engine_implemented engine_implemented effective_engine contains
  restore-IsAdmitted = record {
    live = refl;
    engine = refl;
    valid = restore-IsRestoreSpec;
    secret = restore-ensure_job_secret;
    target = restore-ensure_target_secret;
    applied = restore-Applied;
  }

  pub admitted-cron_job : restore-IsAdmitted.applied.0 ≡ synced_cron_job
  unfolding restore-IsAdmitted restore-Applied
  admitted-cron_job = refl

reconcile_restore-ReportsReady_example :
    Wrote reconciler restore start
    × ReportsReady reconciler restore
        (restore-IsAdmitted restore.status).applied.0
        (after_writes reconciler restore start)
        (reconcile_request reconciler key start)
reconcile_restore-ReportsReady_example =
    reconcile_restore-ReportsReady reconciler key start restore refl
      (restore-IsAdmitted restore.status)
