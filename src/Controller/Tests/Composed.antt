-- ===== src/Controller/Tests/Composed.antt =====
-- Theorems on the composition of the parts, at the sample objects.
use karkive.Prelude.{◌≡◌, refl, ◌+◌, ◌≤◌, true, [], ◌∷◌, length, arith, eq_iff}
use karkive.Kube.Meta.{ObjectMeta}
use karkive.Kube.Selectors.{has_labels}
use karkive.Resources.Labels.{label_backup_name, label_restore_name, kind_backup, kind_restore}
use karkive.Resources.Defaults.{restore_target_secret, restore_postgres_secret, restore_secret_keys}
use karkive.Resources.Engine.{effective_engine}
use karkive.Resources.PvcSource.{is_pvc_backup}
use karkive.Api.Common.{enabled_or_default}
use karkive.Resources.BackupCronJob.{mutate_backup_cron_job}
use karkive.Resources.RestoreCronJob.{mutate_restore_cron_job}
use karkive.Resources.Wiring.{PodReads}
use karkive.JobStatus.Selected.{own_only}
use karkive.Controller.LastJob.{map_job_to_owner}
use karkive.Controller.LastJob.Stamped.{backup_cron_job-owner, restore_cron_job-owner}
use karkive.Controller.Report.Table.{first_row}
use karkive.Controller.Backup.Inputs.{ensure_secret, check_secret_keys, require_keys}
use karkive.Controller.Backup.Reconcile as Backup
use karkive.Controller.Backup.Secrets.{IsSupplied, ensure_secret-PodReads}
use karkive.Controller.Backup.Table as BackupTable
use karkive.Controller.Backup.Grows.{reconcile_backup_calls}
use karkive.Controller.Restore.Inputs.{ensure_job_secret, ensure_target_secret, require_secret_keys}
use karkive.Controller.Restore.Reconcile as Restore
use karkive.Controller.Restore.Secrets.{ensure_secrets-PodReads}
use karkive.Controller.Restore.Table as RestoreTable
use karkive.Controller.Tests.Admitted.{reconciler, start, key}
use karkive.Samples.{scripts, quantities, config, backup, restore, cron_job, meta_of}

abbrev stamped_meta : ObjectMeta
stamped_meta =
    let meta = meta_of "app-1" in
    record meta {
      labels =
          (mutate_backup_cron_job scripts quantities (cron_job "app") backup
            config).spec.job_template_labels;
    }

backup_cron_job-owner_example :
    (map_job_to_owner kind_backup label_backup_name stamped_meta
      ≡ record { namespace = "db"; name = "app" } ∷ [])
    × (map_job_to_owner kind_restore label_restore_name stamped_meta ≡ [])
    × (has_labels (own_only label_backup_name "app" kind_backup) stamped_meta.labels ≡ true)
backup_cron_job-owner_example =
    backup_cron_job-owner scripts quantities config (cron_job "app") backup stamped_meta
      (refl, refl) (λ e. ground (arith, eq_iff "app" "", e))

abbrev stamped_restore_meta : ObjectMeta
stamped_restore_meta =
    let meta = meta_of "app-2" in
    record meta {
      labels =
          (mutate_restore_cron_job scripts quantities (cron_job "app") restore
            config).spec.job_template_labels;
    }

restore_cron_job-owner_example :
    (map_job_to_owner kind_restore label_restore_name stamped_restore_meta
      ≡ record { namespace = "db"; name = "app" } ∷ [])
    × (map_job_to_owner kind_backup label_backup_name stamped_restore_meta ≡ [])
    × (has_labels (own_only label_restore_name "app" kind_restore) stamped_restore_meta.labels
        ≡ true)
restore_cron_job-owner_example =
    restore_cron_job-owner scripts quantities config (cron_job "app") restore stamped_restore_meta
      (refl, refl) (λ e. ground (arith, eq_iff "app" "", e))

ensure_secret-PodReads_example :
    PodReads
      (IsSupplied reconciler "db" 0)
      ((Backup.owned_resources reconciler backup).mutate_cron_job (cron_job "app")).spec.job.pod
unfolding ensure_secret check_secret_keys require_keys is_pvc_backup enabled_or_default
ensure_secret-PodReads_example = ensure_secret-PodReads reconciler backup 0 (cron_job "app") refl

ensure_secrets-PodReads_example :
    PodReads
      (IsSupplied reconciler "db" 0)
      ((Restore.owned_resources reconciler restore).mutate_cron_job (cron_job "app")).spec.job.pod
unfolding ensure_job_secret ensure_target_secret require_secret_keys restore_target_secret
    restore_postgres_secret restore_secret_keys effective_engine
ensure_secrets-PodReads_example =
    ensure_secrets-PodReads reconciler restore 0 (cron_job "app") refl refl

reconcile_backup-Follows_example :
    BackupTable.Follows reconciler backup start
      (Backup.reconcile_backup reconciler backup start)
      (first_row (BackupTable.backup_rows reconciler backup 0))
reconcile_backup-Follows_example = BackupTable.reconcile_backup-Follows reconciler backup start refl

reconcile_restore-Follows_example :
    RestoreTable.Follows reconciler restore start
      (Restore.reconcile_restore reconciler restore start)
      (first_row (RestoreTable.restore_rows reconciler restore 0))
reconcile_restore-Follows_example =
    RestoreTable.reconcile_restore-Follows reconciler restore start refl

reconcile_backup_calls_example :
    length (Backup.reconcile_request reconciler key start).1.calls ≤ 8 + 0
reconcile_backup_calls_example = reconcile_backup_calls reconciler key start
