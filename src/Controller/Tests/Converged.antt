-- ===== src/Controller/Tests/Converged.antt =====
-- A Backup whose status is the one that the last Reconcile has stored.
use karkive.Prelude.{◌≡◌, refl}
use karkive.Errors.{ok}
use karkive.Api.Backup.{BackupStatus}
use karkive.Controller.LastJob.{last_job_status}
use karkive.Controller.Report.{Report, synced}
use karkive.Controller.Backup.Status.{plan_status, copy_cron, set_conditions}
use karkive.Controller.Backup.Reconcile.{reconcile_request}
use karkive.Controller.Backup.Synced.{after_writes, status_holder}
use karkive.Controller.Backup.Converged.{last_job_at, reconcile_converged}
use karkive.Controller.Tests.Conditions.{status_ops, status_ops-IsLawful}
use karkive.Controller.Tests.Admitted.{
  reconciler, start, key, stored, reporting, synced_cron_job, backup-IsAdmitted, admitted-cron_job,
}
use karkive.Resources.Runtime.{needs_volume_holder, volume_holder_name}
use karkive.Resources.Names.{backup_owned_name}
use karkive.Resources.BackupCronJob.{mutate_backup_cron_job}
use karkive.Api.Common.{effective_mode}
use karkive.JobStatus.{summarize, last_finished, last_finished_from, consider}
use karkive.Samples.{backup}

abbrev report : Report
report = synced synced_cron_job (status_holder reconciler backup)

abbrev stored_status : BackupStatus
stored_status =
    (plan_status status_ops backup report
      (last_job_at reconciler backup (after_writes reconciler backup start))).status

reconcile_converged_example :
    reconcile_request (reporting stored_status) key start
    ≡ (ok 0, after_writes (reporting stored_status) (stored stored_status) start)
unfolding last_job_status plan_status copy_cron needs_volume_holder summarize set_conditions
    mutate_backup_cron_job effective_mode last_finished status_ops volume_holder_name
    last_finished_from backup_owned_name consider
reconcile_converged_example =
    reconcile_converged (reporting stored_status) key start (stored stored_status)
      status_ops-IsLawful refl (backup-IsAdmitted stored_status)
      (backup.status, rw (admitted-cron_job stored_status) refl)
