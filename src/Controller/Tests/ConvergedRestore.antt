-- ===== src/Controller/Tests/ConvergedRestore.antt =====
-- A Restore whose status is the one that the last Reconcile has stored.
use karkive.Prelude.{◌≡◌, refl}
use karkive.Errors.{ok}
use karkive.Api.Restore.{RestoreStatus}
use karkive.Controller.LastJob.{last_job_status}
use karkive.Controller.Report.{Report, synced}
use karkive.Controller.Restore.Status.{plan_status, copy_cron, set_conditions}
use karkive.Controller.Restore.Reconcile.{reconcile_request}
use karkive.Controller.Restore.Synced.{after_writes, status_holder}
use karkive.Controller.Restore.Converged.{last_job_at, reconcile_restore_converged}
use karkive.Controller.Tests.Conditions.{status_ops, status_ops-IsLawful}
use karkive.Controller.Tests.Admitted.{reconciler, start, key}
use karkive.Controller.Tests.AdmittedRestore.{
  stored, reporting, synced_cron_job, restore-IsAdmitted, admitted-cron_job,
}
use karkive.Resources.Runtime.{needs_volume_holder, volume_holder_name}
use karkive.Resources.Names.{restore_owned_name}
use karkive.Resources.RestoreCronJob.{mutate_restore_cron_job}
use karkive.Api.Common.{effective_mode}
use karkive.JobStatus.{summarize, last_finished, last_finished_from, consider}
use karkive.Samples.{restore}

abbrev report : Report
report = synced synced_cron_job (status_holder reconciler restore)

abbrev stored_status : RestoreStatus
stored_status =
    (plan_status status_ops restore report
      (last_job_at reconciler restore (after_writes reconciler restore start))).status

reconcile_restore_converged_example :
    reconcile_request (reporting stored_status) key start
    ≡ (ok 0, after_writes (reporting stored_status) (stored stored_status) start)
unfolding last_job_status plan_status copy_cron needs_volume_holder summarize set_conditions
    mutate_restore_cron_job effective_mode last_finished status_ops volume_holder_name
    last_finished_from restore_owned_name consider
reconcile_restore_converged_example =
    reconcile_restore_converged (reporting stored_status) key start (stored stored_status)
      status_ops-IsLawful refl (restore-IsAdmitted stored_status)
      (restore.status, rw (admitted-cron_job stored_status) refl)
