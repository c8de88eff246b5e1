-- ===== src/Controller/Tests.antt =====
-- The theorems on the reconciler at a sample cluster.
pub mod Conditions
pub mod Admitted
mod AdmittedRestore
mod Composed
mod Converged
mod ConvergedRestore
use karkive.Prelude.{
  ℕ, ℤ, pos, String, ◌≡◌, refl, ◌≢◌, ◌⊎◌, inl, inr, Bool, true, false, none, [], ◌∷◌, ◌++◌, List,
  arith, eq_iff, is_some,
}
use karkive.Errors.{Error, plain, Result, ok, err, is_conflict, is_not_found}
use karkive.Kube.Meta.{condition_true, condition_unknown}
use karkive.Kube.Objects.{CronJob, Deployment}
use karkive.Api.Common.{LastJobStatus, outcome_succeeded, condition_backup_succeeded}
use karkive.Api.Backup.{Backup, phase_ready}
use karkive.Resources.Defaults.{persistence_enabled}
use karkive.JobStatus.{set_time, summarize_job}
use karkive.Controller.Client.{ObjectKey, Client}
use karkive.Controller.Action.{
  Machine, Call, delete_deployment, apply_config_map, apply_cron_job, try, resume,
}
use karkive.Controller.Owned.{
  OwnedResources, delete_if_controller, ensure_owned, requeue_on_conflict, ignore_not_found,
  conflict_requeue, ensure_config_map, ensure_claim, ensure_volume_holder, ensure_cron_job,
  with_reason, owned_config_map, owned_claim, owned_deployment, owned_cron_job,
}
use karkive.Controller.Owned.Order.{
  HolderCalls, claim_calls, delete_if_controller_safe, ensure_owned_order,
}
use karkive.Controller.Owned.Reasons.{FailedStep, ensure_owned_failed}
use karkive.Controller.Status.{job_succeeded_condition}
use karkive.Controller.Status.Steady.{plan_status_steady}
use karkive.Controller.Report.{Reconciler, Report, synced}
use karkive.Controller.Backup.Status.{plan_status}
use karkive.Controller.Backup.Reconcile.{owned_resources, apply_owned, reconcile, reconcile_request}
use karkive.Controller.Report.Unready.{NoReady}
use karkive.Controller.Backup.Ready.{IsAdmitted, Wrote, reconcile_ready}
use karkive.Controller.Report.Guarded.{OnlyReports}
use karkive.Controller.Backup.Guards.{IsChecked, reconcile_guarded}
use karkive.Kube.Objects.{Job}
use karkive.Resources.Labels.{label_app_managed_by, managed_by}
use karkive.Controller.Tests.Admitted.{reconciler, start, key}
use karkive.Controller.Tests.Conditions.{status_ops, status_ops-IsLawful}
use karkive.Api.Restore.{Restore}
use karkive.Controller.Restore as Restore
use karkive.Controller.Restore.Ready.{reconcile_restore_ready}
use karkive.Controller.Restore.Guards.{reconcile_restore_guarded}
use karkive.Errors.{is_not_found}
use karkive.Samples.{
  not_found, restore, external, quantities, scripts, config, client, backup, cron_job, config_map,
  not_found, retried_job, meta_of, deployment,
}

reconcile_ready_example :
    NoReady (reconcile_request reconciler key start).1.calls
    ⊎ ((b : Backup) × (ok backup ≡ ok b) × IsAdmitted reconciler b start × Wrote reconciler b start)
reconcile_ready_example = reconcile_ready reconciler key start tt

reconcile_restore_ready_example :
    NoReady (Restore.Reconcile.reconcile_request reconciler key start).1.calls
    ⊎ ((b : Restore) × (ok restore ≡ ok b)
        × Restore.Ready.IsAdmitted reconciler b start
        × Restore.Ready.Wrote reconciler b start)
reconcile_restore_ready_example = reconcile_restore_ready reconciler key start tt

reconcile_restore_guarded_example :
    OnlyReports (Restore.Reconcile.reconcile_request reconciler key start).1.calls
    ⊎ ((b : Restore) × (ok restore ≡ ok b) × Restore.Guards.IsChecked reconciler b start)
reconcile_restore_guarded_example = reconcile_restore_guarded reconciler key start tt

abbrev restore_gone : Reconciler ℕ
restore_gone = record reconciler { client = record client { get_restore = λ k w. err not_found } }

reconcile_guarded_example :
    OnlyReports (reconcile_request reconciler key start).1.calls
    ⊎ ((b : Backup) × (ok backup ≡ ok b) × IsChecked reconciler b start)
reconcile_guarded_example = reconcile_guarded reconciler key start tt

delete_if_controller_safe_example :
    ((delete_if_controller client
        (meta_of "app")
        (λ w. ok (deployment "h"))
        (λ d. d.meta)
        (delete_deployment "h")
        (λ w. (ok tt, w))
        start).1
      ≡ start)
    ⊎ ((d : Deployment) × (ok (deployment "h") ≡ ok d)
        × (true ≡ true)
        × ((delete_if_controller client
              (meta_of "app")
              (λ w. ok (deployment "h"))
              (λ d. d.meta)
              (delete_deployment "h")
              (λ w. (ok tt, w))
              start).1.calls
            ≡ delete_deployment "h" ∷ []))
delete_if_controller_safe_example =
    delete_if_controller_safe client (meta_of "app") (λ w. ok (deployment "h")) (λ d. d.meta)
      (delete_deployment "h") (λ w. (ok tt, w)) start

abbrev owned : OwnedResources
owned = record {
  owner = meta_of "app";
  name = "karkive-backup-app";
  persistence = none;
  labels = [];
  volume_holder = false;
  holder_name = "karkive-backup-app-holder";
  mutate_config_map = λ cm. ok cm;
  mutate_cron_job = λ cj. cj;
  mutate_volume_holder = λ d. d;
}

ensure_owned_order_example :
    (new : List Call) × HolderCalls owned new
    × ((ensure_owned client quantities owned start).1.calls
        ≡ apply_cron_job owned.name
          ∷ (new ++ (claim_calls owned ++ apply_config_map owned.name ∷ start.calls)))
unfolding ensure_owned ensure_config_map ensure_claim ensure_volume_holder ensure_cron_job
    with_reason try owned_config_map owned_claim owned_deployment owned_cron_job
    delete_if_controller persistence_enabled
ensure_owned_order_example =
    ensure_owned_order client quantities owned start (cron_job "karkive-backup-app") refl

-- The API server refuses the claim.
abbrev full : Client ℕ
full = record client { apply_claim = λ k mutate w. (err (plain "no space"), w) }

abbrev claim_error : Error
claim_error = Error.owned_apply "PVCError" (plain "no space")

ensure_owned_failed_example :
    FailedStep full quantities owned start.calls claim_error
      (ensure_owned full quantities owned start).1.calls
unfolding ensure_owned ensure_config_map ensure_claim with_reason try owned_config_map
    persistence_enabled
ensure_owned_failed_example = ensure_owned_failed full quantities owned start claim_error refl

abbrev listed_job : Job
listed_job =
    let meta = retried_job.meta in
    record retried_job {
      meta = record meta { labels = (label_app_managed_by, managed_by) ∷ meta.labels };
    }

abbrev report : Report
report = synced (cron_job "karkive-backup-app") "karkive-backup-app-holder"

plan_status_steady_example :
    let plan = plan_status status_ops backup report none in
    let again = plan_status status_ops (record backup { status = plan.status }) report none in
    (again.patch ≡ false) × (again.event ≡ false) × (again.status ≡ plan.status)
plan_status_steady_example =
    plan_status_steady status_ops status_ops-IsLawful backup report none
      (λ e. ground (arith, eq_iff "Ready" "", e))
