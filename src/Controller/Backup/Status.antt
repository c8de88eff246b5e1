-- ===== src/Controller/Backup/Status.antt =====
-- internal/controller/backup_controller.go: setStatus and fail

use karkive.Prelude.{
  ℕ, String, Bool, false, not, ◌&&◌, ◌||◌, Option, none, some, List, ◌∷◌, ◌==◌, if◌then◌else◌,
}
use karkive.Errors.{Error, message, ok, is_conflict}
use karkive.Kube.Meta.{Condition}
use karkive.Kube.Objects.{CronJob}
use karkive.Api.Common.{LastJobStatus, condition_ready, condition_backup_succeeded}
use karkive.Api.Backup.{Backup, BackupStatus, phase_error}
use karkive.Resources.Labels.{label_backup_name, kind_backup}
use karkive.Controller.Client.{StatusOps}
use karkive.Controller.Action.{update_status, event, Machine, Action, pure, raise, write, ◌>>◌}
use karkive.Controller.Status.{
  event_type_warning, job_succeeded_condition, generation_changed, should_record_event,
  status_needs_patch,
}
use karkive.Controller.LastJob.{last_job_status}
use karkive.Controller.Report.{Report, refusal, Reconciler}

-- What setStatus computes: the new status, whether it records an event, and whether it writes.
pub record StatusPlan : Type 0 where
  pub status : BackupStatus
  pub event : Bool
  pub patch : Bool

module _ (ops : StatusOps) where
  -- cronChanged
  unfoldable pub cron_changed : BackupStatus → Option CronJob → Bool
  cron_changed old none = false
  cron_changed old (some cron) =
      not (old.cron_job_name == cron.meta.name)
      || not (ops.meta_time_equal old.last_schedule_time cron.last_schedule_time)
      || not (ops.meta_time_equal old.last_successful_time cron.last_successful_time)

  -- The fields of the status that are copied from the CronJob.
  unfoldable pub copy_cron : BackupStatus → Option CronJob → BackupStatus
  copy_cron old none = old
  copy_cron old (some cron) = record old {
    cron_job_name = cron.meta.name;
    last_schedule_time = cron.last_schedule_time;
    last_successful_time = cron.last_successful_time;
  }

  -- The conditions after Ready and BackupSucceeded have been set, and whether each one changed.
  unfoldable pub set_conditions :
      Backup → Report → Option LastJobStatus → List Condition × Bool × Bool
  set_conditions backup report last_job =
      let ready = ops.set_status_condition backup.status.conditions (record {
        type = condition_ready;
        status = report.ready;
        reason = report.reason;
        message = report.text;
        observed_generation = backup.meta.generation;
        last_transition_time = 0;
      }) in
      let succeeded =
        ops.set_status_condition ready.0
          (job_succeeded_condition condition_backup_succeeded backup.meta.generation last_job) in
      (succeeded.0, ready.1, succeeded.1)

  unfoldable pub plan_status : Backup → Report → Option LastJobStatus → StatusPlan
  plan_status backup report last_job =
      let old = backup.status in
      let spec_changed =
        generation_changed backup.meta.generation old.observed_generation old.phase in
      let phase_changed = not (old.phase == report.phase) in
      let last_job_changed = not (ops.last_job_equal old.last_job last_job) in
      let holder_changed = not (old.volume_holder_name == report.holder_name) in
      let conditions = set_conditions backup report last_job in
      let copied = copy_cron old report.cron in
      record {
        status = record copied {
          phase = report.phase;
          observed_generation = backup.meta.generation;
          volume_holder_name = report.holder_name;
          last_job = last_job;
          conditions = conditions.0;
        };
        event = should_record_event report.event_type spec_changed phase_changed conditions.1;
        patch =
            status_needs_patch spec_changed phase_changed (conditions.1 || conditions.2)
              last_job_changed (cron_changed old report.cron || holder_changed);
      }

module _ {W : Type 0} (r : Reconciler W) where
  unfoldable pub record_event : Bool → Backup → Report → Machine W → Machine W
  record_event due backup report s =
      if r.has_recorder && due
      then record {
        world = r.client.event backup.meta report.event_type report.reason report.text s.world;
        calls = event report.event_type report.reason ∷ s.calls;
      }
      else s

  unfoldable pub set_status : Backup → Report → Action W (Unit {0})
  set_status backup report s =
      let last_job =
        last_job_status r.client backup.meta.namespace label_backup_name backup.meta.name
          kind_backup s.world in
      let plan = plan_status r.ops backup report last_job in
      let s' = record_event plan.event backup report s in
      let patched =
        write (update_status plan.status.phase)
          (r.client.update_backup_status (record backup { status = plan.status })) s' in
      if plan.patch then patched else (ok tt, s')

  -- return ctrl.Result{RequeueAfter: delay}, r.setStatus(…); the delay is dropped with an error
  unfoldable pub report_and : Backup → Report → ℕ → Action W ℕ
  report_and backup report delay = set_status backup report >> pure delay

  unfoldable pub fail : {A : Type 0} → Backup → String → Error → Action W A
  fail backup reason e =
      let reported =
        set_status backup (refusal phase_error reason (message e) event_type_warning) >> raise e in
      if is_conflict e then raise e else reported
