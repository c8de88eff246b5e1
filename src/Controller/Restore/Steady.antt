-- ===== src/Controller/Restore/Steady.antt =====
-- Planning a status twice: setStatus of internal/controller/restore_controller.go.
use karkive.Prelude.{◌≡◌, refl, ◌≢◌, false, Option, none, some, arith, eq_iff, sym}
use text.Mathlib.TextPositions.{eq_refl}
use karkive.Kube.Meta.{Condition}
use karkive.Kube.Objects.{CronJob}
use karkive.Api.Common.{LastJobStatus, condition_ready, condition_restore_succeeded}
use karkive.Api.Restore.{Restore, RestoreStatus}
use karkive.Controller.Client.{StatusOps}
use karkive.Controller.Status.{should_record_event, status_needs_patch, job_succeeded_condition}
use karkive.Controller.Status.Steady.{IsLawful, generation_changed_same, types_differ}
use karkive.Controller.Report.{Report}
use karkive.Controller.Restore.Status.{plan_status, cron_changed, copy_cron, set_conditions}

module _ (ops : StatusOps) (lawful : IsLawful ops) where
  cron_changed_copied :
      (status old : RestoreStatus) (cron : Option CronJob)
      → status.cron_job_name ≡ (copy_cron ops old cron).cron_job_name
      → status.last_schedule_time ≡ (copy_cron ops old cron).last_schedule_time
      → status.last_successful_time ≡ (copy_cron ops old cron).last_successful_time
      → cron_changed ops status cron ≡ false
  unfolding cron_changed copy_cron
  cron_changed_copied status old none name schedule success = refl
  cron_changed_copied status old (some cron) name schedule success =
      rw
        (
          name,
          schedule,
          success,
          eq_refl cron.meta.name,
          lawful.time cron.last_schedule_time,
          lawful.time cron.last_successful_time,
        )
        refl

  copy_cron_copied :
      (status old : RestoreStatus) (cron : Option CronJob)
      → status.cron_job_name ≡ (copy_cron ops old cron).cron_job_name
      → status.last_schedule_time ≡ (copy_cron ops old cron).last_schedule_time
      → status.last_successful_time ≡ (copy_cron ops old cron).last_successful_time
      → copy_cron ops status cron ≡ status
  unfolding copy_cron
  copy_cron_copied status old none name schedule success = refl
  copy_cron_copied status old (some cron) name schedule success =
      rw (sym name, sym schedule, sym success) refl

  set_conditions_again :
      (restore : Restore) (status : RestoreStatus) (report : Report)
      (last_job : Option LastJobStatus)
      → status.conditions ≡ (set_conditions ops restore report last_job).0
      → set_conditions ops (record restore { status = status }) report last_job
        ≡ (status.conditions, false, false)
  unfolding set_conditions
  set_conditions_again restore status report last_job stored =
      let ready : Condition = record {
        type = condition_ready;
        status = report.ready;
        reason = report.reason;
        message = report.text;
        observed_generation = restore.meta.generation;
        last_transition_time = 0;
      } in
      let succeeded =
        job_succeeded_condition condition_restore_succeeded restore.meta.generation last_job in
      let differ =
        types_differ condition_restore_succeeded restore.meta.generation last_job
          (λ e. ground (arith, eq_iff condition_ready condition_restore_succeeded, e)) in
      rw
        (
          stored,
          lawful.again_first restore.status.conditions ready succeeded differ,
          lawful.again_last restore.status.conditions ready succeeded differ,
        )
        refl

-- After a status has been stored, the same report on the same last Job plans no write and no event,
-- and the same status.
pub plan_restore_status_steady :
    (ops : StatusOps)
    → IsLawful ops
    → (restore : Restore) (report : Report) (last_job : Option LastJobStatus) → report.phase ≢ ""
    → (let plan = plan_status ops restore report last_job in
        let again = plan_status ops (record restore { status = plan.status }) report last_job in
        (again.patch ≡ false) × (again.event ≡ false) × (again.status ≡ plan.status))
unfolding plan_status should_record_event status_needs_patch
plan_restore_status_steady ops lawful restore report last_job named =
    let old = restore.status in
    let status = (plan_status ops restore report last_job).status in
    rw
      (
        generation_changed_same restore.meta.generation report.phase named,
        eq_refl report.phase,
        eq_refl report.holder_name,
        lawful.last_job last_job,
        set_conditions_again ops lawful restore status report last_job refl,
        cron_changed_copied ops lawful status old report.cron refl refl refl,
        copy_cron_copied ops lawful status old report.cron refl refl refl,
      )
      (refl, ground arith, refl)
