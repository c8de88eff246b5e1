-- ===== src/Controller/Status/Steady.antt =====
-- Planning a status twice: setStatus of internal/controller/backup_controller.go.
use karkive.Prelude.{
  ℤ, String, ◌≡◌, refl, ◌≢◌, true, false, Option, none, some, List, arith, eq_iff, int_eq_refl, sym,
}
use text.Mathlib.TextPositions.{eq_refl}
use karkive.Kube.Meta.{Condition}
use karkive.Kube.Objects.{CronJob}
use karkive.Api.Common.{LastJobStatus, condition_ready, condition_backup_succeeded}
use karkive.Api.Backup.{Backup, BackupStatus}
use karkive.Controller.Client.{StatusOps}
use karkive.Controller.Status.{
  generation_changed, should_record_event, status_needs_patch, job_succeeded_condition,
}
use karkive.Controller.Report.{Report}
use karkive.Controller.Backup.Status.{plan_status, cron_changed, copy_cron, set_conditions}

-- What the controllers rely on: SetStatusCondition reports no change, and makes none, for a condition
-- that it has set, also after it has set one of another type; and deep equality is reflexive.
pub record IsLawful (ops : StatusOps) : Type 0 where
  pub again_last :
      (cs : List Condition) (c d : Condition)
      → c.type ≢ d.type
      → (let set = (ops.set_status_condition (ops.set_status_condition cs c).0 d).0 in
          ops.set_status_condition set d ≡ (set, false))
  pub again_first :
      (cs : List Condition) (c d : Condition)
      → c.type ≢ d.type
      → (let set = (ops.set_status_condition (ops.set_status_condition cs c).0 d).0 in
          ops.set_status_condition set c ≡ (set, false))
  pub last_job : (j : Option LastJobStatus) → ops.last_job_equal j j ≡ true
  pub time : (t : _) → ops.meta_time_equal t t ≡ true

pub generation_changed_same :
    (generation : ℤ) (phase : String)
    → phase ≢ ""
    → generation_changed generation generation phase ≡ false
unfolding generation_changed
generation_changed_same generation phase named =
    ground (arith, int_eq_refl generation, eq_iff phase "", named)

pub types_differ :
    (type : String) (generation : ℤ) (last_job : Option LastJobStatus)
    → condition_ready ≢ type
    → condition_ready ≢ (job_succeeded_condition type generation last_job).type
unfolding job_succeeded_condition
types_differ type generation none differ e = differ e
types_differ type generation (some last_job) differ e = differ (ground (arith, e))

module _ (ops : StatusOps) (lawful : IsLawful ops) where
  cron_changed_copied :
      (status old : BackupStatus) (cron : Option CronJob)
      → status.cron_job_name ≡ (copy_cron ops old cron).cron_job_name
      → status.last_schedule_time ≡ (copy_cron ops old cron).last_schedule_time
      → status.last_successful_time ≡ (copy_cron ops old cron).last_successful_time
      → cron_changed ops status cron ≡ false
  unfolding cron_changed copy_cron
  cron_changed_copied status old none name schedule success = refl
  cron_changed_copied status old (some cron) name schedule success =
      rw
        (
          name,
          schedule,
          success,
          eq_refl cron.meta.name,
          lawful.time cron.last_schedule_time,
          lawful.time cron.last_successful_time,
        )
        refl

  copy_cron_copied :
      (status old : BackupStatus) (cron : Option CronJob)
      → status.cron_job_name ≡ (copy_cron ops old cron).cron_job_name
      → status.last_schedule_time ≡ (copy_cron ops old cron).last_schedule_time
      → status.last_successful_time ≡ (copy_cron ops old cron).last_successful_time
      → copy_cron ops status cron ≡ status
  unfolding copy_cron
  copy_cron_copied status old none name schedule success = refl
  copy_cron_copied status old (some cron) name schedule success =
      rw (sym name, sym schedule, sym success) refl

  set_conditions_again :
      (backup : Backup) (status : BackupStatus) (report : Report) (last_job : Option LastJobStatus)
      → status.conditions ≡ (set_conditions ops backup report last_job).0
      → set_conditions ops (record backup { status = status }) report last_job
        ≡ (status.conditions, false, false)
  unfolding set_conditions
  set_conditions_again backup status report last_job stored =
      let ready : Condition = record {
        type = condition_ready;
        status = report.ready;
        reason = report.reason;
        message = report.text;
        observed_generation = backup.meta.generation;
        last_transition_time = 0;
      } in
      let succeeded =
        job_succeeded_condition condition_backup_succeeded backup.meta.generation last_job in
      let differ =
        types_differ condition_backup_succeeded backup.meta.generation last_job
          (λ e. ground (arith, eq_iff condition_ready condition_backup_succeeded, e)) in
      rw
        (
          stored,
          lawful.again_first backup.status.conditions ready succeeded differ,
          lawful.again_last backup.status.conditions ready succeeded differ,
        )
        refl

-- After a status has been stored, the same report on the same last Job plans no write and no event,
-- and the same status.
pub plan_status_steady :
    (ops : StatusOps)
    → IsLawful ops
    → (backup : Backup) (report : Report) (last_job : Option LastJobStatus) → report.phase ≢ ""
    → (let plan = plan_status ops backup report last_job in
        let again = plan_status ops (record backup { status = plan.status }) report last_job in
        (again.patch ≡ false) × (again.event ≡ false) × (again.status ≡ plan.status))
unfolding plan_status should_record_event status_needs_patch
plan_status_steady ops lawful backup report last_job named =
    let old = backup.status in
    let status = (plan_status ops backup report last_job).status in
    rw
      (
        generation_changed_same backup.meta.generation report.phase named,
        eq_refl report.phase,
        eq_refl report.holder_name,
        lawful.last_job last_job,
        set_conditions_again ops lawful backup status report last_job refl,
        cron_changed_copied ops lawful status old report.cron refl refl refl,
        copy_cron_copied ops lawful status old report.cron refl refl refl,
      )
      (refl, ground arith, refl)
