-- ===== src/Controller/Backup/Converged.antt =====
-- Reconcile of internal/controller/backup_controller.go at a Backup whose status says already what it
-- would report.
use karkive.Prelude.{ℕ, ◌≡◌, refl, ◌≢◌, false, arith, eq_iff, ◌∙◌, Option}
use mathlib.Core.Path.{subst}
use karkive.Errors.{ok}
use karkive.Api.Common.{LastJobStatus}
use karkive.Api.Backup.{Backup, BackupStatus, phase_ready}
use karkive.Resources.Labels.{label_backup_name, kind_backup}
use karkive.Controller.Client.{ObjectKey}
use karkive.Controller.Action.{Machine, try, resume, pure}
use karkive.Controller.LastJob.{last_job_status}
use karkive.Controller.Status.Steady.{IsLawful, plan_status_steady}
use karkive.Controller.Owned.{requeue_on_conflict}
use karkive.Controller.Report.{Reconciler, Report, synced}
use karkive.Controller.Backup.Status.{plan_status, record_event, set_status, report_and}
use karkive.Controller.Backup.Reconcile.{reconcile_request}
use karkive.Controller.Backup.Ready.{IsAdmitted}
use karkive.Controller.Backup.Synced.{reconcile_synced, after_writes, status_holder}

module _ {W : Type 0} (r : Reconciler W) where
  -- The last Job that setStatus reads.
  abbrev pub last_job_at : Backup → Machine W → Option LastJobStatus
  last_job_at backup s =
      last_job_status r.client backup.meta.namespace label_backup_name backup.meta.name kind_backup
        s.world

  -- The status is the one that setStatus computed for the report from some older status.
  abbrev pub IsReported : Backup → Report → Machine W → Type 0
  IsReported backup report s =
      (old : BackupStatus) × (backup.status
        ≡ (plan_status r.ops (record backup { status = old }) report (last_job_at backup s)).status)

  set_status_quiet :
      (backup : Backup) (report : Report) (s : Machine W)
      → (plan_status r.ops backup report (last_job_at backup s)).patch ≡ false
      → (plan_status r.ops backup report (last_job_at backup s)).event ≡ false
      → set_status r backup report s ≡ (ok tt, s)
  unfolding set_status record_event
  set_status_quiet backup report s patch event = ground (arith, patch, event)

  report_and_quiet :
      (backup : Backup) (report : Report) (delay : ℕ) (s : Machine W)
      → IsLawful r.ops
      → report.phase ≢ ""
      → IsReported backup report s
      → report_and r backup report delay s ≡ (ok delay, s)
  unfolding report_and try pure
  report_and_quiet backup report delay s lawful named (old, reported) =
      let last = last_job_at backup s in
      let (patch, event, _) =
        plan_status_steady r.ops lawful (record backup { status = old }) report last named in
      let same : record backup {
        status = (plan_status r.ops (record backup { status = old }) report last).status;
      }
          ≡ backup =
        rw (← reported) refl in
      let quiet =
        set_status_quiet backup report s
          (subst (λ (b : Backup). (plan_status r.ops b report last).patch ≡ false) same patch)
          (subst (λ (b : Backup). (plan_status r.ops b report last).event ≡ false) same event) in
      rw (quiet, resume) refl

  -- For a Backup that passes every check, whose owned objects can all be written, whose holder, if
  -- any, is available, and whose status is the one of an earlier report Synced on the same CronJob,
  -- holder and last Job, Reconcile ends with the state after the writes to the owned objects: it
  -- writes no status, records no event, and asks for no requeue. It relies on the documented behaviour
  -- of meta.SetStatusCondition and of deep equality.
  pub reconcile_converged :
      (req : ObjectKey) (s : Machine W) (backup : Backup)
      → IsLawful r.ops
      → r.client.get_backup req s.world ≡ ok backup
      → (admitted : IsAdmitted r backup s)
      → IsReported backup
          (synced admitted.applied.0 (status_holder r backup))
          (after_writes r backup s)
      → reconcile_request r req s ≡ (ok 0, after_writes r backup s)
  unfolding requeue_on_conflict
  reconcile_converged req s backup lawful found admitted reported =
      let quiet =
        report_and_quiet backup (synced admitted.applied.0 (status_holder r backup)) 0
          (after_writes r backup s) lawful (λ e. ground (arith, eq_iff phase_ready "", e))
          reported in
      reconcile_synced r req s backup found admitted ∙ rw quiet refl
