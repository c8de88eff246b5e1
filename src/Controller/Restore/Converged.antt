-- ===== src/Controller/Restore/Converged.antt =====
-- Reconcile of internal/controller/restore_controller.go at a Restore whose status says already what it
-- would report.
use karkive.Prelude.{ℕ, ◌≡◌, refl, ◌≢◌, false, arith, eq_iff, ◌∙◌, Option}
use mathlib.Core.Path.{subst}
use karkive.Errors.{ok}
use karkive.Api.Common.{LastJobStatus}
use karkive.Api.Restore.{Restore, RestoreStatus}
use karkive.Api.Backup.{phase_ready}
use karkive.Resources.Labels.{label_restore_name, kind_restore}
use karkive.Controller.Client.{ObjectKey}
use karkive.Controller.Action.{Machine, try, resume, pure}
use karkive.Controller.LastJob.{last_job_status}
use karkive.Controller.Status.Steady.{IsLawful}
use karkive.Controller.Restore.Steady.{plan_restore_status_steady}
use karkive.Controller.Owned.{requeue_on_conflict}
use karkive.Controller.Report.{Reconciler, Report, synced}
use karkive.Controller.Restore.Status.{plan_status, record_event, set_status, report_and}
use karkive.Controller.Restore.Reconcile.{reconcile_request}
use karkive.Controller.Restore.Ready.{IsAdmitted}
use karkive.Controller.Restore.Synced.{reconcile_restore_synced, after_writes, status_holder}

module _ {W : Type 0} (r : Reconciler W) where
  -- The last Job that setStatus reads.
  abbrev pub last_job_at : Restore → Machine W → Option LastJobStatus
  last_job_at restore s =
      last_job_status r.client restore.meta.namespace label_restore_name restore.meta.name
        kind_restore s.world

  -- The status is the one that setStatus computed for the report from some older status.
  abbrev pub IsReported : Restore → Report → Machine W → Type 0
  IsReported restore report s =
      (old : RestoreStatus) × (restore.status
        ≡ (plan_status r.ops (record restore { status = old }) report
            (last_job_at restore s)).status)

  set_status_quiet :
      (restore : Restore) (report : Report) (s : Machine W)
      → (plan_status r.ops restore report (last_job_at restore s)).patch ≡ false
      → (plan_status r.ops restore report (last_job_at restore s)).event ≡ false
      → set_status r restore report s ≡ (ok tt, s)
  unfolding set_status record_event
  set_status_quiet restore report s patch event = ground (arith, patch, event)

  report_and_quiet :
      (restore : Restore) (report : Report) (delay : ℕ) (s : Machine W)
      → IsLawful r.ops
      → report.phase ≢ ""
      → IsReported restore report s
      → report_and r restore report delay s ≡ (ok delay, s)
  unfolding report_and try pure
  report_and_quiet restore report delay s lawful named (old, reported) =
      let last = last_job_at restore s in
      let (patch, event, _) =
        plan_restore_status_steady r.ops lawful (record restore { status = old }) report last
          named in
      let same : record restore {
        status = (plan_status r.ops (record restore { status = old }) report last).status;
      }
          ≡ restore =
        rw (← reported) refl in
      let quiet =
        set_status_quiet restore report s
          (subst (λ (b : Restore). (plan_status r.ops b report last).patch ≡ false) same patch)
          (subst (λ (b : Restore). (plan_status r.ops b report last).event ≡ false) same event) in
      rw (quiet, resume) refl

  -- For a Restore that passes every check, whose owned objects can all be written, whose holder, if
  -- any, is available, and whose status is the one of an earlier report Synced on the same CronJob,
  -- holder and last Job, Reconcile ends with the state after the writes to the owned objects: it
  -- writes no status, records no event, and asks for no requeue. It relies on the documented behaviour
  -- of meta.SetStatusCondition and of deep equality.
  pub reconcile_restore_converged :
      (req : ObjectKey) (s : Machine W) (restore : Restore)
      → IsLawful r.ops
      → r.client.get_restore req s.world ≡ ok restore
      → (admitted : IsAdmitted r restore s)
      → IsReported restore
          (synced admitted.applied.0 (status_holder r restore))
          (after_writes r restore s)
      → reconcile_request r req s ≡ (ok 0, after_writes r restore s)
  unfolding requeue_on_conflict
  reconcile_restore_converged req s restore lawful found admitted reported =
      let quiet =
        report_and_quiet restore (synced admitted.applied.0 (status_holder r restore)) 0
          (after_writes r restore s) lawful (λ e. ground (arith, eq_iff phase_ready "", e))
          reported in
      reconcile_restore_synced r req s restore found admitted ∙ rw quiet refl
