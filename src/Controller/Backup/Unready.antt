-- ===== src/Controller/Backup/Unready.antt =====
-- The reports of internal/controller/backup_controller.go that do not say Ready.
use karkive.Prelude.{ℕ, String, ◌≡◌, ◌≢◌, inl, inr, Bool, arith, sym, ◌∙◌, ◌&&◌, Bool-cases}
use karkive.Errors.{Error}
use karkive.Api.Backup.{Backup, phase_ready}
use karkive.Controller.LastJob.{last_job_status}
use karkive.Resources.Labels.{label_backup_name, kind_backup}
use karkive.Controller.Action.{Machine, write}
use karkive.Controller.Action.Keeps.{Keeps, keeps_rules}
use karkive.Controller.Report.Unready.{NoReady, error-ne-ready, pending-ne-ready}
use karkive.Controller.Report.{Reconciler, Report}
use karkive.Controller.Backup.Status.{record_event, set_status, report_and, fail, plan_status}
use karkive.Controller.Backup.Reconcile.{refused_source, refused_secret}

module _ {W : Type 0} (r : Reconciler W) where
  phase-plan_status :
      (backup : Backup) (report : Report) (last : _)
      → (plan_status r.ops backup report last).status.phase ≡ report.phase
  unfolding plan_status
  phase-plan_status backup report last = ground arith

  record_event-NoReady :
      (due : Bool) (backup : Backup) (report : Report) (s : Machine W)
      → NoReady s.calls
      → NoReady (record_event r due backup report s).calls
  unfolding record_event
  record_event-NoReady due backup report s h = elim (Bool-cases (r.has_recorder && due)) [
    | inl b ↦ rw b ((λ e. cc e), h)
    | inr b ↦ rw b h
  ]

  set_status-NoReady :
      (backup : Backup) (report : Report)
      → report.phase ≢ phase_ready
      → Keeps NoReady (set_status r backup report)
  unfolding set_status write
  set_status-NoReady backup report other = record {
    at = λ s h.
        let last =
          last_job_status r.client backup.meta.namespace label_backup_name backup.meta.name
            kind_backup s.world in
        let plan = plan_status r.ops backup report last in
        let h' = record_event-NoReady plan.event backup report s h in
        elim (Bool-cases plan.patch) [
          | inl b ↦ rw b ((λ e. other (sym (phase-plan_status backup report last) ∙ cc e)), h')
          | inr b ↦ rw b h'
        ];
  }

  pub report_and-NoReady :
      (backup : Backup) (report : Report) (delay : ℕ)
      → report.phase ≢ phase_ready
      → Keeps NoReady (report_and r backup report delay)
  unfolding report_and
  report_and-NoReady backup report delay other = search (keeps_rules, set_status-NoReady)

  pub fail-NoReady :
      {A : Type 0} (backup : Backup) (reason : String) (e : Error)
      → Keeps NoReady (fail r {A = A} backup reason e)
  unfolding fail
  fail-NoReady backup reason e = search (keeps_rules, set_status-NoReady, error-ne-ready)

  pub refused_source-NoReady :
      (backup : Backup) (e : Error) → Keeps NoReady (refused_source r backup e)
  unfolding refused_source
  refused_source-NoReady backup e =
      search (keeps_rules, report_and-NoReady, error-ne-ready, pending-ne-ready)

  pub refused_secret-NoReady :
      (backup : Backup) (e : Error) → Keeps NoReady (refused_secret r backup e)
  unfolding refused_secret
  refused_secret-NoReady backup e =
      search (keeps_rules, report_and-NoReady, error-ne-ready, pending-ne-ready)
