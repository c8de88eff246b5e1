-- ===== src/Controller/Restore/Unready.antt =====
-- The reports of internal/controller/restore_controller.go that do not say Ready.
use karkive.Prelude.{ℕ, String, ◌≡◌, ◌≢◌, inl, inr, Bool, arith, sym, ◌∙◌, ◌&&◌, Bool-cases}
use karkive.Errors.{Error}
use karkive.Api.Restore.{Restore}
use karkive.Api.Backup.{phase_ready}
use karkive.Controller.LastJob.{last_job_status}
use karkive.Resources.Labels.{label_restore_name, kind_restore}
use karkive.Controller.Action.{Machine, write}
use karkive.Controller.Action.Keeps.{Keeps, keeps_rules}
use karkive.Controller.Report.Unready.{NoReady, error-ne-ready, pending-ne-ready}
use karkive.Controller.Report.{Reconciler, Report}
use karkive.Controller.Restore.Status.{record_event, set_status, report_and, fail, plan_status}
use karkive.Controller.Restore.Reconcile.{refused_target, refused_secret}

module _ {W : Type 0} (r : Reconciler W) where
  phase-plan_status :
      (restore : Restore) (report : Report) (last : _)
      → (plan_status r.ops restore report last).status.phase ≡ report.phase
  unfolding plan_status
  phase-plan_status restore report last = ground arith

  record_event-NoReady :
      (due : Bool) (restore : Restore) (report : Report) (s : Machine W)
      → NoReady s.calls
      → NoReady (record_event r due restore report s).calls
  unfolding record_event
  record_event-NoReady due restore report s h = elim (Bool-cases (r.has_recorder && due)) [
    | inl b ↦ rw b ((λ e. cc e), h)
    | inr b ↦ rw b h
  ]

  set_status-NoReady :
      (restore : Restore) (report : Report)
      → report.phase ≢ phase_ready
      → Keeps NoReady (set_status r restore report)
  unfolding set_status write
  set_status-NoReady restore report other = record {
    at = λ s h.
        let last =
          last_job_status r.client restore.meta.namespace label_restore_name restore.meta.name
            kind_restore s.world in
        let plan = plan_status r.ops restore report last in
        let h' = record_event-NoReady plan.event restore report s h in
        elim (Bool-cases plan.patch) [
          | inl b ↦ rw b ((λ e. other (sym (phase-plan_status restore report last) ∙ cc e)), h')
          | inr b ↦ rw b h'
        ];
  }

  pub report_and-NoReady :
      (restore : Restore) (report : Report) (delay : ℕ)
      → report.phase ≢ phase_ready
      → Keeps NoReady (report_and r restore report delay)
  unfolding report_and
  report_and-NoReady restore report delay other = search (keeps_rules, set_status-NoReady)

  pub fail-NoReady :
      {A : Type 0} (restore : Restore) (reason : String) (e : Error)
      → Keeps NoReady (fail r {A = A} restore reason e)
  unfolding fail
  fail-NoReady restore reason e = search (keeps_rules, set_status-NoReady, error-ne-ready)

  pub refused_secret-NoReady :
      (restore : Restore) (e : Error) → Keeps NoReady (refused_secret r restore e)
  unfolding refused_secret
  refused_secret-NoReady restore e =
      search (keeps_rules, report_and-NoReady, error-ne-ready, pending-ne-ready)

  pub refused_target-NoReady :
      (restore : Restore) (e : Error) → Keeps NoReady (refused_target r restore e)
  unfolding refused_target
  refused_target-NoReady restore e =
      search (keeps_rules, report_and-NoReady, error-ne-ready, pending-ne-ready)
