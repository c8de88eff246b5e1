-- ===== src/Controller/Backup/Grows.antt =====
-- The number of writes of one Reconcile of internal/controller/backup_controller.go.
use karkive.Prelude.{
  ℕ, String, Bool, ◌+◌, ◌≤◌, ◌&&◌, inl, inr, length, arith, Bool-cases, Option-cases,
}
use karkive.Errors.{Error}
use karkive.Kube.Objects.{CronJob}
use karkive.Api.Backup.{Backup}
use karkive.Validation.{validate_backup_spec}
use karkive.Resources.Labels.{label_backup_name, kind_backup}
use karkive.Controller.Client.{ObjectKey}
use karkive.Controller.LastJob.{last_job_status}
use karkive.Controller.Action.{Machine, write}
use karkive.Controller.Action.Grows.{Grows, weaken, Grows-try, grows_rules}
use karkive.Controller.Owned.Grows.{ensure_owned-Grows, delete_legacy_owned-Grows}
use karkive.Controller.Report.{Reconciler, Report}
use karkive.Controller.Backup.Status.{plan_status, record_event, set_status, report_and, fail}
use karkive.Controller.Backup.Reconcile.{
  refused_source, check_source, refused_secret, finish, apply_owned, check_secret, check_spec,
  reconcile_backup, reconcile, reconcile_request,
}

module _ {W : Type 0} (r : Reconciler W) where
  length-record_event :
      (due : Bool) (backup : Backup) (report : Report) (s : Machine W)
      → length (record_event r due backup report s).calls ≤ 1 + length s.calls
  unfolding record_event
  length-record_event due backup report s = elim (Bool-cases (r.has_recorder && due)) [
    | inl b ↦ rw b (omega arith)
    | inr b ↦ rw b (omega arith)
  ]

  set_status-Grows : (backup : Backup) (report : Report) → Grows 2 (set_status r backup report)
  unfolding set_status write
  set_status-Grows backup report = record {
    at = λ s.
        let last =
          last_job_status r.client backup.meta.namespace label_backup_name backup.meta.name
            kind_backup s.world in
        let plan = plan_status r.ops backup report last in
        let logged = length-record_event plan.event backup report s in
        elim (Bool-cases plan.patch) [
          | inl b ↦ rw b (omega (arith, logged))
          | inr b ↦ rw b (omega (arith, logged))
        ];
  }

  report_and-Grows :
      (backup : Backup) (report : Report) (delay : ℕ) → Grows 2 (report_and r backup report delay)
  unfolding report_and
  report_and-Grows backup report delay = search (set_status-Grows, grows_rules)

  -- The same bound as that of the path that goes on.
  refused-Grows :
      (backup : Backup) (report : Report) (delay : ℕ) → Grows 8 (report_and r backup report delay)
  refused-Grows backup report delay =
      weaken 2 8 (omega arith) (report_and-Grows backup report delay)

  fail-Grows :
      {A : Type 0} (backup : Backup) (reason : String) (e : Error)
      → Grows 2 (fail r {A = A} backup reason e)
  unfolding fail
  fail-Grows backup reason e = search (set_status-Grows, grows_rules)

  finish-Grows : (backup : Backup) (cron : CronJob) → Grows 2 (finish r backup cron)
  unfolding finish
  finish-Grows backup cron = search (report_and-Grows, fail-Grows, grows_rules)

  apply_owned-Grows : (backup : Backup) → Grows 8 (apply_owned r backup)
  unfolding apply_owned
  apply_owned-Grows backup =
      Grows-try 4 4 _ _ _ (ensure_owned-Grows r.client r.quantities _)
        (λ e. weaken 2 4 (omega arith) (fail-Grows backup _ e))
        λ cron.
          Grows-try 2 2 _ _ _ (delete_legacy_owned-Grows r.client _ _) (λ e. fail-Grows backup _ e)
            λ _. finish-Grows backup cron

  refused_source-Grows : (backup : Backup) (e : Error) → Grows 8 (refused_source r backup e)
  unfolding refused_source
  refused_source-Grows backup e = search (refused-Grows, grows_rules)

  check_source-Grows : (backup : Backup) → Grows 8 (check_source r backup)
  unfolding check_source
  check_source-Grows backup = search (refused_source-Grows, apply_owned-Grows, grows_rules)

  refused_secret-Grows : (backup : Backup) (e : Error) → Grows 8 (refused_secret r backup e)
  unfolding refused_secret
  refused_secret-Grows backup e = search (refused-Grows, grows_rules)

  check_secret-Grows : (backup : Backup) → Grows 8 (check_secret r backup)
  unfolding check_secret
  check_secret-Grows backup = search (refused_secret-Grows, check_source-Grows, grows_rules)

  check_spec-Grows :
      (backup : Backup) (s : Machine W)
      → length (check_spec r backup s).1.calls ≤ 8 + length s.calls
  unfolding check_spec
  check_spec-Grows backup s = elim (Option-cases (validate_backup_spec r.external backup.spec)) [
    | inl valid ↦ rw (check_spec, valid) ((check_secret-Grows backup).at s)
    | inr (e, invalid) ↦ rw (check_spec, invalid) ((refused-Grows backup _ 0).at s)
  ]

  reconcile_backup-Grows : (backup : Backup) → Grows 8 (reconcile_backup r backup)
  unfolding reconcile_backup
  reconcile_backup-Grows backup =
      let checked : Grows 8 (check_spec r backup) = record { at = check_spec-Grows backup } in
      search (refused-Grows, grows_rules)

  -- One Reconcile requests at most eight writes of the API server, events included, whatever the
  -- cluster holds and answers.
  pub reconcile_backup_calls :
      (req : ObjectKey) (s : Machine W)
      → length (reconcile_request r req s).1.calls ≤ 8 + length s.calls
  unfolding reconcile_request reconcile
  reconcile_backup_calls req s =
      let all : Grows 8 (reconcile r req) = search (reconcile_backup-Grows, grows_rules) in all.at s
