-- ===== src/Controller/Restore/Grows.antt =====
-- The number of writes of one Reconcile of internal/controller/restore_controller.go.
use karkive.Prelude.{
  ℕ, String, Bool, ◌+◌, ◌≤◌, ◌&&◌, inl, inr, length, arith, Bool-cases, Option-cases,
}
use karkive.Errors.{Error}
use karkive.Kube.Objects.{CronJob}
use karkive.Api.Restore.{Restore}
use karkive.Validation.{validate_restore_spec}
use karkive.Resources.Labels.{label_restore_name, kind_restore}
use karkive.Controller.Client.{ObjectKey}
use karkive.Controller.LastJob.{last_job_status}
use karkive.Controller.Action.{Machine, write}
use karkive.Controller.Action.Grows.{Grows, weaken, Grows-try, grows_rules}
use karkive.Controller.Owned.Grows.{ensure_owned-Grows, delete_legacy_owned-Grows}
use karkive.Controller.Report.{Reconciler, Report}
use karkive.Controller.Restore.Status.{plan_status, record_event, set_status, report_and, fail}
use karkive.Controller.Restore.Reconcile.{
  refused_target, check_target, refused_secret, finish, apply_owned, check_secret, check_spec,
  reconcile_restore, reconcile, reconcile_request,
}

module _ {W : Type 0} (r : Reconciler W) where
  length-record_event :
      (due : Bool) (restore : Restore) (report : Report) (s : Machine W)
      → length (record_event r due restore report s).calls ≤ 1 + length s.calls
  unfolding record_event
  length-record_event due restore report s = elim (Bool-cases (r.has_recorder && due)) [
    | inl b ↦ rw b (omega arith)
    | inr b ↦ rw b (omega arith)
  ]

  set_status-Grows : (restore : Restore) (report : Report) → Grows 2 (set_status r restore report)
  unfolding set_status write
  set_status-Grows restore report = record {
    at = λ s.
        let last =
          last_job_status r.client restore.meta.namespace label_restore_name restore.meta.name
            kind_restore s.world in
        let plan = plan_status r.ops restore report last in
        let logged = length-record_event plan.event restore report s in
        elim (Bool-cases plan.patch) [
          | inl b ↦ rw b (omega (arith, logged))
          | inr b ↦ rw b (omega (arith, logged))
        ];
  }

  report_and-Grows :
      (restore : Restore) (report : Report) (delay : ℕ)
      → Grows 2 (report_and r restore report delay)
  unfolding report_and
  report_and-Grows restore report delay = search (set_status-Grows, grows_rules)

  -- The same bound as that of the path that goes on.
  refused-Grows :
      (restore : Restore) (report : Report) (delay : ℕ)
      → Grows 8 (report_and r restore report delay)
  refused-Grows restore report delay =
      weaken 2 8 (omega arith) (report_and-Grows restore report delay)

  fail-Grows :
      {A : Type 0} (restore : Restore) (reason : String) (e : Error)
      → Grows 2 (fail r {A = A} restore reason e)
  unfolding fail
  fail-Grows restore reason e = search (set_status-Grows, grows_rules)

  finish-Grows : (restore : Restore) (cron : CronJob) → Grows 2 (finish r restore cron)
  unfolding finish
  finish-Grows restore cron = search (report_and-Grows, fail-Grows, grows_rules)

  apply_owned-Grows : (restore : Restore) → Grows 8 (apply_owned r restore)
  unfolding apply_owned
  apply_owned-Grows restore =
      Grows-try 4 4 _ _ _ (ensure_owned-Grows r.client r.quantities _)
        (λ e. weaken 2 4 (omega arith) (fail-Grows restore _ e))
        λ cron.
          Grows-try 2 2 _ _ _ (delete_legacy_owned-Grows r.client _ _) (λ e. fail-Grows restore _ e)
            λ _. finish-Grows restore cron

  refused_target-Grows : (restore : Restore) (e : Error) → Grows 8 (refused_target r restore e)
  unfolding refused_target
  refused_target-Grows restore e = search (refused-Grows, grows_rules)

  check_target-Grows : (restore : Restore) → Grows 8 (check_target r restore)
  unfolding check_target
  check_target-Grows restore = search (refused_target-Grows, apply_owned-Grows, grows_rules)

  refused_secret-Grows : (restore : Restore) (e : Error) → Grows 8 (refused_secret r restore e)
  unfolding refused_secret
  refused_secret-Grows restore e = search (refused-Grows, grows_rules)

  check_secret-Grows : (restore : Restore) → Grows 8 (check_secret r restore)
  unfolding check_secret
  check_secret-Grows restore = search (refused_secret-Grows, check_target-Grows, grows_rules)

  check_spec-Grows :
      (restore : Restore) (s : Machine W)
      → length (check_spec r restore s).1.calls ≤ 8 + length s.calls
  unfolding check_spec
  check_spec-Grows restore s = elim (Option-cases (validate_restore_spec r.external restore.spec)) [
    | inl valid ↦ rw (check_spec, valid) ((check_secret-Grows restore).at s)
    | inr (e, invalid) ↦ rw (check_spec, invalid) ((refused-Grows restore _ 0).at s)
  ]

  reconcile_restore-Grows : (restore : Restore) → Grows 8 (reconcile_restore r restore)
  unfolding reconcile_restore
  reconcile_restore-Grows restore =
      let checked : Grows 8 (check_spec r restore) = record { at = check_spec-Grows restore } in
      search (refused-Grows, grows_rules)

  -- One Reconcile requests at most eight writes of the API server, events included, whatever the
  -- cluster holds and answers.
  pub reconcile_restore_calls :
      (req : ObjectKey) (s : Machine W)
      → length (reconcile_request r req s).1.calls ≤ 8 + length s.calls
  unfolding reconcile_request reconcile
  reconcile_restore_calls req s =
      let all : Grows 8 (reconcile r req) = search (reconcile_restore-Grows, grows_rules) in
      all.at s
