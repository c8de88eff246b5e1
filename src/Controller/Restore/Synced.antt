-- ===== src/Controller/Restore/Synced.antt =====
-- The path of Reconcile in internal/controller/restore_controller.go on which every check passes
-- and every write succeeds.
use karkive.Prelude.{◌≡◌, refl, ◌∙◌, inl, inr, Bool-cases, String, if◌then◌else◌}
use karkive.Errors.{ok}
use karkive.Kube.Objects.{CronJob}
use karkive.Api.Restore.{Restore}
use karkive.Validation.Laws.{validate_restore_spec_iff}
use karkive.Resources.Names.{restore_owned_name}
use karkive.Resources.Runtime.{needs_volume_holder, volume_holder_name}
use karkive.Controller.Client.{ObjectKey}
use karkive.Controller.Action.{Machine, try, resume, read}
use karkive.Controller.Owned.{ensure_owned, delete_legacy_owned, requeue_on_conflict}
use karkive.Controller.Report.{Reconciler, synced}
use karkive.Controller.Restore.Status.{report_and}
use karkive.Controller.Restore.Reconcile.{
  owned_resources, finish, apply_owned, check_target, check_secret, check_spec, reconcile_restore,
  reconcile, reconcile_request,
}
use karkive.Controller.Restore.Ready.{HolderAvailable, Applied, IsAdmitted}

module _ {W : Type 0} (r : Reconciler W) where
  -- The name of the holder that the status shows.
  abbrev pub status_holder : Restore → String
  status_holder restore =
      if needs_volume_holder restore.spec.runtime
      then volume_holder_name (restore_owned_name restore)
      else ""

  finish-synced :
      (restore : Restore) (cron : CronJob) (s : Machine W)
      → HolderAvailable r restore s
      → finish r restore cron s ≡ report_and r restore (synced cron (status_holder restore)) 0 s
  unfolding finish try read
  finish-synced restore cron s available =
      elim (Bool-cases (needs_volume_holder restore.spec.runtime)) [
        | inr free ↦ rw (free) refl
        | inl held ↦ let (deploy, found, up) = available held in rw (held, found, resume, up) refl
      ]

  -- The state after ensureOwned and after the removal of the legacy objects.
  abbrev pub after_writes : Restore → Machine W → Machine W
  after_writes restore s =
      (delete_legacy_owned r.client restore.meta (restore_owned_name restore)
        (ensure_owned r.client r.quantities (owned_resources r restore) s).1).1

  apply_owned-synced :
      (restore : Restore) (s : Machine W) (applied : Applied r restore s)
      → apply_owned r restore s
        ≡ report_and r restore (synced applied.0 (status_holder restore)) 0 (after_writes restore s)
  unfolding apply_owned try
  apply_owned-synced restore s (cron, done, (gone, available)) =
      rw (done, resume, gone, resume)
        (finish-synced restore cron (after_writes restore s) available)

  check_target-synced :
      (restore : Restore) (s : Machine W)
      → IsAdmitted r restore s
      → check_target r restore s ≡ apply_owned r restore s
  unfolding check_target try read
  check_target-synced restore s admitted = rw (admitted.target, resume) refl

  check_secret-synced :
      (restore : Restore) (s : Machine W)
      → IsAdmitted r restore s
      → check_secret r restore s ≡ apply_owned r restore s
  unfolding check_secret try read
  check_secret-synced restore s admitted =
      rw (admitted.secret, resume) (check_target-synced restore s admitted)

  check_spec-synced :
      (restore : Restore) (s : Machine W)
      → IsAdmitted r restore s
      → check_spec r restore s ≡ check_secret r restore s
  unfolding check_spec
  check_spec-synced restore s admitted =
      let valid = (validate_restore_spec_iff r.external restore.spec).1 admitted.valid in
      rw (check_spec, valid) refl

  reconcile_restore-synced :
      (restore : Restore) (s : Machine W) (admitted : IsAdmitted r restore s)
      → reconcile_restore r restore s
        ≡ report_and r restore
            (synced admitted.applied.0 (status_holder restore))
            0
            (after_writes restore s)
  unfolding reconcile_restore
  reconcile_restore-synced restore s admitted =
      let checked : reconcile_restore r restore s ≡ check_spec r restore s =
        rw (admitted.live, admitted.engine) refl in
      checked
      ∙ check_spec-synced restore s admitted
      ∙ check_secret-synced restore s admitted
      ∙ apply_owned-synced restore s admitted.applied

  -- For a Restore that passes every check, whose owned objects can all be written, and whose holder, if
  -- any, is available, Reconcile does exactly this: it applies the owned objects, removes the legacy
  -- ones, and reports the Restore as Synced with the CronJob that was applied; it returns the error of
  -- that report, if there is one, and a conflict as a requeue.
  pub reconcile_restore_synced :
      (req : ObjectKey) (s : Machine W) (restore : Restore)
      → r.client.get_restore req s.world ≡ ok restore
      → (admitted : IsAdmitted r restore s)
      → reconcile_request r req s ≡ (
          let (result, s') =
            report_and r restore
              (synced admitted.applied.0 (status_holder restore))
              0
              (after_writes restore s) in
          (requeue_on_conflict result, s'))
  unfolding reconcile_request reconcile try read
  reconcile_restore_synced req s restore found admitted =
      rw (found, resume, reconcile_restore-synced restore s admitted) refl
