-- ===== src/Controller/Backup/Synced.antt =====
-- The path of Reconcile in internal/controller/backup_controller.go on which every check passes
-- and every write succeeds.
use karkive.Prelude.{◌≡◌, refl, ◌∙◌, inl, inr, Bool-cases, String, if◌then◌else◌}
use karkive.Errors.{ok}
use karkive.Kube.Objects.{CronJob}
use karkive.Api.Backup.{Backup}
use karkive.Validation.Laws.{validate_backup_spec_iff}
use karkive.Resources.Names.{backup_owned_name}
use karkive.Resources.Runtime.{needs_volume_holder, volume_holder_name}
use karkive.Resources.PvcSource.{is_pvc_backup}
use karkive.Controller.Client.{ObjectKey}
use karkive.Controller.Action.{Machine, try, resume, read}
use karkive.Controller.Owned.{ensure_owned, delete_legacy_owned, requeue_on_conflict}
use karkive.Controller.Report.{Reconciler, synced}
use karkive.Controller.Backup.Status.{report_and}
use karkive.Controller.Backup.Reconcile.{
  owned_resources, finish, apply_owned, check_source, check_secret, check_spec, reconcile_backup,
  reconcile, reconcile_request,
}
use karkive.Controller.Backup.Ready.{HolderAvailable, Applied, SourceChecked, IsAdmitted}

module _ {W : Type 0} (r : Reconciler W) where
  -- The name of the holder that the status shows.
  abbrev pub status_holder : Backup → String
  status_holder backup =
      if needs_volume_holder backup.spec.runtime
      then volume_holder_name (backup_owned_name backup)
      else ""

  finish-synced :
      (backup : Backup) (cron : CronJob) (s : Machine W)
      → HolderAvailable r backup s
      → finish r backup cron s ≡ report_and r backup (synced cron (status_holder backup)) 0 s
  unfolding finish try read
  finish-synced backup cron s available =
      elim (Bool-cases (needs_volume_holder backup.spec.runtime)) [
        | inr free ↦ rw (free) refl
        | inl held ↦ let (deploy, found, up) = available held in rw (held, found, resume, up) refl
      ]

  -- The state after ensureOwned and after the removal of the legacy objects.
  abbrev pub after_writes : Backup → Machine W → Machine W
  after_writes backup s =
      (delete_legacy_owned r.client backup.meta (backup_owned_name backup)
        (ensure_owned r.client r.quantities (owned_resources r backup) s).1).1

  apply_owned-synced :
      (backup : Backup) (s : Machine W) (applied : Applied r backup s)
      → apply_owned r backup s
        ≡ report_and r backup (synced applied.0 (status_holder backup)) 0 (after_writes backup s)
  unfolding apply_owned try
  apply_owned-synced backup s (cron, done, (gone, available)) =
      rw (done, resume, gone, resume) (finish-synced backup cron (after_writes backup s) available)

  check_source-synced :
      (backup : Backup) (s : Machine W)
      → SourceChecked r backup s
      → check_source r backup s ≡ apply_owned r backup s
  unfolding check_source try read
  check_source-synced backup s checked = elim (Bool-cases (is_pvc_backup backup)) [
    | inr other ↦ rw other refl
    | inl pvc ↦ rw (pvc, checked pvc, resume) refl
  ]

  check_secret-synced :
      (backup : Backup) (s : Machine W)
      → IsAdmitted r backup s
      → check_secret r backup s ≡ apply_owned r backup s
  unfolding check_secret try read
  check_secret-synced backup s admitted =
      rw (admitted.secret, resume) (check_source-synced backup s admitted.source)

  check_spec-synced :
      (backup : Backup) (s : Machine W)
      → IsAdmitted r backup s
      → check_spec r backup s ≡ check_secret r backup s
  unfolding check_spec
  check_spec-synced backup s admitted =
      let valid = (validate_backup_spec_iff r.external backup.spec).1 admitted.valid in
      rw (check_spec, valid) refl

  reconcile_backup-synced :
      (backup : Backup) (s : Machine W) (admitted : IsAdmitted r backup s)
      → reconcile_backup r backup s
        ≡ report_and r backup
            (synced admitted.applied.0 (status_holder backup))
            0
            (after_writes backup s)
  unfolding reconcile_backup
  reconcile_backup-synced backup s admitted =
      let checked : reconcile_backup r backup s ≡ check_spec r backup s =
        rw (admitted.live, admitted.engine) refl in
      checked
      ∙ check_spec-synced backup s admitted
      ∙ check_secret-synced backup s admitted
      ∙ apply_owned-synced backup s admitted.applied

  -- For a Backup that passes every check, whose owned objects can all be written, and whose holder, if
  -- any, is available, Reconcile does exactly this: it applies the owned objects, removes the legacy
  -- ones, and reports the Backup as Synced with the CronJob that was applied; it returns the error of
  -- that report, if there is one, and a conflict as a requeue.
  pub reconcile_synced :
      (req : ObjectKey) (s : Machine W) (backup : Backup)
      → r.client.get_backup req s.world ≡ ok backup
      → (admitted : IsAdmitted r backup s)
      → reconcile_request r req s ≡ (
          let (result, s') =
            report_and r backup
              (synced admitted.applied.0 (status_holder backup))
              0
              (after_writes backup s) in
          (requeue_on_conflict result, s'))
  unfolding reconcile_request reconcile try read
  reconcile_synced req s backup found admitted =
      rw (found, resume, reconcile_backup-synced backup s admitted) refl
