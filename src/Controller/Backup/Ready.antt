-- ===== src/Controller/Backup/Ready.antt =====
-- When a Backup is reported Ready: internal/controller/backup_controller.go.
use karkive.Prelude.{◌≡◌, ◌⊎◌, inl, inr, true, false, not, arith, is_some, sym, ◌∙◌, Option-cases}
use mathlib.Core.Bool.{false≢true}
use karkive.Errors.{ok}
use karkive.Kube.Objects.{CronJob, Deployment}
use karkive.Api.Backup.{Backup}
use karkive.Validation.{validate_backup_spec}
use karkive.Validation.Predicates.{IsBackupSpec}
use karkive.Validation.Laws.{validate_backup_spec_iff}
use karkive.Resources.Names.{backup_owned_name}
use karkive.Resources.Engine.{engine_implemented}
use karkive.Resources.Runtime.{needs_volume_holder, volume_holder_name}
use karkive.Resources.PvcSource.{is_pvc_backup}
use karkive.JobStatus.{set_time}
use karkive.Controller.Client.{ObjectKey}
use karkive.Controller.Action.{Machine, pure, lift, read}
use karkive.Controller.Action.Keeps.{unless_try, unless_if}
use karkive.Controller.Owned.{ensure_owned, delete_legacy_owned, volume_holder_available}
use karkive.Controller.Owned.Written.{IsWritten, owned-IsWritten}
use karkive.Controller.Owned.Keeps.{Keeps-ensure_owned, Keeps-delete_legacy_owned}
use karkive.Controller.Report.Unready.{
  NoReady, error-ne-ready, pending-ne-ready, unsupported-ne-ready, writes-NoReady,
}
use karkive.Controller.Report.{Reconciler, waiting, synced, holder_requeue}
use karkive.Controller.Backup.Status.{report_and}
use karkive.Controller.Backup.Inputs.{ensure_secret, check_source_pvc}
use karkive.Controller.Backup.Reconcile.{
  owned_resources, finish, apply_owned, check_source, check_secret, check_spec, reconcile_backup,
  reconcile, reconcile_request,
}
use karkive.Controller.Backup.Unready.{
  report_and-NoReady, fail-NoReady, refused_source-NoReady, refused_secret-NoReady,
}

module _ {W : Type 0} (r : Reconciler W) where
  -- With a holder, its Deployment is there and has an available replica.
  abbrev pub HolderAvailable : Backup → Machine W → Type 0
  HolderAvailable backup s =
      needs_volume_holder backup.spec.runtime ≡ true
      → (deploy : Deployment) × (r.client.get_deployment
            (record {
              namespace = backup.meta.namespace;
              name = volume_holder_name (backup_owned_name backup);
            })
            s.world
          ≡ ok deploy)
        × (volume_holder_available deploy ≡ true)

  finish-NoReady :
      (backup : Backup) (cron : CronJob) (s : Machine W)
      → NoReady s.calls
      → NoReady (finish r backup cron s).1.calls ⊎ HolderAvailable backup s
  unfolding finish read
  finish-NoReady backup cron s h =
      let holder = volume_holder_name (backup_owned_name backup) in
      unless_if NoReady _ _ _ s
        (λ held.
          unless_try NoReady _ _ _ s (λ e _. (fail-NoReady r backup "VolumeHolderError" e).at s h)
            λ deploy found.
              unless_if NoReady (not (volume_holder_available deploy))
                (report_and r backup (waiting cron holder) holder_requeue)
                (report_and r backup (synced cron holder) 0) s
                (λ _. inl ((report_and-NoReady r backup _ holder_requeue pending-ne-ready).at s h))
                (λ up. inr (λ _. (deploy, found, ground (arith, up)))))
        (λ free. inr (λ held. absurd (false≢true (sym free ∙ held))))

  -- ensureOwned and the removal of the legacy objects succeed, and then the holder is available.
  abbrev pub Applied : Backup → Machine W → Type 0
  Applied backup s =
      (cron : CronJob) × ((ensure_owned r.client r.quantities (owned_resources r backup) s).0
        ≡ ok cron)
      × (let s1 = (ensure_owned r.client r.quantities (owned_resources r backup) s).1 in
          let legacy = delete_legacy_owned r.client backup.meta (backup_owned_name backup) s1 in
          (legacy.0 ≡ ok tt) × HolderAvailable backup legacy.1)

  apply_owned-NoReady :
      (backup : Backup) (s : Machine W)
      → NoReady s.calls
      → NoReady (apply_owned r backup s).1.calls ⊎ Applied backup s
  unfolding apply_owned
  apply_owned-NoReady backup s h =
      let m = ensure_owned r.client r.quantities (owned_resources r backup) in
      let s1 = (m s).1 in
      let h1 =
        (Keeps-ensure_owned NoReady r.client writes-NoReady r.quantities
            (owned_resources r backup)).at
          s h in
      let legacy = delete_legacy_owned r.client backup.meta (backup_owned_name backup) in
      let h2 =
        (Keeps-delete_legacy_owned NoReady r.client writes-NoReady backup.meta
            (backup_owned_name backup)).at
          s1 h1 in
      unless_try NoReady m _ _ s (λ e _. (fail-NoReady r backup _ e).at s1 h1)
        λ cron done.
          unless_try NoReady legacy _ _ s1
            (λ e _. (fail-NoReady r backup "LegacyCleanupError" e).at (legacy s1).1 h2)
            λ u gone. elim (finish-NoReady backup cron (legacy s1).1 h2) [
              | inl quiet ↦ inl quiet
              | inr held ↦ inr (cron, done, (gone, held))
            ]

  -- The source claim of engine pvc has passed its check.
  abbrev pub SourceChecked : Backup → Machine W → Type 0
  SourceChecked backup s =
      is_pvc_backup backup ≡ true
      → check_source_pvc r backup (backup_owned_name backup) s.world ≡ ok tt

  check_source-NoReady :
      (backup : Backup) (s : Machine W)
      → NoReady s.calls
      → NoReady (check_source r backup s).1.calls ⊎ (SourceChecked backup s × Applied backup s)
  unfolding check_source read
  check_source-NoReady backup s h =
      unless_if NoReady _ _ _ s
        (λ pvc.
          unless_try NoReady _ _ _ s (λ e _. (refused_source-NoReady r backup e).at s h)
            λ u checked. elim (apply_owned-NoReady backup s h) [
              | inl quiet ↦ inl quiet
              | inr applied ↦ inr ((λ _. checked), applied)
            ])
        λ other. elim (apply_owned-NoReady backup s h) [
          | inl quiet ↦ inl quiet
          | inr applied ↦ inr ((λ pvc. absurd (false≢true (sym other ∙ pvc))), applied)
        ]

  check_secret-NoReady :
      (backup : Backup) (s : Machine W)
      → NoReady s.calls
      → NoReady (check_secret r backup s).1.calls
        ⊎ ((ensure_secret r backup s.world ≡ ok tt) × SourceChecked backup s × Applied backup s)
  unfolding check_secret read
  check_secret-NoReady backup s h =
      unless_try NoReady _ _ _ s (λ e _. (refused_secret-NoReady r backup e).at s h)
        λ u found. elim (check_source-NoReady backup s h) [
          | inl quiet ↦ inl quiet
          | inr (checked, applied) ↦ inr (found, checked, applied)
        ]

  abbrev pub SpecChecked : Backup → Machine W → Type 0
  SpecChecked backup s =
      IsBackupSpec r.external backup.spec
      × (ensure_secret r backup s.world ≡ ok tt)
      × SourceChecked backup s
      × Applied backup s

  check_spec-NoReady :
      (backup : Backup) (s : Machine W)
      → NoReady s.calls
      → NoReady (check_spec r backup s).1.calls ⊎ SpecChecked backup s
  unfolding check_spec
  check_spec-NoReady backup s h =
      elim (Option-cases (validate_backup_spec r.external backup.spec)) [
        | inr (e, invalid) ↦
            rw (check_spec, invalid) (inl ((report_and-NoReady r backup _ 0 error-ne-ready).at s h))
        | inl valid ↦
            rw (check_spec, valid)
              (elim (check_secret-NoReady backup s h) [
                | inl quiet ↦ inl quiet
                | inr (found, checked, applied) ↦ inr (
                  (validate_backup_spec_iff r.external backup.spec).0 valid,
                  found,
                  checked,
                  applied,
                )
              ])
      ]

  -- All that has to hold of a Backup before it is reported Ready.
  pub record IsAdmitted (backup : Backup) (s : Machine W) : Type 0 where
    pub live : is_some (set_time backup.meta.deletion_timestamp) ≡ false
    pub engine : engine_implemented backup.spec.engine ≡ true
    pub valid : IsBackupSpec r.external backup.spec
    pub secret : ensure_secret r backup s.world ≡ ok tt
    pub source : SourceChecked backup s
    pub applied : Applied backup s

  reconcile_backup-NoReady :
      (backup : Backup) (s : Machine W)
      → NoReady s.calls
      → NoReady (reconcile_backup r backup s).1.calls ⊎ IsAdmitted backup s
  unfolding reconcile_backup pure
  reconcile_backup-NoReady backup s h =
      unless_if NoReady _ _ _ s (λ _. inl h)
        λ live.
          unless_if NoReady (not (engine_implemented backup.spec.engine)) _ (check_spec r backup) s
            (λ _. inl ((report_and-NoReady r backup _ 0 unsupported-ne-ready).at s h))
            λ engine. elim (check_spec-NoReady backup s h) [
              | inl quiet ↦ inl quiet
              | inr (valid, found, checked, applied) ↦ inr (record {
                live = live;
                engine = ground (arith, engine);
                valid = valid;
                secret = found;
                source = checked;
                applied = applied;
              })
            ]

  -- ensureOwned and deleteLegacyOwned have made their writes, from the state that is given.
  abbrev pub Wrote : Backup → Machine W → Type 0
  Wrote backup s =
      IsWritten r.client r.quantities (owned_resources r backup) backup.meta
        (backup_owned_name backup) s
        (delete_legacy_owned r.client backup.meta (backup_owned_name backup)
          (ensure_owned r.client r.quantities (owned_resources r backup) s).1).1

  pub applied-Wrote : (backup : Backup) (s : Machine W) → Applied backup s → Wrote backup s
  applied-Wrote backup s (cron, done, (gone, available)) =
      owned-IsWritten r.client r.quantities (owned_resources r backup) backup.meta
        (backup_owned_name backup) s cron done gone

  -- Reconcile writes a status with the phase Ready only for a Backup that is there and is not
  -- being deleted, whose engine is implemented, whose spec is valid, whose Secret has the
  -- required keys, and whose source claim passes its check, if the engine is pvc; and only after
  -- it has applied every owned object, in order, and dealt with the ConfigMap and the CronJob of
  -- the old name, if that differs: each is not there, or is not controlled by the Backup and
  -- stays, or has been deleted or had gone by then. The volume holder, if there is one, is then
  -- available.
  pub reconcile_ready :
      (req : ObjectKey) (s : Machine W)
      → NoReady s.calls
      → NoReady (reconcile_request r req s).1.calls
        ⊎ ((backup : Backup) × (r.client.get_backup req s.world ≡ ok backup)
            × IsAdmitted backup s
            × Wrote backup s)
  unfolding reconcile_request reconcile read lift
  reconcile_ready req s h =
      unless_try NoReady _ _ _ s (λ e _. h)
        λ backup found. elim (reconcile_backup-NoReady backup s h) [
          | inl quiet ↦ inl quiet
          | inr admitted ↦ inr (backup, found, admitted, applied-Wrote backup s admitted.applied)
        ]
