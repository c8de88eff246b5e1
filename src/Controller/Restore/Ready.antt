-- ===== src/Controller/Restore/Ready.antt =====
-- When a Restore is reported Ready: internal/controller/restore_controller.go.
use karkive.Prelude.{◌≡◌, ◌⊎◌, inl, inr, true, false, not, arith, is_some, sym, ◌∙◌, Option-cases}
use mathlib.Core.Bool.{false≢true}
use karkive.Errors.{ok}
use karkive.Kube.Objects.{CronJob, Deployment}
use karkive.Api.Restore.{Restore}
use karkive.Validation.{validate_restore_spec}
use karkive.Validation.Predicates.{IsRestoreSpec}
use karkive.Validation.Laws.{validate_restore_spec_iff}
use karkive.Resources.Names.{restore_owned_name}
use karkive.Resources.Engine.{restore_engine_implemented}
use karkive.Resources.Runtime.{needs_volume_holder, volume_holder_name}
use karkive.JobStatus.{set_time}
use karkive.Controller.Client.{ObjectKey}
use karkive.Controller.Action.{Machine, pure, lift, read}
use karkive.Controller.Action.Keeps.{unless_try, unless_if}
use karkive.Controller.Owned.{ensure_owned, delete_legacy_owned, volume_holder_available}
use karkive.Controller.Owned.Written.{IsWritten, owned-IsWritten}
use karkive.Controller.Owned.Keeps.{Keeps-ensure_owned, Keeps-delete_legacy_owned}
use karkive.Controller.Report.Unready.{
  NoReady, error-ne-ready, pending-ne-ready, unsupported-ne-ready, writes-NoReady,
}
use karkive.Controller.Report.{Reconciler, waiting, synced, holder_requeue}
use karkive.Controller.Restore.Status.{report_and}
use karkive.Controller.Restore.Inputs.{ensure_job_secret, ensure_target_secret}
use karkive.Controller.Restore.Reconcile.{
  owned_resources, finish, apply_owned, check_target, check_secret, check_spec, reconcile_restore,
  reconcile, reconcile_request,
}
use karkive.Controller.Restore.Unready.{
  report_and-NoReady, fail-NoReady, refused_secret-NoReady, refused_target-NoReady,
}

module _ {W : Type 0} (r : Reconciler W) where
  -- With a holder, its Deployment is there and has an available replica.
  abbrev pub HolderAvailable : Restore → Machine W → Type 0
  HolderAvailable restore s =
      needs_volume_holder restore.spec.runtime ≡ true
      → (deploy : Deployment) × (r.client.get_deployment
            (record {
              namespace = restore.meta.namespace;
              name = volume_holder_name (restore_owned_name restore);
            })
            s.world
          ≡ ok deploy)
        × (volume_holder_available deploy ≡ true)

  finish-NoReady :
      (restore : Restore) (cron : CronJob) (s : Machine W)
      → NoReady s.calls
      → NoReady (finish r restore cron s).1.calls ⊎ HolderAvailable restore s
  unfolding finish read
  finish-NoReady restore cron s h =
      let holder = volume_holder_name (restore_owned_name restore) in
      unless_if NoReady _ _ _ s
        (λ held.
          unless_try NoReady _ _ _ s (λ e _. (fail-NoReady r restore "VolumeHolderError" e).at s h)
            λ deploy found.
              unless_if NoReady (not (volume_holder_available deploy))
                (report_and r restore (waiting cron holder) holder_requeue)
                (report_and r restore (synced cron holder) 0) s
                (λ _. inl ((report_and-NoReady r restore _ holder_requeue pending-ne-ready).at s h))
                (λ up. inr (λ _. (deploy, found, ground (arith, up)))))
        (λ free. inr (λ held. absurd (false≢true (sym free ∙ held))))

  -- ensureOwned and the removal of the legacy objects succeed, and then the holder is available.
  abbrev pub Applied : Restore → Machine W → Type 0
  Applied restore s =
      (cron : CronJob) × ((ensure_owned r.client r.quantities (owned_resources r restore) s).0
        ≡ ok cron)
      × (let s1 = (ensure_owned r.client r.quantities (owned_resources r restore) s).1 in
          let legacy = delete_legacy_owned r.client restore.meta (restore_owned_name restore) s1 in
          (legacy.0 ≡ ok tt) × HolderAvailable restore legacy.1)

  apply_owned-NoReady :
      (restore : Restore) (s : Machine W)
      → NoReady s.calls
      → NoReady (apply_owned r restore s).1.calls ⊎ Applied restore s
  unfolding apply_owned
  apply_owned-NoReady restore s h =
      let m = ensure_owned r.client r.quantities (owned_resources r restore) in
      let s1 = (m s).1 in
      let h1 =
        (Keeps-ensure_owned NoReady r.client writes-NoReady r.quantities
            (owned_resources r restore)).at
          s h in
      let legacy = delete_legacy_owned r.client restore.meta (restore_owned_name restore) in
      let h2 =
        (Keeps-delete_legacy_owned NoReady r.client writes-NoReady restore.meta
            (restore_owned_name restore)).at
          s1 h1 in
      unless_try NoReady m _ _ s (λ e _. (fail-NoReady r restore _ e).at s1 h1)
        λ cron done.
          unless_try NoReady legacy _ _ s1
            (λ e _. (fail-NoReady r restore "LegacyCleanupError" e).at (legacy s1).1 h2)
            λ u gone. elim (finish-NoReady restore cron (legacy s1).1 h2) [
              | inl quiet ↦ inl quiet
              | inr held ↦ inr (cron, done, (gone, held))
            ]

  check_target-NoReady :
      (restore : Restore) (s : Machine W)
      → NoReady s.calls
      → NoReady (check_target r restore s).1.calls
        ⊎ ((ensure_target_secret r restore s.world ≡ ok tt) × Applied restore s)
  unfolding check_target read
  check_target-NoReady restore s h =
      unless_try NoReady _ _ _ s (λ e _. (refused_target-NoReady r restore e).at s h)
        λ u found. elim (apply_owned-NoReady restore s h) [
          | inl quiet ↦ inl quiet
          | inr applied ↦ inr (found, applied)
        ]

  check_secret-NoReady :
      (restore : Restore) (s : Machine W)
      → NoReady s.calls
      → NoReady (check_secret r restore s).1.calls
        ⊎ ((ensure_job_secret r restore s.world ≡ ok tt)
            × (ensure_target_secret r restore s.world ≡ ok tt)
            × Applied restore s)
  unfolding check_secret read
  check_secret-NoReady restore s h =
      unless_try NoReady _ _ _ s (λ e _. (refused_secret-NoReady r restore e).at s h)
        λ u found. elim (check_target-NoReady restore s h) [
          | inl quiet ↦ inl quiet
          | inr (target, applied) ↦ inr (found, target, applied)
        ]

  -- All that has to hold of a Restore before it is reported Ready.
  pub record IsAdmitted (restore : Restore) (s : Machine W) : Type 0 where
    pub live : is_some (set_time restore.meta.deletion_timestamp) ≡ false
    pub engine : restore_engine_implemented restore.spec.engine ≡ true
    pub valid : IsRestoreSpec r.external restore.spec
    pub secret : ensure_job_secret r restore s.world ≡ ok tt
    pub target : ensure_target_secret r restore s.world ≡ ok tt
    pub applied : Applied restore s

  -- The part of it that is checked after the engine.
  abbrev pub SpecChecked : Restore → Machine W → Type 0
  SpecChecked restore s =
      IsRestoreSpec r.external restore.spec
      × (ensure_job_secret r restore s.world ≡ ok tt)
      × (ensure_target_secret r restore s.world ≡ ok tt)
      × Applied restore s

  check_spec-NoReady :
      (restore : Restore) (s : Machine W)
      → NoReady s.calls
      → NoReady (check_spec r restore s).1.calls ⊎ SpecChecked restore s
  unfolding check_spec
  check_spec-NoReady restore s h =
      elim (Option-cases (validate_restore_spec r.external restore.spec)) [
        | inr (e, invalid) ↦
            rw (check_spec, invalid)
              (inl ((report_and-NoReady r restore _ 0 error-ne-ready).at s h))
        | inl valid ↦
            rw (check_spec, valid)
              (elim (check_secret-NoReady restore s h) [
                | inl quiet ↦ inl quiet
                | inr (found, target, applied) ↦ inr (
                  (validate_restore_spec_iff r.external restore.spec).0 valid,
                  found,
                  target,
                  applied,
                )
              ])
      ]

  reconcile_restore-NoReady :
      (restore : Restore) (s : Machine W)
      → NoReady s.calls
      → NoReady (reconcile_restore r restore s).1.calls ⊎ IsAdmitted restore s
  unfolding reconcile_restore pure
  reconcile_restore-NoReady restore s h =
      unless_if NoReady _ _ _ s (λ _. inl h)
        λ live.
          unless_if NoReady (not (restore_engine_implemented restore.spec.engine)) _
            (check_spec r restore) s
            (λ _. inl ((report_and-NoReady r restore _ 0 unsupported-ne-ready).at s h))
            λ engine. elim (check_spec-NoReady restore s h) [
              | inl quiet ↦ inl quiet
              | inr (valid, found, target, applied) ↦ inr (record {
                live = live;
                engine = ground (arith, engine);
                valid = valid;
                secret = found;
                target = target;
                applied = applied;
              })
            ]

  -- ensureOwned and deleteLegacyOwned have made their writes, from the state that is given.
  abbrev pub Wrote : Restore → Machine W → Type 0
  Wrote restore s =
      IsWritten r.client r.quantities (owned_resources r restore) restore.meta
        (restore_owned_name restore) s
        (delete_legacy_owned r.client restore.meta (restore_owned_name restore)
          (ensure_owned r.client r.quantities (owned_resources r restore) s).1).1

  pub applied-Wrote : (restore : Restore) (s : Machine W) → Applied restore s → Wrote restore s
  applied-Wrote restore s (cron, done, (gone, available)) =
      owned-IsWritten r.client r.quantities (owned_resources r restore) restore.meta
        (restore_owned_name restore) s cron done gone

  -- Reconcile writes a status with the phase Ready only for a Restore that is there and is not
  -- being deleted, whose engine can be restored, whose spec is valid, and whose two Secrets have
  -- the required keys; and only after it has applied every owned object, in order, and dealt with
  -- the ConfigMap and the CronJob of the old name, if that differs: each is not there, or is not
  -- controlled by the Restore and stays, or has been deleted or had gone by then. The volume
  -- holder, if there is one, is then available.
  pub reconcile_restore_ready :
      (req : ObjectKey) (s : Machine W)
      → NoReady s.calls
      → NoReady (reconcile_request r req s).1.calls
        ⊎ ((restore : Restore) × (r.client.get_restore req s.world ≡ ok restore)
            × IsAdmitted restore s
            × Wrote restore s)
  unfolding reconcile_request reconcile read lift
  reconcile_restore_ready req s h =
      unless_try NoReady _ _ _ s (λ e _. h)
        λ restore found. elim (reconcile_restore-NoReady restore s h) [
          | inl quiet ↦ inl quiet
          | inr admitted ↦ inr (restore, found, admitted, applied-Wrote restore s admitted.applied)
        ]
