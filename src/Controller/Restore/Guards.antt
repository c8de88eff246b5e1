-- ===== src/Controller/Restore/Guards.antt =====
-- The checks and the errors of Reconcile in internal/controller/restore_controller.go.
use karkive.Prelude.{
  ℕ, ◌≡◌, refl, ◌⊎◌, inl, inr, Bool, true, false, not, arith, is_some, ◌&&◌, Bool-cases,
  Option-cases,
}
use karkive.Errors.{Error, ok, err, is_not_found}
use karkive.Api.Restore.{Restore}
use karkive.Validation.{validate_restore_spec}
use karkive.Validation.Predicates.{IsRestoreSpec}
use karkive.Validation.Laws.{validate_restore_spec_iff}
use karkive.Resources.Engine.{restore_engine_implemented}
use karkive.Resources.Labels.{label_restore_name, kind_restore}
use karkive.JobStatus.{set_time}
use karkive.Controller.Client.{ObjectKey}
use karkive.Controller.LastJob.{last_job_status}
use karkive.Controller.Action.{Machine, pure, lift, read, write, try}
use karkive.Controller.Action.Keeps.{Keeps, keeps_rules, unless_try, unless_if}
use karkive.Controller.Owned.{requeue_on_conflict, ignore_not_found}
use karkive.Controller.Report.Guarded.{OnlyReports}
use karkive.Controller.Report.{Reconciler, Report}
use karkive.Controller.Restore.Status.{plan_status, record_event, set_status, report_and}
use karkive.Controller.Restore.Inputs.{ensure_job_secret, ensure_target_secret}
use karkive.Controller.Restore.Reconcile.{
  refused_target, refused_secret, apply_owned, check_target, check_secret, check_spec,
  reconcile_restore, reconcile, reconcile_request,
}

module _ {W : Type 0} (r : Reconciler W) where
  record_event-OnlyReports :
      (due : Bool) (restore : Restore) (report : Report) (s : Machine W)
      → OnlyReports s.calls
      → OnlyReports (record_event r due restore report s).calls
  unfolding record_event
  record_event-OnlyReports due restore report s h = elim (Bool-cases (r.has_recorder && due)) [
    | inl b ↦ rw b (refl, h)
    | inr b ↦ rw b h
  ]

  set_status-OnlyReports :
      (restore : Restore) (report : Report) → Keeps OnlyReports (set_status r restore report)
  unfolding set_status write
  set_status-OnlyReports restore report = record {
    at = λ s h.
        let last =
          last_job_status r.client restore.meta.namespace label_restore_name restore.meta.name
            kind_restore s.world in
        let plan = plan_status r.ops restore report last in
        let h' = record_event-OnlyReports plan.event restore report s h in
        elim (Bool-cases plan.patch) [ inl b ↦ rw b (refl, h') | inr b ↦ rw b h' ];
  }

  report_and-OnlyReports :
      (restore : Restore) (report : Report) (delay : ℕ)
      → Keeps OnlyReports (report_and r restore report delay)
  unfolding report_and
  report_and-OnlyReports restore report delay = search (keeps_rules, set_status-OnlyReports)

  refused_secret-OnlyReports :
      (restore : Restore) (e : Error) → Keeps OnlyReports (refused_secret r restore e)
  unfolding refused_secret
  refused_secret-OnlyReports restore e = search (keeps_rules, report_and-OnlyReports)

  refused_target-OnlyReports :
      (restore : Restore) (e : Error) → Keeps OnlyReports (refused_target r restore e)
  unfolding refused_target
  refused_target-OnlyReports restore e = search (keeps_rules, report_and-OnlyReports)

  check_target-OnlyReports :
      (restore : Restore) (s : Machine W)
      → OnlyReports s.calls
      → OnlyReports (check_target r restore s).1.calls
        ⊎ (ensure_target_secret r restore s.world ≡ ok tt)
  unfolding check_target read
  check_target-OnlyReports restore s h =
      unless_try OnlyReports {Q = ensure_target_secret r restore s.world ≡ ok tt} _ _
        (λ _. apply_owned r restore) s (λ e _. (refused_target-OnlyReports restore e).at s h)
        λ u found. inr found

  check_secret-OnlyReports :
      (restore : Restore) (s : Machine W)
      → OnlyReports s.calls
      → OnlyReports (check_secret r restore s).1.calls
        ⊎ ((ensure_job_secret r restore s.world ≡ ok tt)
            × (ensure_target_secret r restore s.world ≡ ok tt))
  unfolding check_secret read
  check_secret-OnlyReports restore s h =
      unless_try OnlyReports _ _ _ s (λ e _. (refused_secret-OnlyReports restore e).at s h)
        λ u found. elim (check_target-OnlyReports restore s h) [
          | inl quiet ↦ inl quiet
          | inr target ↦ inr (found, target)
        ]

  -- All the checks that reconcile makes of a Restore before it touches an owned object.
  pub record IsChecked (restore : Restore) (s : Machine W) : Type 0 where
    pub live : is_some (set_time restore.meta.deletion_timestamp) ≡ false
    pub engine : restore_engine_implemented restore.spec.engine ≡ true
    pub valid : IsRestoreSpec r.external restore.spec
    pub secret : ensure_job_secret r restore s.world ≡ ok tt
    pub target : ensure_target_secret r restore s.world ≡ ok tt

  check_spec-OnlyReports :
      (restore : Restore) (s : Machine W)
      → OnlyReports s.calls
      → OnlyReports (check_spec r restore s).1.calls
        ⊎ (IsRestoreSpec r.external restore.spec
            × (ensure_job_secret r restore s.world ≡ ok tt)
            × (ensure_target_secret r restore s.world ≡ ok tt))
  unfolding check_spec
  check_spec-OnlyReports restore s h =
      elim (Option-cases (validate_restore_spec r.external restore.spec)) [
        | inr (e, invalid) ↦
            rw (check_spec, invalid) (inl ((report_and-OnlyReports restore _ 0).at s h))
        | inl valid ↦
            rw (check_spec, valid)
              (elim (check_secret-OnlyReports restore s h) [
                | inl quiet ↦ inl quiet
                | inr (found, target) ↦
                    inr ((validate_restore_spec_iff r.external restore.spec).0 valid, found, target)
              ])
      ]

  reconcile_restore-OnlyReports :
      (restore : Restore) (s : Machine W)
      → OnlyReports s.calls
      → OnlyReports (reconcile_restore r restore s).1.calls ⊎ IsChecked restore s
  unfolding reconcile_restore pure
  reconcile_restore-OnlyReports restore s h =
      unless_if OnlyReports _ _ _ s (λ _. inl h)
        λ live.
          unless_if OnlyReports (not (restore_engine_implemented restore.spec.engine)) _
            (check_spec r restore) s (λ _. inl ((report_and-OnlyReports restore _ 0).at s h))
            λ engine. elim (check_spec-OnlyReports restore s h) [
              | inl quiet ↦ inl quiet
              | inr (valid, found, target) ↦ inr (record {
                live = live;
                engine = ground (arith, engine);
                valid = valid;
                secret = found;
                target = target;
              })
            ]

  -- Reconcile writes nothing but statuses and events unless the Restore is there and is not being
  -- deleted, its engine can be restored, its spec is valid, and the Secret of the pipeline and the
  -- Secret of the target have the required keys: no owned object is created, changed or deleted before
  -- all these checks have passed.
  pub reconcile_restore_guarded :
      (req : ObjectKey) (s : Machine W)
      → OnlyReports s.calls
      → OnlyReports (reconcile_request r req s).1.calls
        ⊎ ((restore : Restore) × (r.client.get_restore req s.world ≡ ok restore)
            × IsChecked restore s)
  unfolding reconcile_request reconcile read lift
  reconcile_restore_guarded req s h =
      unless_try OnlyReports _ _ _ s (λ e _. h)
        λ restore found. elim (reconcile_restore-OnlyReports restore s h) [
          | inl quiet ↦ inl quiet
          | inr checked ↦ inr (restore, found, checked)
        ]

  -- A Restore that is gone or is being deleted is left alone: Reconcile succeeds with no requeue, and
  -- neither the cluster nor the list of writes changes.
  reconcile_restore_deleted :
      (req : ObjectKey) (s : Machine W)
      → ((e : Error) × (r.client.get_restore req s.world ≡ err e) × (is_not_found e ≡ true))
        ⊎ ((restore : Restore) × (r.client.get_restore req s.world ≡ ok restore)
            × (is_some (set_time restore.meta.deletion_timestamp) ≡ true))
      → reconcile_request r req s ≡ (ok 0, s)
  unfolding reconcile_request reconcile try reconcile_restore requeue_on_conflict ignore_not_found
  reconcile_restore_deleted req s (inl (e, missing, gone)) = rw (missing, gone) refl
  reconcile_restore_deleted req s (inr (restore, found, deleting)) = rw (found, deleting) refl
