-- ===== src/Controller/Backup/Guards.antt =====
-- The checks and the errors of Reconcile in internal/controller/backup_controller.go.
use karkive.Prelude.{
  ℕ, ◌≡◌, refl, ◌⊎◌, inl, inr, Bool, true, false, not, arith, is_some, sym, ◌∙◌, ◌&&◌, Bool-cases,
  Option-cases,
}
use mathlib.Core.Bool.{false≢true}
use karkive.Errors.{Error, ok, err, is_not_found, is_conflict}
use karkive.Api.Backup.{Backup}
use karkive.Validation.{validate_backup_spec}
use karkive.Validation.Predicates.{IsBackupSpec}
use karkive.Validation.Laws.{validate_backup_spec_iff}
use karkive.Resources.Names.{backup_owned_name}
use karkive.Resources.Engine.{engine_implemented}
use karkive.Resources.PvcSource.{is_pvc_backup}
use karkive.Resources.Labels.{label_backup_name, kind_backup}
use karkive.JobStatus.{set_time}
use karkive.Controller.Client.{ObjectKey}
use karkive.Controller.LastJob.{last_job_status}
use karkive.Controller.Action.{Machine, pure, raise, lift, read, write, try, resume}
use karkive.Controller.Action.Keeps.{Keeps, keeps_rules, unless_try, unless_if}
use karkive.Controller.Owned.{ensure_owned, requeue_on_conflict, ignore_not_found, conflict_requeue}
use karkive.Controller.Report.Guarded.{OnlyReports, requeue_on_conflict_cases}
use karkive.Controller.Report.{Reconciler, Report}
use karkive.Controller.Backup.Status.{plan_status, record_event, set_status, report_and, fail}
use karkive.Controller.Backup.Inputs.{ensure_secret, check_source_pvc}
use karkive.Controller.Backup.Reconcile.{
  refused_source, refused_secret, apply_owned, owned_resources, check_source, check_secret,
  check_spec, reconcile_backup, reconcile, reconcile_request,
}

module _ {W : Type 0} (r : Reconciler W) where
  record_event-OnlyReports :
      (due : Bool) (backup : Backup) (report : Report) (s : Machine W)
      → OnlyReports s.calls
      → OnlyReports (record_event r due backup report s).calls
  unfolding record_event
  record_event-OnlyReports due backup report s h = elim (Bool-cases (r.has_recorder && due)) [
    | inl b ↦ rw b (refl, h)
    | inr b ↦ rw b h
  ]

  set_status-OnlyReports :
      (backup : Backup) (report : Report) → Keeps OnlyReports (set_status r backup report)
  unfolding set_status write
  set_status-OnlyReports backup report = record {
    at = λ s h.
        let last =
          last_job_status r.client backup.meta.namespace label_backup_name backup.meta.name
            kind_backup s.world in
        let plan = plan_status r.ops backup report last in
        let h' = record_event-OnlyReports plan.event backup report s h in
        elim (Bool-cases plan.patch) [ inl b ↦ rw b (refl, h') | inr b ↦ rw b h' ];
  }

  report_and-OnlyReports :
      (backup : Backup) (report : Report) (delay : ℕ)
      → Keeps OnlyReports (report_and r backup report delay)
  unfolding report_and
  report_and-OnlyReports backup report delay = search (keeps_rules, set_status-OnlyReports)

  refused_source-OnlyReports :
      (backup : Backup) (e : Error) → Keeps OnlyReports (refused_source r backup e)
  unfolding refused_source
  refused_source-OnlyReports backup e = search (keeps_rules, report_and-OnlyReports)

  refused_secret-OnlyReports :
      (backup : Backup) (e : Error) → Keeps OnlyReports (refused_secret r backup e)
  unfolding refused_secret
  refused_secret-OnlyReports backup e = search (keeps_rules, report_and-OnlyReports)

  abbrev pub IsSourceChecked : Backup → Machine W → Type 0
  IsSourceChecked backup s =
      is_pvc_backup backup ≡ true
      → check_source_pvc r backup (backup_owned_name backup) s.world ≡ ok tt

  check_source-OnlyReports :
      (backup : Backup) (s : Machine W)
      → OnlyReports s.calls
      → OnlyReports (check_source r backup s).1.calls ⊎ IsSourceChecked backup s
  unfolding check_source read
  check_source-OnlyReports backup s h =
      unless_if OnlyReports _ _ _ s
        (λ pvc.
          unless_try OnlyReports _ _ (λ _. apply_owned r backup) s
            (λ e _. (refused_source-OnlyReports backup e).at s h) λ u checked. inr (λ _. checked))
        λ other. inr (λ pvc. absurd (false≢true (sym other ∙ pvc)))

  check_secret-OnlyReports :
      (backup : Backup) (s : Machine W)
      → OnlyReports s.calls
      → OnlyReports (check_secret r backup s).1.calls
        ⊎ ((ensure_secret r backup s.world ≡ ok tt) × IsSourceChecked backup s)
  unfolding check_secret read
  check_secret-OnlyReports backup s h =
      unless_try OnlyReports _ _ _ s (λ e _. (refused_secret-OnlyReports backup e).at s h)
        λ u found. elim (check_source-OnlyReports backup s h) [
          | inl quiet ↦ inl quiet
          | inr checked ↦ inr (found, checked)
        ]

  check_spec-OnlyReports :
      (backup : Backup) (s : Machine W)
      → OnlyReports s.calls
      → OnlyReports (check_spec r backup s).1.calls
        ⊎ (IsBackupSpec r.external backup.spec
            × (ensure_secret r backup s.world ≡ ok tt)
            × IsSourceChecked backup s)
  unfolding check_spec
  check_spec-OnlyReports backup s h =
      elim (Option-cases (validate_backup_spec r.external backup.spec)) [
        | inr (e, invalid) ↦
            rw (check_spec, invalid) (inl ((report_and-OnlyReports backup _ 0).at s h))
        | inl valid ↦
            rw (check_spec, valid)
              (elim (check_secret-OnlyReports backup s h) [
                | inl quiet ↦ inl quiet
                | inr (found, checked) ↦
                    inr ((validate_backup_spec_iff r.external backup.spec).0 valid, found, checked)
              ])
      ]

  -- All the checks that reconcile makes of a Backup before it touches an owned object.
  pub record IsChecked (backup : Backup) (s : Machine W) : Type 0 where
    pub live : is_some (set_time backup.meta.deletion_timestamp) ≡ false
    pub engine : engine_implemented backup.spec.engine ≡ true
    pub valid : IsBackupSpec r.external backup.spec
    pub secret : ensure_secret r backup s.world ≡ ok tt
    pub source : IsSourceChecked backup s

  reconcile_backup-OnlyReports :
      (backup : Backup) (s : Machine W)
      → OnlyReports s.calls
      → OnlyReports (reconcile_backup r backup s).1.calls ⊎ IsChecked backup s
  unfolding reconcile_backup pure
  reconcile_backup-OnlyReports backup s h =
      unless_if OnlyReports _ _ _ s (λ _. inl h)
        λ live.
          unless_if OnlyReports (not (engine_implemented backup.spec.engine)) _
            (check_spec r backup) s (λ _. inl ((report_and-OnlyReports backup _ 0).at s h))
            λ engine. elim (check_spec-OnlyReports backup s h) [
              | inl quiet ↦ inl quiet
              | inr (valid, found, checked) ↦ inr (record {
                live = live;
                engine = ground (arith, engine);
                valid = valid;
                secret = found;
                source = checked;
              })
            ]

  -- Reconcile writes nothing but statuses and events unless the Backup is there and is not being
  -- deleted, its engine is implemented, its spec is valid, its Secret has the required keys, and, for
  -- engine pvc, its source claim passes the check: no owned object is created, changed or deleted
  -- before all these checks have passed.
  pub reconcile_guarded :
      (req : ObjectKey) (s : Machine W)
      → OnlyReports s.calls
      → OnlyReports (reconcile_request r req s).1.calls
        ⊎ ((backup : Backup) × (r.client.get_backup req s.world ≡ ok backup) × IsChecked backup s)
  unfolding reconcile_request reconcile read lift
  reconcile_guarded req s h =
      unless_try OnlyReports _ _ _ s (λ e _. h)
        λ backup found. elim (reconcile_backup-OnlyReports backup s h) [
          | inl quiet ↦ inl quiet
          | inr checked ↦ inr (backup, found, checked)
        ]

  -- A Backup that is gone or is being deleted is left alone: Reconcile succeeds with no requeue, and
  -- neither the cluster nor the list of writes changes.
  reconcile_deleted :
      (req : ObjectKey) (s : Machine W)
      → ((e : Error) × (r.client.get_backup req s.world ≡ err e) × (is_not_found e ≡ true))
        ⊎ ((backup : Backup) × (r.client.get_backup req s.world ≡ ok backup)
            × (is_some (set_time backup.meta.deletion_timestamp) ≡ true))
      → reconcile_request r req s ≡ (ok 0, s)
  unfolding reconcile_request reconcile try reconcile_backup requeue_on_conflict ignore_not_found
  reconcile_deleted req s (inl (e, missing, gone)) = rw (missing, gone) refl
  reconcile_deleted req s (inr (backup, found, deleting)) = rw (found, deleting) refl

  -- A conflict that ensureOwned meets is not reported: from there on nothing is written, neither a
  -- status nor an event, and requeueOnConflict turns the error into a requeue after a second.
  apply_owned_conflict :
      (backup : Backup) (s : Machine W) (e : Error)
      → (ensure_owned r.client r.quantities (owned_resources r backup) s).0 ≡ err e
      → is_conflict e ≡ true
      → (apply_owned r backup s
          ≡ (err e, (ensure_owned r.client r.quantities (owned_resources r backup) s).1))
        × (requeue_on_conflict (apply_owned r backup s).0 ≡ ok conflict_requeue)
  unfolding apply_owned try fail raise requeue_on_conflict
  apply_owned_conflict backup s e failed conflict =
      rw (failed, conflict, resume) (refl, rw conflict refl)

  -- Reconcile never returns a conflict as its error, whatever the cluster answers.
  reconcile_request_conflict :
      (req : ObjectKey) (s : Machine W) (e : Error)
      → (reconcile_request r req s).0 ≡ err e
      → is_conflict e ≡ false
  unfolding reconcile_request
  reconcile_request_conflict req s e h = requeue_on_conflict_cases (reconcile r req s).0 e h
