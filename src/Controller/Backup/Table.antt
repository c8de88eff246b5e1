-- ===== src/Controller/Backup/Table.antt =====
-- The checks of Reconcile in internal/controller/backup_controller.go as a table.
use karkive.Prelude.{
  ℕ, String, ◌≡◌, refl, inl, inr, Bool, false, not, ◌&&◌, Option, none, some, List, [], ◌∷◌,
  is_some, Bool-cases, Option-cases,
}
use karkive.Errors.{Result, Result-cases, is_not_found}
use karkive.Api.Backup.{Backup, phase_pending, phase_error, phase_unsupported}
use karkive.Validation.{validate_backup_spec}
use karkive.Resources.Names.{backup_owned_name}
use karkive.Resources.Engine.{engine_implemented}
use karkive.Resources.PvcSource.{is_pvc_backup}
use karkive.JobStatus.{set_time}
use karkive.Controller.Action.{Machine, read, try, resume}
use karkive.Controller.Status.{event_type_warning}
use karkive.Controller.Report.{Reconciler, refusal, secret_requeue, source_requeue}
use karkive.Controller.Report.Table.{Refusal, row, first_row, is_missing, is_failed}
use karkive.Controller.Backup.Status.{report_and}
use karkive.Controller.Backup.Inputs.{ensure_secret, check_source_pvc}
use karkive.Controller.Backup.Reconcile.{
  refused_source, refused_secret, apply_owned, check_source, check_secret, check_spec,
  reconcile_backup,
}

module _ {W : Type 0} (r : Reconciler W) where
  abbrev source_rows : Backup → W → List (Bool × Refusal)
  source_rows backup w =
      let source = check_source_pvc r backup (backup_owned_name backup) w in
      (
        is_pvc_backup backup && is_missing source,
        row phase_pending "SourcePVCNotFound" source_requeue,
      )
      ∷ (is_pvc_backup backup && is_failed source, row phase_error "SourcePVCInvalid" 0)
      ∷ []

  abbrev secret_rows : Backup → W → List (Bool × Refusal)
  secret_rows backup w =
      let secret = ensure_secret r backup w in
      (is_missing secret, row phase_pending "SecretNotFound" secret_requeue)
      ∷ (is_failed secret, row phase_error "SecretInvalid" 0)
      ∷ source_rows backup w

  abbrev spec_rows : Backup → W → List (Bool × Refusal)
  spec_rows backup w =
      (is_some (validate_backup_spec r.external backup.spec), row phase_error "InvalidSpec" 0)
      ∷ secret_rows backup w

  abbrev pub backup_rows : Backup → W → List (Bool × Refusal)
  backup_rows backup w =
      (not (engine_implemented backup.spec.engine), row phase_unsupported "UnsupportedEngine" 0)
      ∷ spec_rows backup w

  -- What a part of Reconcile does if the table decides so: a warning with some text, or the writes.
  abbrev pub Follows : Backup → Machine W → Result ℕ × Machine W → Option Refusal → Type 0
  Follows backup s result none = result ≡ apply_owned r backup s
  Follows backup s result (some f) =
      (text : String) × (result
        ≡ report_and r backup (refusal f.phase f.reason text event_type_warning) f.delay s)

  check_source-Follows :
      (backup : Backup) (s : Machine W)
      → Follows backup s (check_source r backup s) (first_row (source_rows backup s.world))
  unfolding check_source try read refused_source
  check_source-Follows backup s = elim (Bool-cases (is_pvc_backup backup)) [
    | inr other ↦ rw other refl
    | inl pvc ↦ elim (Result-cases (check_source_pvc r backup (backup_owned_name backup) s.world)) [
      | inl (u, e) ↦ rw (pvc, e, resume) refl
      | inr (x, e) ↦ elim (Bool-cases (is_not_found x)) [
        | inl m ↦ rw (pvc, e, resume, m) (_, refl)
        | inr m ↦ rw (pvc, e, resume, m) (_, refl)
      ]
    ]
  ]

  check_secret-Follows :
      (backup : Backup) (s : Machine W)
      → Follows backup s (check_secret r backup s) (first_row (secret_rows backup s.world))
  unfolding check_secret try read refused_secret
  check_secret-Follows backup s = elim (Result-cases (ensure_secret r backup s.world)) [
    | inl (u, e) ↦ rw (e, resume) (check_source-Follows backup s)
    | inr (x, e) ↦ elim (Bool-cases (is_not_found x)) [
      | inl m ↦ rw (e, resume, m) (_, refl)
      | inr m ↦ rw (e, resume, m) (_, refl)
    ]
  ]

  check_spec-Follows :
      (backup : Backup) (s : Machine W)
      → Follows backup s (check_spec r backup s) (first_row (spec_rows backup s.world))
  unfolding check_spec
  check_spec-Follows backup s = elim (Option-cases (validate_backup_spec r.external backup.spec)) [
    | inl valid ↦ rw (check_spec, valid) (check_secret-Follows backup s)
    | inr (text, invalid) ↦ rw (check_spec, invalid) (text, refl)
  ]

  -- Reconcile of a Backup that is not being deleted follows the table: the first row whose test
  -- applies decides the phase, the reason and the delay of the one report that it makes, and only if
  -- no row applies does it go on to the owned objects.
  pub reconcile_backup-Follows :
      (backup : Backup) (s : Machine W)
      → is_some (set_time backup.meta.deletion_timestamp) ≡ false
      → Follows backup s (reconcile_backup r backup s) (first_row (backup_rows backup s.world))
  unfolding reconcile_backup
  reconcile_backup-Follows backup s live =
      elim (Bool-cases (engine_implemented backup.spec.engine)) [
        | inl known ↦ rw (live, known) (check_spec-Follows backup s)
        | inr unknown ↦ rw (live, unknown) (_, refl)
      ]
