-- ===== src/Controller/Restore/Table.antt =====
-- The checks of Reconcile in internal/controller/restore_controller.go as a table.
use karkive.Prelude.{
  ℕ, String, ◌≡◌, refl, inl, inr, Bool, false, not, Option, none, some, List, [], ◌∷◌, is_some,
  Bool-cases, Option-cases,
}
use karkive.Errors.{Result, Result-cases, is_not_found}
use karkive.Api.Restore.{Restore}
use karkive.Api.Backup.{phase_pending, phase_error, phase_unsupported}
use karkive.Validation.{validate_restore_spec}
use karkive.Resources.Engine.{restore_engine_implemented}
use karkive.JobStatus.{set_time}
use karkive.Controller.Action.{Machine, read, try, resume}
use karkive.Controller.Status.{event_type_warning}
use karkive.Controller.Report.{Reconciler, refusal, secret_requeue}
use karkive.Controller.Report.Table.{Refusal, row, first_row, is_missing, is_failed}
use karkive.Controller.Restore.Status.{report_and}
use karkive.Controller.Restore.Inputs.{ensure_job_secret, ensure_target_secret}
use karkive.Controller.Restore.Reconcile.{
  refused_target, refused_secret, apply_owned, check_target, check_secret, check_spec,
  reconcile_restore,
}

module _ {W : Type 0} (r : Reconciler W) where
  abbrev target_rows : Restore → W → List (Bool × Refusal)
  target_rows restore w =
      let target = ensure_target_secret r restore w in
      (is_missing target, row phase_pending "TargetSecretNotFound" secret_requeue)
      ∷ (is_failed target, row phase_error "TargetSecretInvalid" 0)
      ∷ []

  abbrev secret_rows : Restore → W → List (Bool × Refusal)
  secret_rows restore w =
      let secret = ensure_job_secret r restore w in
      (is_missing secret, row phase_pending "SecretNotFound" secret_requeue)
      ∷ (is_failed secret, row phase_error "SecretInvalid" 0)
      ∷ target_rows restore w

  abbrev spec_rows : Restore → W → List (Bool × Refusal)
  spec_rows restore w =
      (is_some (validate_restore_spec r.external restore.spec), row phase_error "InvalidSpec" 0)
      ∷ secret_rows restore w

  abbrev pub restore_rows : Restore → W → List (Bool × Refusal)
  restore_rows restore w =
      (
        not (restore_engine_implemented restore.spec.engine),
        row phase_unsupported "UnsupportedEngine" 0,
      )
      ∷ spec_rows restore w

  -- What a part of Reconcile does if the table decides so: a warning with some text, or the writes.
  abbrev pub Follows : Restore → Machine W → Result ℕ × Machine W → Option Refusal → Type 0
  Follows restore s result none = result ≡ apply_owned r restore s
  Follows restore s result (some f) =
      (text : String) × (result
        ≡ report_and r restore (refusal f.phase f.reason text event_type_warning) f.delay s)

  check_target-Follows :
      (restore : Restore) (s : Machine W)
      → Follows restore s (check_target r restore s) (first_row (target_rows restore s.world))
  unfolding check_target try read refused_target
  check_target-Follows restore s = elim (Result-cases (ensure_target_secret r restore s.world)) [
    | inl (u, e) ↦ rw (e, resume) refl
    | inr (x, e) ↦ elim (Bool-cases (is_not_found x)) [
      | inl m ↦ rw (e, resume, m) (_, refl)
      | inr m ↦ rw (e, resume, m) (_, refl)
    ]
  ]

  check_secret-Follows :
      (restore : Restore) (s : Machine W)
      → Follows restore s (check_secret r restore s) (first_row (secret_rows restore s.world))
  unfolding check_secret try read refused_secret
  check_secret-Follows restore s = elim (Result-cases (ensure_job_secret r restore s.world)) [
    | inl (u, e) ↦ rw (e, resume) (check_target-Follows restore s)
    | inr (x, e) ↦ elim (Bool-cases (is_not_found x)) [
      | inl m ↦ rw (e, resume, m) (_, refl)
      | inr m ↦ rw (e, resume, m) (_, refl)
    ]
  ]

  check_spec-Follows :
      (restore : Restore) (s : Machine W)
      → Follows restore s (check_spec r restore s) (first_row (spec_rows restore s.world))
  unfolding check_spec
  check_spec-Follows restore s =
      elim (Option-cases (validate_restore_spec r.external restore.spec)) [
        | inl valid ↦ rw (check_spec, valid) (check_secret-Follows restore s)
        | inr (text, invalid) ↦ rw (check_spec, invalid) (text, refl)
      ]

  -- Reconcile of a Restore that is not being deleted follows the table: the first row whose test
  -- applies decides the phase, the reason and the delay of the one report that it makes, and only if
  -- no row applies does it go on to the owned objects.
  pub reconcile_restore-Follows :
      (restore : Restore) (s : Machine W)
      → is_some (set_time restore.meta.deletion_timestamp) ≡ false
      → Follows restore s (reconcile_restore r restore s) (first_row (restore_rows restore s.world))
  unfolding reconcile_restore
  reconcile_restore-Follows restore s live =
      elim (Bool-cases (restore_engine_implemented restore.spec.engine)) [
        | inl known ↦ rw (live, known) (check_spec-Follows restore s)
        | inr unknown ↦ rw (live, unknown) (_, refl)
      ]
