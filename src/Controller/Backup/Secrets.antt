-- ===== src/Controller/Backup/Secrets.antt =====
-- The Secret that ensureSecret of internal/controller/backup_controller.go has checked, and the pods of
-- the CronJob that it admits.
use mathlib.Core.Bool.{false≢true}
use karkive.Prelude.{
  sym, ◌∙◌, if◌then◌else◌, String, ◌≡◌, inl, inr, true, false, List, [], ◌∷◌, All, is_some, lookup,
  Bool-cases,
}
use karkive.Errors.{err-ne-ok, Result, Result-cases, ok, err}
use karkive.Kube.Pod.{SecretKeyRef}
use karkive.Kube.Objects.{Secret, CronJob}
use karkive.Api.Common.{enabled_or_default}
use karkive.Api.Backup.{Backup}
use karkive.Resources.PvcSource.{is_pvc_backup}
use karkive.Resources.Wiring.{PodReads}
use karkive.Resources.Wiring.Backup.{backup_pod-Reads}
use karkive.Controller.Report.{Reconciler}
use karkive.Controller.Backup.Inputs.{
  required_backup_s3_secret_keys, require_keys, check_secret_keys, ensure_secret,
}
use karkive.Controller.Backup.Reconcile.{owned_resources}

abbrev pub HasKey : Secret → String → Type 0
HasKey secret k = is_some (lookup k secret.entries) ≡ true

module _ {W : Type 0} (r : Reconciler W) where
  -- The Secret of the reference is in the namespace and has the key.
  abbrev pub IsSupplied : String → W → SecretKeyRef → Type 0
  IsSupplied namespace w ref =
      (secret : Secret) × (r.client.get_secret (record { namespace = namespace; name = ref.name }) w
        ≡ ok secret)
      × (is_some (lookup ref.key secret.entries) ≡ true)

  require_keys-HasKey :
      (secret : Secret) (ks : List String)
      → require_keys r secret ks ≡ ok tt
      → All (HasKey secret) ks
  unfolding require_keys
  require_keys-HasKey secret [] h = tt
  require_keys-HasKey secret (k ∷ ks) h = elim (Bool-cases (is_some (lookup k secret.entries))) [
    | inl b ↦ (b, require_keys-HasKey secret ks (rw b at h))
    | inr b ↦ absurd (err-ne-ok (rw b at h))
  ]

  -- The keys that the backup pod needs.
  abbrev HasBackupKeys : Backup → Secret → Type 0
  HasBackupKeys backup secret =
      HasKey secret "gpg_passphrase"
      × (is_pvc_backup backup ≡ false → HasKey secret "username" × HasKey secret "password")
      × (enabled_or_default backup.spec.s3 ≡ true
          → HasKey secret "s3_access_key" × HasKey secret "s3_secret_key")

  required_first :
      (secret : Secret) (required : List String) (rest : Result (Unit {0}))
      → elim (require_keys r secret required) [ err e ↦ err e | ok _ ↦ rest ] ≡ ok tt
      → All (HasKey secret) required × (rest ≡ ok tt)
  required_first secret required rest h = elim (Result-cases (require_keys r secret required)) [
    | inl (u, e) ↦ (require_keys-HasKey secret required e, rw e at h)
    | inr (x, e) ↦ absurd (err-ne-ok (rw e at h))
  ]

  s3_keys :
      (backup : Backup) (secret : Secret)
      → (if enabled_or_default backup.spec.s3
          then require_keys r secret required_backup_s3_secret_keys
          else ok tt)
        ≡ ok tt
      → enabled_or_default backup.spec.s3 ≡ true
      → HasKey secret "s3_access_key" × HasKey secret "s3_secret_key"
  s3_keys backup secret h on =
      let (a, (k, _)) = require_keys-HasKey secret required_backup_s3_secret_keys (rw on at h) in
      (a, k)

  check_secret_keys-HasBackupKeys :
      (backup : Backup) (secret : Secret)
      → check_secret_keys r backup secret ≡ ok tt
      → HasBackupKeys backup secret
  unfolding check_secret_keys
  check_secret_keys-HasBackupKeys backup secret h = elim (Bool-cases (is_pvc_backup backup)) [
    | inl pvc ↦
        let ((g, _), s3) = required_first secret _ _ (rw (pvc, check_secret_keys) at h) in
        (g, (λ other. absurd (false≢true (sym other ∙ pvc))), s3_keys backup secret s3)
    | inr other ↦
        let ((u, (p, (g, _))), s3) =
          required_first secret _ _ (rw (other, check_secret_keys) at h) in
        (g, (λ _. (u, p)), s3_keys backup secret s3)
  ]

  -- After ensureSecret has succeeded, every key of a Secret that a pod of the applied CronJob reads,
  -- in its environment or through a volume, is in the cluster: no stage waits for a missing key.
  pub ensure_secret-PodReads :
      (backup : Backup) (w : W) (cj : CronJob)
      → ensure_secret r backup w ≡ ok tt
      → PodReads
          (IsSupplied backup.meta.namespace w)
          ((owned_resources r backup).mutate_cron_job cj).spec.job.pod
  unfolding ensure_secret owned_resources
  ensure_secret-PodReads backup w cj h =
      elim (Result-cases (
        r.client.get_secret
          (record { namespace = backup.meta.namespace; name = backup.spec.secret_ref.name }) w)) [
            | inr (x, e) ↦ absurd (err-ne-ok (rw (e, ensure_secret) at h))
            | inl (secret, found) ↦
                let (g, login, s3) =
                  check_secret_keys-HasBackupKeys backup secret (rw (found, ensure_secret) at h) in
                backup_pod-Reads r.scripts r.quantities r.config
                  (IsSupplied backup.meta.namespace w) cj backup (secret, found, g)
                  (λ other. let (u, p) = login other in ((secret, found, u), (secret, found, p)))
                  λ on. let (a, k) = s3 on in ((secret, found, a), (secret, found, k))
          ]
