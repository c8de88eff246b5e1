-- ===== src/Controller/Restore/Secrets.antt =====
-- The Secrets that ensureJobSecret and ensureTargetSecret of internal/controller/restore_controller.go
-- have checked, and the pods of the CronJob that they admit.
use karkive.Prelude.{
  String, ◌≡◌, inl, inr, List, [], ◌∷◌, All, All_map_lem, is_some, lookup, Bool-cases,
}
use karkive.Errors.{err-ne-ok, Result-cases, ok, err}
use karkive.Kube.Objects.{Secret, CronJob}
use karkive.Api.Restore.{Restore}
use karkive.Resources.Defaults.{restore_target_secret}
use karkive.Resources.Wiring.{PodReads, key_of}
use karkive.Resources.Wiring.Restore.{restore_pod-Reads}
use karkive.Controller.Report.{Reconciler}
use karkive.Controller.Backup.Secrets.{HasKey, IsSupplied}
use karkive.Controller.Restore.Inputs.{
  required_restore_secret_keys, require_secret_keys, ensure_job_secret, ensure_target_secret,
}
use karkive.Controller.Restore.Reconcile.{owned_resources}

module _ {W : Type 0} (r : Reconciler W) where
  require_secret_keys-HasKey :
      (role : String) (secret : Secret) (ks : List String)
      → require_secret_keys r role secret ks ≡ ok tt
      → All (HasKey secret) ks
  unfolding require_secret_keys
  require_secret_keys-HasKey role secret [] h = tt
  require_secret_keys-HasKey role secret (k ∷ ks) h =
      elim (Bool-cases (is_some (lookup k secret.entries))) [
        | inl b ↦ (b, require_secret_keys-HasKey role secret ks (rw b at h))
        | inr b ↦ absurd (err-ne-ok (rw b at h))
      ]

  -- What a Secret that was read and checked supplies.
  checked-IsSupplied :
      (role namespace name : String) (ks : List String) (w : W)
      → elim (r.client.get_secret (record { namespace = namespace; name = name }) w) [
        | err e ↦ err e
        | ok secret ↦ require_secret_keys r role secret ks
      ]
        ≡ ok tt
      → All (λ k. IsSupplied r namespace w (key_of name k)) ks
  checked-IsSupplied role namespace name ks w h =
      elim (Result-cases (r.client.get_secret (record { namespace = namespace; name = name }) w)) [
        | inr (x, e) ↦ absurd (err-ne-ok (rw e at h))
        | inl (secret, found) ↦
            All_map_lem (HasKey secret) (λ k. IsSupplied r namespace w (key_of name k))
              (λ k has. (secret, found, has)) ks
              (require_secret_keys-HasKey role secret ks (rw found at h))
      ]

  -- After ensureJobSecret and ensureTargetSecret have succeeded, every key of a Secret that a pod of
  -- the applied CronJob reads, in its environment or through a volume, is in the cluster.
  pub ensure_secrets-PodReads :
      (restore : Restore) (w : W) (cj : CronJob)
      → ensure_job_secret r restore w ≡ ok tt
      → ensure_target_secret r restore w ≡ ok tt
      → PodReads
          (IsSupplied r restore.meta.namespace w)
          ((owned_resources r restore).mutate_cron_job cj).spec.job.pod
  unfolding ensure_job_secret ensure_target_secret owned_resources
  ensure_secrets-PodReads restore w cj job target =
      let namespace = restore.meta.namespace in
      let (a, (k, (g, _))) =
        checked-IsSupplied "secret " namespace restore.spec.secret_ref.name
          required_restore_secret_keys w job in
      let login = restore_target_secret restore in
      let (u, (p, _)) =
        checked-IsSupplied "target secret " namespace login.name
          (login.user_key ∷ login.pass_key ∷ []) w target in
      restore_pod-Reads r.scripts r.quantities r.config (IsSupplied r namespace w) cj restore g a k
        (u, p)
