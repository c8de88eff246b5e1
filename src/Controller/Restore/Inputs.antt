-- ===== src/Controller/Restore/Inputs.antt =====
-- internal/controller/restore_controller.go: the two Secrets
use Prim.Native.String.{◌++◌}
use karkive.Prelude.{String, List, [], ◌∷◌, is_some, lookup, if◌then◌else◌}
use karkive.Errors.{plain, Result, ok, err}
use karkive.Kube.Objects.{Secret}
use karkive.Api.Restore.{Restore}
use karkive.Resources.Defaults.{restore_target_secret}
use karkive.Controller.Report.{Reconciler}

abbrev pub required_restore_secret_keys : List String
required_restore_secret_keys = "s3_access_key" ∷ "s3_secret_key" ∷ "gpg_passphrase" ∷ []

module _ {W : Type 0} (r : Reconciler W) where
  -- The loops of ensureJobSecret and ensureTargetSecret; the first argument names the Secret.
  unfoldable pub require_secret_keys : String → Secret → List String → Result (Unit {0})
  require_secret_keys role secret [] = ok tt
  require_secret_keys role secret (k ∷ ks) =
      let rest = require_secret_keys role secret ks in
      let text =
        role ++ r.external.quote secret.meta.name ++ " is missing key " ++ r.external.quote k in
      if is_some (lookup k secret.entries) then rest else err (plain text)

  unfoldable pub ensure_job_secret : Restore → W → Result (Unit {0})
  ensure_job_secret restore w =
      elim (r.client.get_secret
        (record { namespace = restore.meta.namespace; name = restore.spec.secret_ref.name }) w) [
          | err e ↦ err e
          | ok secret ↦ require_secret_keys "secret " secret required_restore_secret_keys
        ]

  unfoldable pub ensure_target_secret : Restore → W → Result (Unit {0})
  ensure_target_secret restore w =
      let target = restore_target_secret restore in
      elim (r.client.get_secret (record { namespace = restore.meta.namespace; name = target.name })
        w) [
          | err e ↦ err e
          | ok secret ↦
              require_secret_keys "target secret " secret (target.user_key ∷ target.pass_key ∷ [])
        ]
