-- ===== src/Controller/Backup/Inputs.antt =====
-- internal/controller/backup_controller.go: the Secret and the source claim
use Prim.Native.String.{◌++◌}
use mathlib.Core.List as List
use karkive.Prelude.{String, not, none, some, List, [], ◌∷◌, ◌==◌, is_some, lookup, if◌then◌else◌}
use karkive.Errors.{plain, Result, ok, err}
use karkive.Kube.Objects.{Secret}
use karkive.Api.Common.{enabled_or_default}
use karkive.Api.Backup.{Backup}
use karkive.Resources.PvcSource.{is_pvc_backup}
use karkive.Controller.Report.{Reconciler}

abbrev pub required_backup_secret_keys : List String
required_backup_secret_keys = "gpg_passphrase" ∷ []

abbrev pub required_backup_db_secret_keys : List String
required_backup_db_secret_keys = "username" ∷ "password" ∷ []

abbrev pub required_backup_s3_secret_keys : List String
required_backup_s3_secret_keys = "s3_access_key" ∷ "s3_secret_key" ∷ []

module _ {W : Type 0} (r : Reconciler W) where
  -- The loop of ensureSecret over required keys.
  unfoldable pub require_keys : Secret → List String → Result (Unit {0})
  require_keys secret [] = ok tt
  require_keys secret (k ∷ ks) =
      let rest = require_keys secret ks in
      if is_some (lookup k secret.entries)
      then rest
      else err (
          plain (
            "secret "
            ++ r.external.quote secret.meta.name
            ++ " is missing key "
            ++ r.external.quote k))

  unfoldable pub check_secret_keys : Backup → Secret → Result (Unit {0})
  check_secret_keys backup secret =
      let required =
        if not (is_pvc_backup backup)
        then List.◌++◌ required_backup_db_secret_keys required_backup_secret_keys
        else required_backup_secret_keys in
      elim (require_keys secret required) [
        | err e ↦ err e
        | ok _ ↦
            if enabled_or_default backup.spec.s3
            then require_keys secret required_backup_s3_secret_keys
            else ok tt
      ]

  unfoldable pub ensure_secret : Backup → W → Result (Unit {0})
  ensure_secret backup w =
      elim (r.client.get_secret
        (record { namespace = backup.meta.namespace; name = backup.spec.secret_ref.name }) w) [
          | err e ↦ err e
          | ok secret ↦ check_secret_keys backup secret
        ]

  -- The loop of checkSourcePVC over the access modes of the claim.
  unfoldable pub check_access_modes : String → List String → Result (Unit {0})
  check_access_modes claim [] = ok tt
  check_access_modes claim (mode ∷ modes) =
      let rest = check_access_modes claim modes in
      if mode == "ReadWriteOncePod"
      then err (
          plain (
            "source PVC "
            ++ r.external.quote claim
            ++ " is ReadWriteOncePod; a backup pod cannot mount it next to its consumer"))
      else rest

  -- A nil spec.pvc would panic here; for engine pvc ValidateBackupSpec has refused it before.
  unfoldable pub check_source_pvc : Backup → String → W → Result (Unit {0})
  check_source_pvc backup owned w = elim backup.spec.pvc [
    | none ↦ err (plain "runtime error: invalid memory address or nil pointer dereference")
    | some src ↦
        if src.claim_name == owned
        then err (
            plain (
              "spec.pvc.claimName "
              ++ r.external.quote src.claim_name
              ++ " is this Backup's own scratch PVC"))
        else elim (r.client.get_claim
            (record { namespace = backup.meta.namespace; name = src.claim_name }) w) [
              | err e ↦ err e
              | ok pvc ↦ check_access_modes src.claim_name pvc.access_modes
            ]
  ]
