-- ===== src/Resources/Defaults.antt =====
-- internal/resources/defaults.go: the other defaults
use karkive.Prelude.{
  ℤ, String, Bool, true, Option, none, some, [], ◌∷◌, ◌==◌, not, deref, if◌then◌else◌,
}
use karkive.Kube.Meta.{Quantity, QuantityOps, must_parse}
use karkive.Api.Common.{PersistenceSpec, SecretKeySelector, engine_mariadb, engine_redis}
use karkive.Api.Backup.{Backup}
use karkive.Api.Restore.{Restore}
use karkive.Resources.Config.{
  Config, default_data_dir, default_mc_config_dir, default_workdir, default_local_retention_days,
  default_s3_retention_days,
}
use karkive.Resources.Engine.{effective_engine}
use karkive.Resources.Images.{first_non_empty}

unfoldable pub persistence_enabled : Option PersistenceSpec → Bool
persistence_enabled none = true
persistence_enabled (some p) = deref p.enabled true

module _ (ops : QuantityOps) where
  unfoldable pub persistence_size : Option PersistenceSpec → Quantity
  persistence_size none = must_parse "1Gi"
  persistence_size (some p) = if not (ops.is_zero p.size) then p.size else must_parse "1Gi"

unfoldable pub s3_endpoint : Backup → Config → String
unfolding first_non_empty
s3_endpoint backup cfg = first_non_empty (backup.spec.s3.endpoint ∷ cfg.default_s3_endpoint ∷ [])

unfoldable pub s3_bucket : Backup → Config → String
unfolding first_non_empty
s3_bucket backup cfg = first_non_empty (backup.spec.s3.bucket ∷ cfg.default_s3_bucket ∷ [])

unfoldable pub local_retention_days : Backup → ℤ
local_retention_days backup = deref backup.spec.local_retention_days default_local_retention_days

unfoldable pub s3_retention_days : Backup → ℤ
s3_retention_days backup = deref backup.spec.s3.retention_days default_s3_retention_days

-- dataDir, which BackupVolumeMountPath exports
unfoldable pub data_dir : Backup → String
unfolding first_non_empty
data_dir backup = first_non_empty (backup.spec.data_dir ∷ default_data_dir ∷ [])

unfoldable pub mc_config_dir : Backup → String
unfolding first_non_empty
mc_config_dir backup = first_non_empty (backup.spec.mc_config_dir ∷ default_mc_config_dir ∷ [])

unfoldable pub restore_s3_endpoint : Restore → Config → String
unfolding first_non_empty
restore_s3_endpoint restore cfg =
    first_non_empty (restore.spec.s3.endpoint ∷ cfg.default_s3_endpoint ∷ [])

unfoldable pub restore_s3_bucket : Restore → Config → String
unfolding first_non_empty
restore_s3_bucket restore cfg =
    first_non_empty (restore.spec.s3.bucket ∷ cfg.default_s3_bucket ∷ [])

-- restoreWorkdir, which RestoreVolumeMountPath exports
unfoldable pub restore_workdir : Restore → String
unfolding first_non_empty
restore_workdir restore = first_non_empty (restore.spec.workdir ∷ default_workdir ∷ [])

unfoldable pub restore_mc_config_dir : Restore → String
unfolding first_non_empty
restore_mc_config_dir restore =
    first_non_empty (restore.spec.mc_config_dir ∷ default_mc_config_dir ∷ [])

unfoldable pub restore_owner_role : Restore → String
unfolding first_non_empty
restore_owner_role restore =
    first_non_empty (restore.spec.database.owner_role ∷ restore.spec.database.name ∷ [])

-- The name of a Secret and the keys of the login in it.
pub record SecretKeys : Type 0 where
  pub name : String
  pub user_key : String
  pub pass_key : String

unfoldable pub restore_secret_keys : Option SecretKeySelector → String → SecretKeys
restore_secret_keys none default_name = record {
  name = default_name;
  user_key = "username";
  pass_key = "password";
}
restore_secret_keys (some s) default_name = record {
  name = if not (s.name == "") then s.name else default_name;
  user_key = if not (s.username_key == "") then s.username_key else "username";
  pass_key = if not (s.password_key == "") then s.password_key else "password";
}

unfoldable pub restore_postgres_secret : Restore → SecretKeys
unfolding restore_secret_keys
restore_postgres_secret restore = restore_secret_keys restore.spec.postgres_secret "postgres"

unfoldable pub restore_mariadb_secret : Restore → SecretKeys
unfolding restore_secret_keys
restore_mariadb_secret restore = restore_secret_keys restore.spec.mariadb_secret "mariadb"

unfoldable pub restore_redis_secret : Restore → SecretKeys
unfolding restore_secret_keys
restore_redis_secret restore = restore_secret_keys restore.spec.redis_secret "redis"

unfoldable pub restore_target_secret : Restore → SecretKeys
unfolding restore_postgres_secret restore_mariadb_secret restore_redis_secret effective_engine
restore_target_secret restore =
    let engine = effective_engine restore.spec.engine in
    if engine == engine_mariadb
    then restore_mariadb_secret restore
    else if engine == engine_redis
    then restore_redis_secret restore
    else restore_postgres_secret restore

unfoldable pub bool_env : Option Bool → Bool → String
bool_env p def = if deref p def then "true" else "false"
