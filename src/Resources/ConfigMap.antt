-- ===== src/Resources/ConfigMap.antt =====
-- internal/resources/configmap.go and restore_configmap.go: the environment of the pipeline
pub mod Bucket
use karkive.Prelude.{
  StringMap, true, false, [], ◌∷◌, ◌==◌, insert_all, get_or_empty, itoa, join, if◌then◌else◌,
}
use karkive.Errors.{Result, ok, err, plain}
use karkive.Kube.Objects.{ConfigMap}
use karkive.Api.Common.{engine_mariadb, engine_redis, engine_pvc, enabled_or_default}
use karkive.Api.Backup.{Backup}
use karkive.Api.Restore.{Restore}
use karkive.Resources.Config.{Config, default_pvc_source_dir}
use karkive.Resources.Engine.{effective_engine, dump_prefix, database_port}
use karkive.Resources.Labels.{backup_labels, restore_labels}
use karkive.Resources.PvcSource.{pvc_source, pvc_source_path}
use karkive.Resources.Defaults.{
  s3_endpoint, s3_bucket, local_retention_days, s3_retention_days, data_dir, mc_config_dir,
  restore_s3_endpoint, restore_s3_bucket, restore_workdir, restore_mc_config_dir,
  restore_owner_role, bool_env,
}

-- The end of both functions: the two entries without which the pipeline finds no bucket.
unfoldable pub check_bucket : ConfigMap → Result ConfigMap
check_bucket cm =
    if get_or_empty "S3_ENDPOINT" cm.entries == ""
    then err (plain "s3.endpoint is empty (set spec.s3.endpoint or --default-s3-endpoint)")
    else if get_or_empty "S3_BUCKET" cm.entries == ""
    then err (plain "s3.bucket is empty (set spec.s3.bucket or --default-s3-bucket)")
    else ok cm

unfoldable pub backup_entries : Backup → StringMap
backup_entries backup =
    let engine = effective_engine backup.spec.engine in
    ("ENGINE", engine)
    ∷ ("DUMP_PREFIX", dump_prefix engine)
    ∷ ("DATA_DIR", data_dir backup)
    ∷ ("MC_CONFIG_DIR", mc_config_dir backup)
    ∷ ("LOCAL_RETENTION_DAYS", itoa (local_retention_days backup))
    ∷ ("S3_ENABLED", bool_env backup.spec.s3.enabled true)
    ∷ ("LOG_FILE_ENABLED", bool_env backup.spec.log_file_enabled false)
    ∷ []

unfoldable pub backup_s3_entries : Backup → Config → StringMap
backup_s3_entries backup cfg =
    ("S3_ENDPOINT", s3_endpoint backup cfg)
    ∷ ("S3_BUCKET", s3_bucket backup cfg)
    ∷ ("S3_PATH", backup.spec.s3.path)
    ∷ ("S3_RETENTION_DAYS", itoa (s3_retention_days backup))
    ∷ []

-- The switch of MutateBackupConfigMap on the engine.
unfoldable pub backup_engine_entries : Backup → StringMap
backup_engine_entries backup =
    let engine = effective_engine backup.spec.engine in
    let db = backup.spec.database in
    let port = itoa (database_port db engine) in
    let src = pvc_source backup in
    if engine == engine_mariadb
    then ("MYSQL_HOST", db.host) ∷ ("MYSQL_PORT", port) ∷ ("MYSQL_DATABASE", db.name) ∷ []
    else if engine == engine_redis
    then ("REDIS_HOST", db.host) ∷ ("REDIS_PORT", port) ∷ ("REDIS_NAME", db.name) ∷ []
    else if engine == engine_pvc
    then ("PVC_CLAIM_NAME", src.claim_name)
      ∷ ("PVC_SOURCE_DIR", default_pvc_source_dir)
      ∷ ("PVC_PATH", pvc_source_path src)
      ∷ ("PVC_EXCLUDES", join "\n" src.excludes)
      ∷ []
    else ("PGHOST", db.host) ∷ ("PGPORT", port) ∷ ("PGDATABASE", db.name) ∷ []

unfoldable pub mutate_backup_config_map : ConfigMap → Backup → Config → Result ConfigMap
mutate_backup_config_map cm backup cfg =
    let with_s3 = enabled_or_default backup.spec.s3 in
    let start = backup_entries backup in
    let uploaded = if with_s3 then insert_all (backup_s3_entries backup cfg) start else start in
    let meta = cm.meta in
    let cm' : ConfigMap = record {
      meta = record meta { labels = backup_labels backup };
      entries = insert_all (backup_engine_entries backup) uploaded;
    } in
    if with_s3 then check_bucket cm' else ok cm'

unfoldable pub restore_entries : Restore → Config → StringMap
restore_entries restore cfg =
    let engine = effective_engine restore.spec.engine in
    ("ENGINE", engine)
    ∷ ("DUMP_PREFIX", dump_prefix engine)
    ∷ ("WORKDIR", restore_workdir restore)
    ∷ ("MC_CONFIG_DIR", restore_mc_config_dir restore)
    ∷ ("S3_ENDPOINT", restore_s3_endpoint restore cfg)
    ∷ ("S3_BUCKET", restore_s3_bucket restore cfg)
    ∷ ("S3_PATH", restore.spec.s3.path)
    ∷ ("BACKUP_FILE", restore.spec.backup_file)
    ∷ ("USE_LATEST_BACKUP_AS_FALLBACK", bool_env restore.spec.use_latest_backup_as_fallback true)
    ∷ ("DROP_DATABASE_IF_EXISTS", bool_env restore.spec.drop_database_if_exists true)
    ∷ ("LOG_FILE_ENABLED", bool_env restore.spec.log_file_enabled false)
    ∷ []

-- The switch of MutateRestoreConfigMap on the engine.
unfoldable pub restore_engine_entries : Restore → StringMap
restore_engine_entries restore =
    let engine = effective_engine restore.spec.engine in
    let db = restore.spec.database in
    let port = itoa (database_port db engine) in
    if engine == engine_mariadb
    then ("MYSQL_HOST", db.host) ∷ ("MYSQL_PORT", port) ∷ ("MYSQL_DATABASE", db.name) ∷ []
    else if engine == engine_redis
    then ("REDIS_HOST", db.host) ∷ ("REDIS_PORT", port) ∷ ("REDIS_NAME", db.name) ∷ []
    else ("PGHOST", db.host)
      ∷ ("PGPORT", port)
      ∷ ("PGDATABASE", db.name)
      ∷ ("PG_OWNER_ROLE", restore_owner_role restore)
      ∷ ("STRIP_PGAUDIT_EXTENSION", bool_env restore.spec.strip_pg_audit_extension true)
      ∷ []

unfoldable pub mutate_restore_config_map : ConfigMap → Restore → Config → Result ConfigMap
mutate_restore_config_map cm restore cfg =
    let meta = cm.meta in
    check_bucket (record {
      meta = record meta { labels = restore_labels restore };
      entries = insert_all (restore_engine_entries restore) (restore_entries restore cfg);
    })
