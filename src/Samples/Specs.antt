-- ===== src/Samples/Specs.antt =====
-- Sample specs, with the settings and the functions that they are read with.
use Prim.Native.String.{◌++◌, len}
use karkive.Prelude.{pos, String, none, some, [], ◌∷◌, ◌==◌, leb, if◌then◌else◌}
use karkive.Kube.Meta.{ObjectMeta, QuantityOps}
use karkive.Api.Common.{DatabaseSpec, S3Spec, mode_cron_job_with_volume_holder}
use karkive.Api.Backup.{Backup, BackupSpec, PvcSourceSpec}
use karkive.Api.Restore.{Restore, RestoreSpec}
use karkive.Validation.{External}
use karkive.Resources.Config.{Config}
use karkive.Resources.Pipeline.{Scripts}

abbrev pub external : External
external = record {
  parse_standard = λ s. if s == "daily" then some "expected exactly 5 fields" else none;
  label_selector_as_selector = λ s. none;
  quote = λ s. "'" ++ s ++ "'";
}

abbrev pub quantities : QuantityOps
quantities = record { is_zero = λ q. q.text == ""; at_most = λ p q. leb (len p.text) (len q.text) }

abbrev pub meta_of : String → ObjectMeta
meta_of name = record {
  name = name;
  namespace = "db";
  uid = "uid-" ++ name;
  generation = pos 1;
  labels = [];
  annotations = [];
  owner_references = [];
  creation_timestamp = 0;
  deletion_timestamp = none;
}

abbrev pub storage : S3Spec
storage = record {
  enabled = none;
  endpoint = "https://s3";
  bucket = "dumps";
  path = "pg";
  retention_days = none;
}

abbrev pub database : DatabaseSpec
database = record { host = "pg"; port = pos 0; name = "app"; owner_role = "" }

abbrev pub backup_spec : BackupSpec
backup_spec = record {
  engine = "";
  schedule = "0 3 * * *";
  suspend = none;
  database = database;
  pvc = none;
  s3 = storage;
  secret_ref = record { name = "keys" };
  persistence = none;
  local_retention_days = none;
  log_file_enabled = none;
  data_dir = "";
  mc_config_dir = "";
  images = none;
  resources = none;
  job = none;
  runtime = some (record { mode = mode_cron_job_with_volume_holder });
  component = "";
}

abbrev pub backup : Backup
backup = record {
  meta = meta_of "app";
  spec = backup_spec;
  status = record {
    phase = "";
    observed_generation = pos 0;
    cron_job_name = "";
    volume_holder_name = "";
    last_schedule_time = none;
    last_successful_time = none;
    last_job = none;
    conditions = [];
  };
}

abbrev pub source : PvcSourceSpec
source = record {
  claim_name = "files";
  path = "uploads";
  excludes = "*.tmp" ∷ [];
  consumer_selector = none;
  run_as_user = some (pos 1000);
  run_as_group = none;
}

abbrev pub restore_spec : RestoreSpec
restore_spec = record {
  engine = "";
  schedule = "0 5 * * *";
  suspend = none;
  database = database;
  s3 = storage;
  secret_ref = record { name = "keys" };
  postgres_secret = some (record { name = "owner"; username_key = ""; password_key = "" });
  mariadb_secret = none;
  redis_secret = none;
  persistence = none;
  log_file_enabled = none;
  workdir = "";
  mc_config_dir = "";
  backup_file = "";
  use_latest_backup_as_fallback = none;
  drop_database_if_exists = none;
  strip_pg_audit_extension = none;
  images = none;
  resources = none;
  job = none;
  runtime = none;
  component = "";
}

abbrev pub restore : Restore
restore = record {
  meta = meta_of "app";
  spec = restore_spec;
  status = record {
    phase = "";
    observed_generation = pos 0;
    cron_job_name = "";
    volume_holder_name = "";
    last_schedule_time = none;
    last_successful_time = none;
    last_job = none;
    conditions = [];
  };
}

abbrev pub config : Config
config = record {
  busy_box_image = "busybox";
  gnu_pg_image = "gpg";
  postgres_image = "postgres";
  mc_image = "mc";
  mariadb_image = "mariadb";
  redis_image = "redis";
  tar_image = "debian";
  default_s3_endpoint = "";
  default_s3_bucket = "";
}

abbrev pub scripts : Scripts
scripts = record { common = "set -e"; backup = λ s. "true"; restore = λ s. "true" }
