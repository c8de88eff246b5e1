-- ===== src/Resources/Config.antt =====
-- internal/config/config.go
use karkive.Prelude.{ℤ, pos, String}

pub record Config : Type 0 where
  pub busy_box_image : String
  pub gnu_pg_image : String
  pub postgres_image : String
  pub mc_image : String
  pub mariadb_image : String
  pub redis_image : String
  pub tar_image : String
  pub default_s3_endpoint : String
  pub default_s3_bucket : String

abbrev pub default_busy_box_image : String
default_busy_box_image = "docker.io/library/busybox:1.37"

abbrev pub default_gnu_pg_image : String
default_gnu_pg_image = "docker.io/vladgh/gpg:1.3.11"

abbrev pub default_postgres_image : String
default_postgres_image = "docker.io/cloudnative-pg/postgresql:18.4"

abbrev pub default_mc_image : String
default_mc_image = "docker.io/minio/mc:RELEASE.2025-08-13T08-35-41Z"

abbrev pub default_mariadb_image : String
default_mariadb_image = "docker.io/library/mariadb:10.6"

abbrev pub default_redis_image : String
default_redis_image = "docker.io/library/redis:7.4"

abbrev pub default_tar_image : String
default_tar_image = "docker.io/library/debian:trixie-slim"

abbrev pub default_data_dir : String
default_data_dir = "/backup/data"

abbrev pub default_mc_config_dir : String
default_mc_config_dir = "/tmp/mc-config"

abbrev pub default_workdir : String
default_workdir = "/workdir"

abbrev pub default_pvc_source_dir : String
default_pvc_source_dir = "/source"

abbrev pub default_local_retention_days : ℤ
default_local_retention_days = pos 7

abbrev pub default_s3_retention_days : ℤ
default_s3_retention_days = pos 14
