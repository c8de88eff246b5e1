-- ===== src/Api/Restore.antt =====
-- api/v1alpha1/restore_types.go. The phases are those of a Backup.
use karkive.Prelude.{ℤ, String, Bool, Option, List}
use karkive.Kube.Meta.{Time, ObjectMeta, Condition}
use karkive.Kube.Pod.{ResourceRequirements}
use karkive.Api.Common.{
  Engine, DatabaseSpec, S3Spec, LocalObjectReference, PersistenceSpec, ImageSet, JobPolicy,
  RuntimeSpec, LastJobStatus, SecretKeySelector,
}

pub record RestoreResources : Type 0 where
  pub cleanup : Option ResourceRequirements
  pub fetch : Option ResourceRequirements
  pub decrypt : Option ResourceRequirements
  pub extract : Option ResourceRequirements
  pub restore : Option ResourceRequirements

pub record RestoreSpec : Type 0 where
  pub engine : Engine
  pub schedule : String
  pub suspend : Option Bool
  pub database : DatabaseSpec
  pub s3 : S3Spec
  pub secret_ref : LocalObjectReference
  pub postgres_secret : Option SecretKeySelector
  pub mariadb_secret : Option SecretKeySelector
  pub redis_secret : Option SecretKeySelector
  pub persistence : Option PersistenceSpec
  pub log_file_enabled : Option Bool
  pub workdir : String
  pub mc_config_dir : String
  pub backup_file : String
  pub use_latest_backup_as_fallback : Option Bool
  pub drop_database_if_exists : Option Bool
  pub strip_pg_audit_extension : Option Bool
  pub images : Option ImageSet
  pub resources : Option RestoreResources
  pub job : Option JobPolicy
  pub runtime : Option RuntimeSpec
  pub component : String

pub record RestoreStatus : Type 0 where
  pub phase : String
  pub observed_generation : ℤ
  pub cron_job_name : String
  pub volume_holder_name : String
  pub last_schedule_time : Option Time
  pub last_successful_time : Option Time
  pub last_job : Option LastJobStatus
  pub conditions : List Condition

pub record Restore : Type 0 where
  pub meta : ObjectMeta
  pub spec : RestoreSpec
  pub status : RestoreStatus
