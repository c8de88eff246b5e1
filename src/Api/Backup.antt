-- ===== src/Api/Backup.antt =====
-- api/v1alpha1/backup_types.go
use karkive.Prelude.{ℤ, String, Bool, Option, List}
use karkive.Kube.Meta.{Time, ObjectMeta, LabelSelector, Condition}
use karkive.Kube.Pod.{ResourceRequirements}
use karkive.Api.Common.{
  Engine, DatabaseSpec, S3Spec, LocalObjectReference, PersistenceSpec, ImageSet, JobPolicy,
  RuntimeSpec, LastJobStatus,
}

pub record BackupResources : Type 0 where
  pub cleanup : Option ResourceRequirements
  pub dump : Option ResourceRequirements
  pub compress : Option ResourceRequirements
  pub encrypt : Option ResourceRequirements
  pub s3_sync : Option ResourceRequirements

pub record PvcSourceSpec : Type 0 where
  pub claim_name : String
  pub path : String
  pub excludes : List String
  pub consumer_selector : Option LabelSelector
  pub run_as_user : Option ℤ
  pub run_as_group : Option ℤ

pub record BackupSpec : Type 0 where
  pub engine : Engine
  pub schedule : String
  pub suspend : Option Bool
  pub database : DatabaseSpec
  pub pvc : Option PvcSourceSpec
  pub s3 : S3Spec
  pub secret_ref : LocalObjectReference
  pub persistence : Option PersistenceSpec
  pub local_retention_days : Option ℤ
  pub log_file_enabled : Option Bool
  pub data_dir : String
  pub mc_config_dir : String
  pub images : Option ImageSet
  pub resources : Option BackupResources
  pub job : Option JobPolicy
  pub runtime : Option RuntimeSpec
  pub component : String

abbrev pub phase_pending : String
phase_pending = "Pending"

abbrev pub phase_ready : String
phase_ready = "Ready"

abbrev pub phase_error : String
phase_error = "Error"

abbrev pub phase_unsupported : String
phase_unsupported = "Unsupported"

pub record BackupStatus : Type 0 where
  pub phase : String
  pub observed_generation : ℤ
  pub cron_job_name : String
  pub volume_holder_name : String
  pub last_schedule_time : Option Time
  pub last_successful_time : Option Time
  pub last_job : Option LastJobStatus
  pub conditions : List Condition

pub record Backup : Type 0 where
  pub meta : ObjectMeta
  pub spec : BackupSpec
  pub status : BackupStatus
