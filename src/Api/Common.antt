-- ===== src/Api/Common.antt =====
-- api/v1alpha1/common_types.go: the types that Backup and Restore share.
use karkive.Prelude.{
  ℤ, String, StringMap, Bool, true, Option, none, some, List, ◌==◌, if◌then◌else◌,
}
use karkive.Kube.Meta.{Time, Quantity}

abbrev pub Engine : Type 0
Engine = String

abbrev pub engine_postgres : Engine
engine_postgres = "postgres"

abbrev pub engine_mariadb : Engine
engine_mariadb = "mariadb"

abbrev pub engine_redis : Engine
engine_redis = "redis"

abbrev pub engine_pvc : Engine
engine_pvc = "pvc"

pub record DatabaseSpec : Type 0 where
  pub host : String
  pub port : ℤ
  pub name : String
  pub owner_role : String

pub record S3Spec : Type 0 where
  pub enabled : Option Bool
  pub endpoint : String
  pub bucket : String
  pub path : String
  pub retention_days : Option ℤ

unfoldable pub enabled_or_default : S3Spec → Bool
enabled_or_default s = elim s.enabled [ none ↦ true | some b ↦ b ]

pub record PersistenceSpec : Type 0 where
  pub enabled : Option Bool
  pub storage_class_name : String
  pub access_modes : List String
  pub size : Quantity
  pub annotations : StringMap

pub record ImageSpec : Type 0 where
  pub image : String
  pub pull_policy : String

pub record ImageSet : Type 0 where
  pub busy_box : Option ImageSpec
  pub gnu_pg : Option ImageSpec
  pub postgres : Option ImageSpec
  pub mc : Option ImageSpec
  pub mariadb : Option ImageSpec
  pub redis : Option ImageSpec
  pub tar : Option ImageSpec

-- corev1.LocalObjectReference
pub record LocalObjectReference : Type 0 where
  pub name : String

pub record SecretKeySelector : Type 0 where
  pub name : String
  pub username_key : String
  pub password_key : String

abbrev pub RuntimeMode : Type 0
RuntimeMode = String

abbrev pub mode_cron_job : RuntimeMode
mode_cron_job = "CronJob"

abbrev pub mode_cron_job_with_volume_holder : RuntimeMode
mode_cron_job_with_volume_holder = "CronJobWithVolumeHolder"

abbrev pub mode_persistent_pod_with_trigger_job : RuntimeMode
mode_persistent_pod_with_trigger_job = "PersistentPodWithTriggerJob"

abbrev pub mode_persistent_pod_with_in_pod_cron : RuntimeMode
mode_persistent_pod_with_in_pod_cron = "PersistentPodWithInPodCron"

pub record RuntimeSpec : Type 0 where
  pub mode : RuntimeMode

unfoldable pub effective_mode : Option RuntimeSpec → RuntimeMode
effective_mode none = mode_cron_job
effective_mode (some r) = if r.mode == "" then mode_cron_job else r.mode

pub record JobPolicy : Type 0 where
  pub concurrency_policy : String
  pub failed_jobs_history_limit : Option ℤ
  pub successful_jobs_history_limit : Option ℤ
  pub starting_deadline_seconds : Option ℤ
  pub backoff_limit : Option ℤ
  pub ttl_seconds_after_finished : Option ℤ
  pub restart_policy : String
  pub time_zone : String

abbrev pub outcome_succeeded : String
outcome_succeeded = "Succeeded"

abbrev pub outcome_failed : String
outcome_failed = "Failed"

abbrev pub condition_ready : String
condition_ready = "Ready"

abbrev pub condition_backup_succeeded : String
condition_backup_succeeded = "BackupSucceeded"

abbrev pub condition_restore_succeeded : String
condition_restore_succeeded = "RestoreSucceeded"

pub record LastJobStatus : Type 0 where
  pub name : String
  pub outcome : String
  pub reason : String
  pub message : String
  pub start_time : Option Time
  pub completion_time : Option Time
