-- ===== src/Kube/Objects.antt =====
-- corev1, batchv1 and appsv1: the objects that the operator owns or reads.
use karkive.Prelude.{ℤ, String, StringMap, Bool, Option, List}
use karkive.Kube.Meta.{Time, ObjectMeta}
use karkive.Kube.Pod.{ResourceList, PodSpec}

-- The keys of `entries` are the keys of the field `data`.
pub record Secret : Type 0 where
  pub meta : ObjectMeta
  pub entries : List (String × String)

pub record ConfigMap : Type 0 where
  pub meta : ObjectMeta
  pub entries : StringMap

pub record PersistentVolumeClaim : Type 0 where
  pub meta : ObjectMeta
  pub access_modes : List String
  pub requests : ResourceList
  pub storage_class_name : Option String

pub record JobSpec : Type 0 where
  pub backoff_limit : Option ℤ
  pub ttl_seconds_after_finished : Option ℤ
  pub template_labels : StringMap
  pub pod : PodSpec

pub record CronJobSpec : Type 0 where
  pub schedule : String
  pub time_zone : Option String
  pub concurrency_policy : String
  pub failed_jobs_history_limit : Option ℤ
  pub successful_jobs_history_limit : Option ℤ
  pub starting_deadline_seconds : Option ℤ
  pub suspend : Option Bool
  pub job_template_labels : StringMap
  pub job : JobSpec

pub record CronJob : Type 0 where
  pub meta : ObjectMeta
  pub spec : CronJobSpec
  pub last_schedule_time : Option Time
  pub last_successful_time : Option Time

pub record DeploymentSpec : Type 0 where
  pub replicas : Option ℤ
  pub selector : StringMap
  pub strategy : String
  pub template_labels : StringMap
  pub pod : PodSpec

pub record Deployment : Type 0 where
  pub meta : ObjectMeta
  pub spec : DeploymentSpec
  pub available_replicas : ℤ

pub record JobCondition : Type 0 where
  pub type : String
  pub status : String
  pub reason : String
  pub message : String
  pub last_transition_time : Time

pub record Job : Type 0 where
  pub meta : ObjectMeta
  pub start_time : Option Time
  pub completion_time : Option Time
  pub failed : ℤ
  pub conditions : List JobCondition
