-- ===== src/Controller/Client.antt =====
-- What the controllers call in sigs.k8s.io/controller-runtime and k8s.io/apimachinery: the client of
-- the API server, CreateOrUpdate, owner references, conditions and deep equality. None of it is part
-- of the repository, so it is an argument of the model. `W` is the state of the cluster; a read does
-- not change it.
use karkive.Prelude.{String, StringMap, Bool, Option, List}
use karkive.Errors.{Result}
use karkive.Kube.Meta.{Time, ObjectMeta, Condition}
use karkive.Kube.Objects.{Secret, ConfigMap, PersistentVolumeClaim, CronJob, Deployment, Job}
use karkive.Api.Common.{LastJobStatus}
use karkive.Api.Backup.{Backup}
use karkive.Api.Restore.{Restore}

-- A request names an object by its namespace and its name.
pub record ObjectKey : Type 0 where
  pub namespace : String
  pub name : String

pub record Client (W : Type 0) : Type 0 where
  -- client.Get, one field for each type of object
  pub get_backup : ObjectKey → W → Result Backup
  pub get_restore : ObjectKey → W → Result Restore
  pub get_secret : ObjectKey → W → Result Secret
  pub get_config_map : ObjectKey → W → Result ConfigMap
  pub get_claim : ObjectKey → W → Result PersistentVolumeClaim
  pub get_deployment : ObjectKey → W → Result Deployment
  pub get_cron_job : ObjectKey → W → Result CronJob
  -- client.List with client.InNamespace and client.MatchingLabels
  pub list_jobs : String → StringMap → W → Result (List Job)
  -- controllerutil.CreateOrUpdate with its mutate function; the object is returned as stored
  pub apply_config_map : ObjectKey → (ConfigMap → Result ConfigMap) → W → Result ConfigMap × W
  pub apply_claim :
      ObjectKey
      → (PersistentVolumeClaim → Result PersistentVolumeClaim)
      → W
      → Result PersistentVolumeClaim × W
  pub apply_deployment : ObjectKey → (Deployment → Result Deployment) → W → Result Deployment × W
  pub apply_cron_job : ObjectKey → (CronJob → Result CronJob) → W → Result CronJob × W
  -- client.Delete
  pub delete_config_map : ObjectKey → W → Result (Unit {0}) × W
  pub delete_deployment : ObjectKey → W → Result (Unit {0}) × W
  pub delete_cron_job : ObjectKey → W → Result (Unit {0}) × W
  -- client.Status().Update
  pub update_backup_status : Backup → W → Result (Unit {0}) × W
  pub update_restore_status : Restore → W → Result (Unit {0}) × W
  -- record.EventRecorder.Event: the object, the type, the reason and the message
  pub event : ObjectMeta → String → String → String → W → W
  -- controllerutil.SetControllerReference(owner, object) with WithBlockOwnerDeletion(false)
  pub set_controller_reference : ObjectMeta → ObjectMeta → Result ObjectMeta
  -- metav1.IsControlledBy(object, owner)
  pub is_controlled_by : ObjectMeta → ObjectMeta → Bool

-- meta.SetStatusCondition, and equality.Semantic.DeepEqual at the two types at which it is used.
pub record StatusOps : Type 0 where
  pub set_status_condition : List Condition → Condition → List Condition × Bool
  pub last_job_equal : Option LastJobStatus → Option LastJobStatus → Bool
  pub meta_time_equal : Option Time → Option Time → Bool
