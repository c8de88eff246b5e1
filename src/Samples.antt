-- ===== src/Samples.antt =====
-- Sample objects, and a small cluster, on which the theorems are tried.
mod Specs
pub use Specs.*
use Prim.Native.String.{◌++◌, len}
use karkive.Prelude.{ℕ, suc, pos, String, true, none, some, [], ◌∷◌, ◌==◌, leb, if◌then◌else◌}
use karkive.Errors.{Error, api, ErrorKind, ok, err}
use karkive.Kube.Meta.{ObjectMeta, QuantityOps, must_parse}
use karkive.Kube.Pod.{PodSpec, resource_storage}
use karkive.Kube.Objects.{Secret, ConfigMap, PersistentVolumeClaim, CronJob, Deployment, Job}
use karkive.Api.Common.{DatabaseSpec, S3Spec, mode_cron_job_with_volume_holder}
use karkive.Api.Backup.{Backup, BackupSpec, PvcSourceSpec}
use karkive.Api.Restore.{Restore, RestoreSpec}
use karkive.Validation.{External}
use karkive.Resources.Config.{Config}
use karkive.Resources.Pipeline.{Scripts}
use karkive.Resources.Labels.{label_kind, label_backup_name, kind_backup}
use karkive.JobStatus.{job_complete}
use karkive.Controller.Client.{Client}

abbrev pub pod : PodSpec
pod = record {
  automount_service_account_token = none;
  restart_policy = "";
  security_context = record { fs_group = none; fs_group_change_policy = none };
  affinity = none;
  termination_grace_period_seconds = none;
  containers = [];
  volumes = [];
}

-- The objects that CreateOrUpdate hands to its mutate function when there is none yet.
abbrev pub config_map : String → ConfigMap
config_map name = record { meta = meta_of name; entries = [] }

abbrev pub claim : String → PersistentVolumeClaim
claim name = record {
  meta = meta_of name;
  access_modes = "ReadWriteOnce" ∷ [];
  requests = (resource_storage, must_parse "1Gi") ∷ [];
  storage_class_name = none;
}

abbrev pub cron_job : String → CronJob
cron_job name = record {
  meta = meta_of name;
  spec = record {
    schedule = "";
    time_zone = none;
    concurrency_policy = "";
    failed_jobs_history_limit = none;
    successful_jobs_history_limit = none;
    starting_deadline_seconds = none;
    suspend = none;
    job_template_labels = [];
    job = record {
      backoff_limit = none;
      ttl_seconds_after_finished = none;
      template_labels = [];
      pod = pod;
    };
  };
  last_schedule_time = none;
  last_successful_time = none;
}

abbrev pub deployment : String → Deployment
deployment name = record {
  meta = meta_of name;
  spec = record { replicas = none; selector = []; strategy = ""; template_labels = []; pod = pod };
  available_replicas = pos 1;
}

abbrev pub secret : Secret
secret = record {
  meta = meta_of "keys";
  entries =
      ("username", "u")
      ∷ ("password", "p")
      ∷ ("gpg_passphrase", "g")
      ∷ ("s3_access_key", "a")
      ∷ ("s3_secret_key", "s")
      ∷ [];
}

-- A Job of the sample Backup: a pod failed, and the retry completed.
abbrev pub retried_job : Job
retried_job =
    let meta = meta_of "app-1" in
    record {
      meta = record meta { labels = (label_kind, kind_backup) ∷ (label_backup_name, "app") ∷ [] };
      start_time = some 3;
      completion_time = some 9;
      failed = pos 1;
      conditions =
          record {
            type = job_complete;
            status = "True";
            reason = "";
            message = "";
            last_transition_time = 9;
          }
          ∷ [];
    }

abbrev pub running_job : Job
running_job = record retried_job { completion_time = none; failed = pos 0; conditions = [] }

abbrev pub not_found : Error
not_found = api ErrorKind.not_found "not found"

-- A cluster that holds the sample objects and nothing that the operator owns. Its state counts the
-- writes.
abbrev pub client : Client ℕ
client = record {
  get_backup = λ k w. ok backup;
  get_restore = λ k w. ok restore;
  get_secret = λ k w. ok secret;
  get_config_map = λ k w. err not_found;
  get_claim = λ k w. ok (claim k.name);
  get_deployment = λ k w. ok (deployment k.name);
  get_cron_job = λ k w. err not_found;
  list_jobs = λ ns labels w. ok (running_job ∷ retried_job ∷ []);
  apply_config_map = λ k mutate w. (mutate (config_map k.name), suc w);
  apply_claim = λ k mutate w. (mutate (claim k.name), suc w);
  apply_deployment = λ k mutate w. (mutate (deployment k.name), suc w);
  apply_cron_job = λ k mutate w. (mutate (cron_job k.name), suc w);
  delete_config_map = λ k w. (ok tt, suc w);
  delete_deployment = λ k w. (ok tt, suc w);
  delete_cron_job = λ k w. (ok tt, suc w);
  update_backup_status = λ b w. (ok tt, suc w);
  update_restore_status = λ b w. (ok tt, suc w);
  event = λ o type reason text w. w;
  set_controller_reference = λ owner meta. ok meta;
  is_controlled_by = λ meta owner. true;
}
