-- ===== src/Resources/BackupCronJob.antt =====
-- internal/resources/cronjob.go: the backup pipeline
pub mod Containers
use karkive.Prelude.{pos, String, none, some, List, [], ◌∷◌, ◌++◌, ◌==◌, deref, if◌then◌else◌}
use karkive.Kube.Meta.{QuantityOps}
use karkive.Kube.Pod.{ResourceRequirements, Container, Volume, PodAffinityTerm, PodSpec}
use karkive.Kube.Objects.{CronJob}
use karkive.Api.Common.{JobPolicy, engine_mariadb, engine_redis, engine_pvc, enabled_or_default}
use karkive.Api.Backup.{Backup}
use karkive.Resources.Config.{Config, default_pvc_source_dir}
use karkive.Resources.Names.{backup_owned_name}
use karkive.Resources.Engine.{effective_engine}
use karkive.Resources.Labels.{backup_labels, kind_backup}
use karkive.Resources.Runtime.{
  needs_volume_holder, volume_holder_affinity_term, volume_holder_match_labels,
  required_pod_affinity,
}
use karkive.Resources.Images.{
  busy_box_image, gnu_pg_image, mc_image, postgres_image, mariadb_image, redis_image, tar_image,
}
use karkive.Resources.Requirements.{backup_stage_resources}
use karkive.Resources.Security.{
  tools_security_context, mariadb_security_context, redis_security_context,
  postgres_security_context, mc_security_context, pvc_dump_security_context, pod_security_context,
}
use karkive.Resources.PvcSource.{
  volume_source, is_pvc_backup, pvc_source_volume, pvc_consumer_affinity_terms,
}
use karkive.Resources.Pipeline.{Scripts, BackupScript, must_backup_script}
use karkive.Resources.Container.{
  new_script_container, secret_env, with_env, with_read_only_mount, scratch_volumes,
  volume_data_dir, volume_gpg, mount_gpg,
}
use karkive.Resources.BackupCronJob.Containers.{
  dump_container, encrypt_container, s3_sync_container,
}

-- &karkivev1alpha1.JobPolicy{}
abbrev pub no_job_policy : JobPolicy
no_job_policy = record {
  concurrency_policy = "";
  failed_jobs_history_limit = none;
  successful_jobs_history_limit = none;
  starting_deadline_seconds = none;
  backoff_limit = none;
  ttl_seconds_after_finished = none;
  restart_policy = "";
  time_zone = "";
}

module _ (scripts : Scripts) (ops : QuantityOps) where
  unfoldable pub backup_volumes : Backup → String → List Volume
  backup_volumes backup secret =
      let volumes =
        scratch_volumes ops volume_data_dir (backup_owned_name backup) backup.spec.persistence
          secret in
      if is_pvc_backup backup then volumes ++ pvc_source_volume backup ∷ [] else volumes

  -- The stages, in the order in which they run.
  unfoldable pub backup_containers : Backup → Config → List Container
  unfolding dump_container encrypt_container s3_sync_container
  backup_containers backup cfg =
      let busy = busy_box_image backup.spec.images cfg in
      let res = backup_stage_resources backup in
      let secret = backup.spec.secret_ref.name in
      let cm_name = backup_owned_name backup in
      let stages =
        new_script_container (record {
          name = "cleanup";
          image = busy;
          script = must_backup_script scripts BackupScript.cleanup;
          config_map = cm_name;
          resources = res.cleanup;
          security = tools_security_context;
          tmp_sub_path = "cleanup-tmp";
          volume = "";
          mount_path = "";
        })
        ∷ dump_container scripts backup cfg res.dump cm_name secret
        ∷ new_script_container (record {
          name = "compress";
          image = busy;
          script = must_backup_script scripts BackupScript.compress;
          config_map = cm_name;
          resources = res.compress;
          security = tools_security_context;
          tmp_sub_path = "compress-tmp-dir";
          volume = "";
          mount_path = "";
        })
        ∷ encrypt_container scripts (gnu_pg_image backup.spec.images cfg) res.encrypt cm_name
        ∷ [] in
      if enabled_or_default backup.spec.s3
      then stages
        ++ s3_sync_container scripts (mc_image backup.spec.images cfg) res.s3_sync cm_name secret
          ∷ []
      else stages

  unfoldable pub backup_affinity_terms : Backup → List PodAffinityTerm
  backup_affinity_terms backup =
      let held =
        volume_holder_affinity_term (volume_holder_match_labels kind_backup backup.meta.name) in
      (if needs_volume_holder backup.spec.runtime then held ∷ [] else [])
      ++ pvc_consumer_affinity_terms backup

  unfoldable pub mutate_backup_cron_job : CronJob → Backup → Config → CronJob
  unfolding backup_containers backup_volumes backup_affinity_terms
  mutate_backup_cron_job cj backup cfg =
      let job = deref backup.spec.job no_job_policy in
      let labels = backup_labels backup in
      let meta = cj.meta in
      let pod_spec : PodSpec = record {
        automount_service_account_token = none;
        restart_policy = if job.restart_policy == "" then "Never" else job.restart_policy;
        security_context = pod_security_context;
        affinity = required_pod_affinity (backup_affinity_terms backup);
        termination_grace_period_seconds = none;
        containers = backup_containers backup cfg;
        volumes = backup_volumes backup backup.spec.secret_ref.name;
      } in
      record cj {
        meta = record meta { labels = labels };
        spec = record {
          schedule = backup.spec.schedule;
          time_zone = if job.time_zone == "" then none else some job.time_zone;
          concurrency_policy =
              if job.concurrency_policy == "" then "Forbid" else job.concurrency_policy;
          failed_jobs_history_limit = some (deref job.failed_jobs_history_limit (pos 3));
          successful_jobs_history_limit = some (deref job.successful_jobs_history_limit (pos 3));
          starting_deadline_seconds = some (deref job.starting_deadline_seconds (pos 86400));
          suspend = backup.spec.suspend;
          job_template_labels = labels;
          job = record {
            backoff_limit = some (deref job.backoff_limit (pos 3));
            ttl_seconds_after_finished = some (deref job.ttl_seconds_after_finished (pos 86400));
            template_labels = labels;
            pod = pod_spec;
          };
        };
      }
