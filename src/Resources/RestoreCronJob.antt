-- ===== src/Resources/RestoreCronJob.antt =====
-- internal/resources/restore_cronjob.go: the restore pipeline
use karkive.Prelude.{pos, String, none, some, List, [], ◌∷◌, ◌==◌, deref, if◌then◌else◌}
use karkive.Kube.Meta.{QuantityOps}
use karkive.Kube.Pod.{ResourceRequirements, Container, Volume, PodSpec}
use karkive.Kube.Objects.{CronJob}
use karkive.Api.Common.{engine_mariadb, engine_redis}
use karkive.Api.Restore.{Restore}
use karkive.Resources.Config.{Config}
use karkive.Resources.Names.{restore_owned_name}
use karkive.Resources.Engine.{effective_engine}
use karkive.Resources.Labels.{restore_labels, kind_restore}
use karkive.Resources.Runtime.{
  needs_volume_holder, volume_holder_affinity_term, volume_holder_match_labels,
  required_pod_affinity,
}
use karkive.Resources.Images.{
  busy_box_image, gnu_pg_image, mc_image, postgres_image, mariadb_image, redis_image,
}
use karkive.Resources.Requirements.{restore_stage_resources}
use karkive.Resources.Security.{
  tools_security_context, mariadb_security_context, redis_security_context,
  postgres_security_context, mc_security_context, pod_security_context,
}
use karkive.Resources.Defaults.{
  restore_workdir, restore_postgres_secret, restore_mariadb_secret, restore_redis_secret,
}
use karkive.Resources.Pipeline.{Scripts, RestoreScript, must_restore_script}
use karkive.Resources.Container.{
  new_script_container, secret_env, with_env, with_read_only_mount, scratch_volumes, volume_workdir,
  volume_gpg, mount_gpg,
}
use karkive.Resources.BackupCronJob.{no_job_policy}

module _ (scripts : Scripts) (ops : QuantityOps) where
  unfoldable pub restore_fetch_container :
      String × String → ResourceRequirements → String → String → String → Container
  restore_fetch_container image res cm_name secret workdir =
      with_env
        (new_script_container (record {
          name = "fetch";
          image = image;
          script = must_restore_script scripts RestoreScript.fetch;
          config_map = cm_name;
          resources = res;
          security = mc_security_context;
          tmp_sub_path = "mc-tmp";
          volume = volume_workdir;
          mount_path = workdir;
        }))
        (secret_env "S3_ACCESS_KEY" secret "s3_access_key"
          ∷ secret_env "S3_SECRET_KEY" secret "s3_secret_key"
          ∷ [])

  unfoldable pub restore_decrypt_container :
      String × String → ResourceRequirements → String → String → Container
  restore_decrypt_container image res cm_name workdir =
      with_read_only_mount
        (new_script_container (record {
          name = "decrypt";
          image = image;
          script = must_restore_script scripts RestoreScript.decrypt;
          config_map = cm_name;
          resources = res;
          security = tools_security_context;
          tmp_sub_path = "gpg-tmp";
          volume = volume_workdir;
          mount_path = workdir;
        }))
        volume_gpg mount_gpg

  unfoldable pub restore_engine_container :
      Restore → Config → ResourceRequirements → String → String → Container
  restore_engine_container restore cfg res cm_name workdir =
      let engine = effective_engine restore.spec.engine in
      let mariadb = restore_mariadb_secret restore in
      let redis = restore_redis_secret restore in
      let postgres = restore_postgres_secret restore in
      if engine == engine_mariadb
      then with_env
          (new_script_container (record {
            name = "mysqlrestore";
            image = mariadb_image restore.spec.images cfg;
            script = must_restore_script scripts RestoreScript.mysqlrestore;
            config_map = cm_name;
            resources = res;
            security = mariadb_security_context;
            tmp_sub_path = "mysqlrestore-tmp";
            volume = volume_workdir;
            mount_path = workdir;
          }))
          (secret_env "MYSQL_USER" mariadb.name mariadb.user_key
            ∷ secret_env "MYSQL_PASSWORD" mariadb.name mariadb.pass_key
            ∷ [])
      else if engine == engine_redis
      then with_env
          (new_script_container (record {
            name = "redisrestore";
            image = redis_image restore.spec.images cfg;
            script = must_restore_script scripts RestoreScript.redisrestore;
            config_map = cm_name;
            resources = res;
            security = redis_security_context;
            tmp_sub_path = "redisrestore-tmp";
            volume = volume_workdir;
            mount_path = workdir;
          }))
          (secret_env "REDIS_USERNAME" redis.name redis.user_key
            ∷ secret_env "REDIS_PASSWORD" redis.name redis.pass_key
            ∷ [])
      else with_env
          (new_script_container (record {
            name = "pgrestore";
            image = postgres_image restore.spec.images cfg;
            script = must_restore_script scripts RestoreScript.pgrestore;
            config_map = cm_name;
            resources = res;
            security = postgres_security_context;
            tmp_sub_path = "pgrestore-tmp";
            volume = volume_workdir;
            mount_path = workdir;
          }))
          (secret_env "PGUSER" postgres.name postgres.user_key
            ∷ secret_env "PGPASSWORD" postgres.name postgres.pass_key
            ∷ [])

  unfoldable pub restore_volumes : Restore → String → List Volume
  restore_volumes restore secret =
      scratch_volumes ops volume_workdir (restore_owned_name restore) restore.spec.persistence
        secret

  -- The stages, in the order in which they run.
  unfoldable pub restore_containers : Restore → Config → List Container
  unfolding restore_fetch_container restore_decrypt_container restore_engine_container
  restore_containers restore cfg =
      let busy = busy_box_image restore.spec.images cfg in
      let res = restore_stage_resources restore in
      let secret = restore.spec.secret_ref.name in
      let cm_name = restore_owned_name restore in
      let workdir = restore_workdir restore in
      new_script_container (record {
        name = "cleanup";
        image = busy;
        script = must_restore_script scripts RestoreScript.cleanup;
        config_map = cm_name;
        resources = res.cleanup;
        security = tools_security_context;
        tmp_sub_path = "cleanup-tmp";
        volume = volume_workdir;
        mount_path = workdir;
      })
      ∷ restore_fetch_container (mc_image restore.spec.images cfg) res.fetch cm_name secret workdir
      ∷ restore_decrypt_container (gnu_pg_image restore.spec.images cfg) res.decrypt cm_name workdir
      ∷ new_script_container (record {
        name = "extract";
        image = busy;
        script = must_restore_script scripts RestoreScript.extract;
        config_map = cm_name;
        resources = res.extract;
        security = tools_security_context;
        tmp_sub_path = "extract-tmp";
        volume = volume_workdir;
        mount_path = workdir;
      })
      ∷ restore_engine_container restore cfg res.restore cm_name workdir
      ∷ []

  unfoldable pub mutate_restore_cron_job : CronJob → Restore → Config → CronJob
  unfolding restore_containers restore_volumes
  mutate_restore_cron_job cj restore cfg =
      let job = deref restore.spec.job no_job_policy in
      let labels = restore_labels restore in
      let meta = cj.meta in
      let held =
        volume_holder_affinity_term (volume_holder_match_labels kind_restore restore.meta.name) in
      let pod_spec : PodSpec = record {
        automount_service_account_token = none;
        restart_policy = if job.restart_policy == "" then "Never" else job.restart_policy;
        security_context = pod_security_context;
        affinity =
            if needs_volume_holder restore.spec.runtime
            then required_pod_affinity (held ∷ [])
            else none;
        termination_grace_period_seconds = none;
        containers = restore_containers restore cfg;
        volumes = restore_volumes restore restore.spec.secret_ref.name;
      } in
      record cj {
        meta = record meta { labels = labels };
        spec = record {
          schedule = restore.spec.schedule;
          time_zone = if job.time_zone == "" then none else some job.time_zone;
          concurrency_policy =
              if job.concurrency_policy == "" then "Forbid" else job.concurrency_policy;
          failed_jobs_history_limit = some (deref job.failed_jobs_history_limit (pos 3));
          successful_jobs_history_limit = some (deref job.successful_jobs_history_limit (pos 3));
          starting_deadline_seconds = some (deref job.starting_deadline_seconds (pos 86400));
          suspend = restore.spec.suspend;
          job_template_labels = labels;
          job = record {
            backoff_limit = some (deref job.backoff_limit (pos 1));
            ttl_seconds_after_finished = some (deref job.ttl_seconds_after_finished (pos 86400));
            template_labels = labels;
            pod = pod_spec;
          };
        };
      }
