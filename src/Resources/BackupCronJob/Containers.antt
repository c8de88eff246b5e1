-- ===== src/Resources/BackupCronJob/Containers.antt =====
-- internal/resources/cronjob.go: the containers of the stages dump, encrypt and s3-sync
use karkive.Prelude.{String, [], ◌∷◌, ◌==◌, if◌then◌else◌}
use karkive.Kube.Pod.{ResourceRequirements, Container}
use karkive.Api.Common.{engine_mariadb, engine_redis, engine_pvc}
use karkive.Api.Backup.{Backup}
use karkive.Resources.Config.{Config, default_pvc_source_dir}
use karkive.Resources.Engine.{effective_engine}
use karkive.Resources.Images.{postgres_image, mariadb_image, redis_image, tar_image}
use karkive.Resources.Security.{
  tools_security_context, mariadb_security_context, redis_security_context,
  postgres_security_context, mc_security_context, pvc_dump_security_context,
}
use karkive.Resources.PvcSource.{volume_source}
use karkive.Resources.Pipeline.{Scripts, BackupScript, must_backup_script}
use karkive.Resources.Container.{
  new_script_container, secret_env, with_env, with_read_only_mount, volume_gpg, mount_gpg,
}

module _ (scripts : Scripts) where
  unfoldable pub pvc_dump_container : Backup → Config → ResourceRequirements → String → Container
  pvc_dump_container backup cfg res cm_name =
      with_read_only_mount
        (new_script_container (record {
          name = "pvcdump";
          image = tar_image backup.spec.images cfg;
          script = must_backup_script scripts BackupScript.pvcdump;
          config_map = cm_name;
          resources = res;
          security = pvc_dump_security_context backup.spec.pvc;
          tmp_sub_path = "tmp-dir";
          volume = "";
          mount_path = "";
        }))
        volume_source default_pvc_source_dir

  unfoldable pub dump_container :
      Backup → Config → ResourceRequirements → String → String → Container
  unfolding pvc_dump_container
  dump_container backup cfg res cm_name secret =
      let engine = effective_engine backup.spec.engine in
      if engine == engine_mariadb
      then with_env
          (new_script_container (record {
            name = "mysqldump";
            image = mariadb_image backup.spec.images cfg;
            script = must_backup_script scripts BackupScript.mysqldump;
            config_map = cm_name;
            resources = res;
            security = mariadb_security_context;
            tmp_sub_path = "tmp-dir";
            volume = "";
            mount_path = "";
          }))
          (secret_env "MYSQL_USER" secret "username"
            ∷ secret_env "MYSQL_PASSWORD" secret "password"
            ∷ [])
      else if engine == engine_redis
      then with_env
          (new_script_container (record {
            name = "redisdump";
            image = redis_image backup.spec.images cfg;
            script = must_backup_script scripts BackupScript.redisdump;
            config_map = cm_name;
            resources = res;
            security = redis_security_context;
            tmp_sub_path = "tmp-dir";
            volume = "";
            mount_path = "";
          }))
          (secret_env "REDIS_USERNAME" secret "username"
            ∷ secret_env "REDIS_PASSWORD" secret "password"
            ∷ [])
      else if engine == engine_pvc
      then pvc_dump_container backup cfg res cm_name
      else with_env
          (new_script_container (record {
            name = "pgdump";
            image = postgres_image backup.spec.images cfg;
            script = must_backup_script scripts BackupScript.pgdump;
            config_map = cm_name;
            resources = res;
            security = postgres_security_context;
            tmp_sub_path = "tmp-dir";
            volume = "";
            mount_path = "";
          }))
          (secret_env "PGUSER" secret "username" ∷ secret_env "PGPASSWORD" secret "password" ∷ [])

  unfoldable pub encrypt_container : String × String → ResourceRequirements → String → Container
  encrypt_container image res cm_name =
      with_read_only_mount
        (new_script_container (record {
          name = "encrypt";
          image = image;
          script = must_backup_script scripts BackupScript.encrypt;
          config_map = cm_name;
          resources = res;
          security = tools_security_context;
          tmp_sub_path = "encrypt-tmp-dir";
          volume = "";
          mount_path = "";
        }))
        volume_gpg mount_gpg

  unfoldable pub s3_sync_container :
      String × String → ResourceRequirements → String → String → Container
  s3_sync_container image res cm_name secret =
      with_env
        (new_script_container (record {
          name = "s3-sync";
          image = image;
          script = must_backup_script scripts BackupScript.s3_sync;
          config_map = cm_name;
          resources = res;
          security = mc_security_context;
          tmp_sub_path = "mc-tmp-dir";
          volume = "";
          mount_path = "";
        }))
        (secret_env "S3_ACCESS_KEY" secret "s3_access_key"
          ∷ secret_env "S3_SECRET_KEY" secret "s3_secret_key"
          ∷ [])
