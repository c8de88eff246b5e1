-- ===== src/Resources/Container.antt =====
-- internal/resources/cronjob.go: what the containers of both pipelines share
use karkive.Prelude.{
  String, true, false, Option, none, some, List, [], ◌∷◌, ◌++◌, ◌==◌, if◌then◌else◌,
}
use karkive.Kube.Meta.{QuantityOps}
use karkive.Kube.Pod.{
  ResourceRequirements, SecurityContext, Container, EnvVar, Volume, VolumeSource,
  persistent_volume_claim, empty_dir, secret,
}
use karkive.Api.Common.{PersistenceSpec}
use karkive.Resources.Defaults.{persistence_enabled, persistence_size}

abbrev pub volume_data_dir : String
volume_data_dir = "datadir"

abbrev pub volume_workdir : String
volume_workdir = "workdir"

abbrev pub volume_tmp : String
volume_tmp = "empty-dir"

abbrev pub volume_gpg : String
volume_gpg = "gpg-credentials"

abbrev pub mount_data_dir : String
mount_data_dir = "/backup/data"

abbrev pub mount_tmp : String
mount_tmp = "/tmp"

abbrev pub mount_gpg : String
mount_gpg = "/run/secrets/gpg"

pub record ScriptOpts : Type 0 where
  pub name : String
  -- Image and Pull
  pub image : String × String
  pub script : String
  pub config_map : String
  pub resources : ResourceRequirements
  pub security : SecurityContext
  pub tmp_sub_path : String
  pub volume : String
  pub mount_path : String

unfoldable pub new_script_container : ScriptOpts → Container
new_script_container opts =
    let vol = if opts.volume == "" then volume_data_dir else opts.volume in
    let mount = if opts.mount_path == "" then mount_data_dir else opts.mount_path in
    record {
      name = opts.name;
      image = opts.image.0;
      image_pull_policy = opts.image.1;
      command = "/bin/sh" ∷ "-c" ∷ opts.script ∷ [];
      env = [];
      env_from = opts.config_map ∷ [];
      resources = opts.resources;
      security_context = some opts.security;
      volume_mounts =
          record { name = vol; mount_path = mount; sub_path = ""; read_only = false }
          ∷ record {
            name = volume_tmp;
            mount_path = mount_tmp;
            sub_path = opts.tmp_sub_path;
            read_only = false;
          }
          ∷ [];
    }

unfoldable pub secret_env : String → String → String → EnvVar
secret_env env_name secret_name key = record {
  name = env_name;
  value_from = record { name = secret_name; key = key };
}

-- c.Env = append(c.Env, …)
abbrev pub with_env : Container → List EnvVar → Container
with_env c vars = record c { env = c.env ++ vars }

-- c.VolumeMounts = append(c.VolumeMounts, corev1.VolumeMount{…, ReadOnly: true})
abbrev pub with_read_only_mount : Container → String → String → Container
with_read_only_mount c name path = record c {
  volume_mounts =
      c.volume_mounts
      ++ record { name = name; mount_path = path; sub_path = ""; read_only = true } ∷ [];
}

-- The volumes that backupVolumes and restoreVolumes both begin with: scratch storage under the
-- given name, /tmp, and the passphrase.
module _ (ops : QuantityOps) where
  unfoldable pub scratch_volumes : String → String → Option PersistenceSpec → String → List Volume
  scratch_volumes name claim persistence secret_name =
      let source : VolumeSource =
        if persistence_enabled persistence
        then persistent_volume_claim claim false
        else empty_dir (some (persistence_size ops persistence)) in
      record { name = name; source = source }
      ∷ record { name = volume_tmp; source = empty_dir none }
      ∷ record {
        name = volume_gpg;
        source =
            secret secret_name (record { key = "gpg_passphrase"; path = "gpg_passphrase" } ∷ []);
      }
      ∷ []
