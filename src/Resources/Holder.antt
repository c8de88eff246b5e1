-- ===== src/Resources/Holder.antt =====
-- internal/resources/holder.go: the Deployment that keeps a claim attached
use karkive.Prelude.{pos, String, StringMap, false, Option, some, [], ◌∷◌, ◌==◌, if◌then◌else◌}
use karkive.Kube.Pod.{Affinity, persistent_volume_claim}
use karkive.Kube.Objects.{Deployment}
use karkive.Api.Common.{ImageSet}
use karkive.Resources.Config.{Config}
use karkive.Resources.Images.{busy_box_image}
use karkive.Resources.Requirements.{default_volume_holder_resources}
use karkive.Resources.Security.{pod_security_context, tools_security_context}
use karkive.Resources.Container.{volume_data_dir, mount_data_dir}

abbrev pub volume_holder_container : String
volume_holder_container = "volume-holder"

abbrev pub volume_holder_command : String
volume_holder_command =
    "echo \"[volume-holder $(date '+%Y-%m-%dT%H:%M:%S%z')] INFO keeping PVC attached on this node\" >&2\nwhile true; do sleep 3600; done"

pub record VolumeHolderSpec : Type 0 where
  pub name : String
  pub labels : StringMap
  pub selector : StringMap
  pub claim_name : String
  pub mount_path : String
  pub images : Option ImageSet
  pub affinity : Option Affinity

-- A nil map of labels and an empty one are the same list.
unfoldable pub mutate_volume_holder_deployment : Deployment → VolumeHolderSpec → Config → Deployment
mutate_volume_holder_deployment deploy spec cfg =
    let image = busy_box_image spec.images cfg in
    let mount = if spec.mount_path == "" then mount_data_dir else spec.mount_path in
    let meta = deploy.meta in
    record deploy {
      meta = record meta { labels = spec.labels };
      spec = record {
        replicas = some (pos 1);
        selector = spec.selector;
        strategy = "Recreate";
        template_labels = spec.labels;
        pod = record {
          automount_service_account_token = some false;
          restart_policy = "Always";
          security_context = pod_security_context;
          affinity = spec.affinity;
          termination_grace_period_seconds = some (pos 5);
          containers =
              record {
                name = volume_holder_container;
                image = image.0;
                image_pull_policy = image.1;
                command = "/bin/sh" ∷ "-c" ∷ volume_holder_command ∷ [];
                env = [];
                env_from = [];
                resources = default_volume_holder_resources;
                security_context = some tools_security_context;
                volume_mounts =
                    record {
                      name = volume_data_dir;
                      mount_path = mount;
                      sub_path = "";
                      read_only = false;
                    }
                    ∷ [];
              }
              ∷ [];
          volumes =
              record {
                name = volume_data_dir;
                source = persistent_volume_claim spec.claim_name false;
              }
              ∷ [];
        };
      };
    }
