-- ===== src/Resources/Requirements.antt =====
-- internal/resources/defaults.go and holder.go: the resource requirements of the stages
pub mod Merge
use karkive.Prelude.{String, not, Option, none, some, [], ◌∷◌, is_nil, insert_all, if◌then◌else◌}
use karkive.Kube.Meta.{must_parse}
use karkive.Kube.Pod.{
  ResourceList, ResourceRequirements, resource_cpu, resource_memory, resource_ephemeral_storage,
}
use karkive.Api.Backup.{Backup, BackupResources}
use karkive.Api.Restore.{Restore, RestoreResources}

-- corev1.ResourceList{cpu, memory, ephemeral-storage}
abbrev pub resource_list : String → String → String → ResourceList
resource_list cpu memory storage =
    (resource_cpu, must_parse cpu)
    ∷ (resource_memory, must_parse memory)
    ∷ (resource_ephemeral_storage, must_parse storage)
    ∷ []

unfoldable pub default_cleanup_resources : ResourceRequirements
default_cleanup_resources = record {
  requests = resource_list "20m" "32Mi" "10Mi";
  limits = resource_list "100m" "64Mi" "50Mi";
}

unfoldable pub default_dump_resources : ResourceRequirements
default_dump_resources = record {
  requests = resource_list "100m" "128Mi" "50Mi";
  limits = resource_list "150m" "192Mi" "2Gi";
}

unfoldable pub default_compress_encrypt_resources : ResourceRequirements
default_compress_encrypt_resources = record {
  requests = resource_list "100m" "128Mi" "10Mi";
  limits = resource_list "500m" "256Mi" "100Mi";
}

unfoldable pub default_s3_sync_resources : ResourceRequirements
default_s3_sync_resources = record {
  requests = resource_list "50m" "64Mi" "10Mi";
  limits = resource_list "100m" "128Mi" "100Mi";
}

unfoldable pub default_fetch_resources : ResourceRequirements
default_fetch_resources = record {
  requests = resource_list "50m" "64Mi" "10Mi";
  limits = resource_list "200m" "128Mi" "2Gi";
}

unfoldable pub default_decrypt_extract_resources : ResourceRequirements
default_decrypt_extract_resources = record {
  requests = resource_list "100m" "128Mi" "10Mi";
  limits = resource_list "500m" "256Mi" "2Gi";
}

unfoldable pub default_restore_stage_resources : ResourceRequirements
default_restore_stage_resources = record {
  requests = resource_list "100m" "256Mi" "10Mi";
  limits = resource_list "1" "1Gi" "2Gi";
}

unfoldable pub default_volume_holder_resources : ResourceRequirements
default_volume_holder_resources = record {
  requests = resource_list "1m" "8Mi" "1Mi";
  limits = resource_list "10m" "16Mi" "10Mi";
}

unfoldable pub merge_resources :
    ResourceRequirements → Option ResourceRequirements → ResourceRequirements
merge_resources base none = base
merge_resources base (some override) = record {
  requests =
      if not (is_nil override.requests)
      then insert_all override.requests base.requests
      else base.requests;
  limits =
      if not (is_nil override.limits) then insert_all override.limits base.limits else base.limits;
}

abbrev no_backup_resources : BackupResources
no_backup_resources = record {
  cleanup = none;
  dump = none;
  compress = none;
  encrypt = none;
  s3_sync = none;
}

abbrev no_restore_resources : RestoreResources
no_restore_resources = record {
  cleanup = none;
  fetch = none;
  decrypt = none;
  extract = none;
  restore = none;
}

-- The five results of restoreStageResources, by stage.
pub record RestoreStages : Type 0 where
  pub cleanup : ResourceRequirements
  pub fetch : ResourceRequirements
  pub decrypt : ResourceRequirements
  pub extract : ResourceRequirements
  pub restore : ResourceRequirements

unfoldable pub restore_stage_resources : Restore → RestoreStages
restore_stage_resources restore =
    let res : RestoreResources = elim restore.spec.resources [
      | none ↦ no_restore_resources
      | some r ↦ r
    ] in
    record {
      cleanup = merge_resources default_cleanup_resources res.cleanup;
      fetch = merge_resources default_fetch_resources res.fetch;
      decrypt = merge_resources default_decrypt_extract_resources res.decrypt;
      extract = merge_resources default_decrypt_extract_resources res.extract;
      restore = merge_resources default_restore_stage_resources res.restore;
    }

-- The five results of backupStageResources, by stage.
pub record BackupStages : Type 0 where
  pub cleanup : ResourceRequirements
  pub dump : ResourceRequirements
  pub compress : ResourceRequirements
  pub encrypt : ResourceRequirements
  pub s3_sync : ResourceRequirements

unfoldable pub backup_stage_resources : Backup → BackupStages
backup_stage_resources backup =
    let res : BackupResources = elim backup.spec.resources [
      | none ↦ no_backup_resources
      | some r ↦ r
    ] in
    record {
      cleanup = merge_resources default_cleanup_resources res.cleanup;
      dump = merge_resources default_dump_resources res.dump;
      compress = merge_resources default_compress_encrypt_resources res.compress;
      encrypt = merge_resources default_compress_encrypt_resources res.encrypt;
      s3_sync = merge_resources default_s3_sync_resources res.s3_sync;
    }
