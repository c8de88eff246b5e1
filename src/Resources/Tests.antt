-- ===== src/Resources/Tests.antt =====
-- The theorems on the generated objects at samples.
use Prim.Native.String.{len}
use karkive.Prelude.{
  ◌≡◌, refl, ◌≢◌, ◌↔◌, ◌⊎◌, ◌≤◌, pos, some, none, true, false, [], ◌∷◌, trim_space, split_slash,
  push_head, contains, has_newline, lookup, arith, eq_iff, All,
}
use karkive.Kube.Meta.{Quantity, must_parse}
use karkive.Kube.Pod.{ResourceRequirements, resource_storage, resource_memory}
use karkive.Resources.Requirements.{merge_resources, default_dump_resources}
use karkive.Resources.Requirements.Merge.{merge_resources-lookup}
use karkive.Api.Common.{enabled_or_default, effective_mode, engine_pvc}
use karkive.Api.Backup.{Backup}
use karkive.Validation.{
  validate_backup_spec, validate_schedule, validate_source, validate_pvc_source, validate_path,
  validate_database, validate_destination, validate_job_policy, validate_runtime,
  persistence_enabled, each, validate_exclude, validate_selector,
}
use karkive.Resources.PvcSource.{pvc_source, pvc_source_path}
use karkive.Resources.PvcSource.Contained.{IsContained, pvc_source_path-IsContained}
use karkive.Resources.Runtime.{volume_holder_name, dns1035_label_max}
use karkive.Resources.Runtime.Length.{volume_holder_name-fits}
use karkive.Resources.Defaults.{persistence_size, s3_endpoint, s3_bucket}
use karkive.Resources.Pvc.{expand_pvc}
use karkive.Resources.Pvc.Growth.{expand_pvc_grows}
use karkive.Resources.Security.Privileges.{IsConfinedStage, backup_pod-IsConfinedStage}
use karkive.Resources.ConfigMap.{mutate_backup_config_map}
use karkive.Resources.ConfigMap.Bucket.{IsOk, mutate_backup_config_map-IsOk_iff}
use karkive.Resources.Wiring.{PodMounts}
use karkive.Resources.Wiring.Backup.{backup_pod-Mounts}
use karkive.Resources.BackupCronJob.{mutate_backup_cron_job}
use karkive.Samples.{
  backup, backup_spec, external, source, scripts, cron_job, claim, config, config_map, quantities,
}

-- A Backup of the directory "uploads/" of the claim "files".
abbrev files_backup : Backup
files_backup = record backup {
  spec = record backup_spec {
    engine = engine_pvc;
    pvc = some (record source { path = "./uploads//" });
    database = record { host = ""; port = pos 0; name = ""; owner_role = "" };
  };
}

pvc_source_path-IsContained_example : IsContained (pvc_source_path (pvc_source files_backup))
unfolding validate_backup_spec validate_schedule trim_space validate_source validate_pvc_source
    validate_path validate_database validate_destination enabled_or_default validate_job_policy
    validate_runtime effective_mode persistence_enabled split_slash push_head contains has_newline
    each validate_exclude validate_selector
pvc_source_path-IsContained_example = pvc_source_path-IsContained external files_backup refl

volume_holder_name-fits_example :
    len (volume_holder_name "karkive-backup-the-accounting-database-of-the-western-region-2025")
    ≤ dns1035_label_max
volume_holder_name-fits_example =
    volume_holder_name-fits "karkive-backup-the-accounting-database-of-the-western-region-2025"

expand_pvc_grows_example :
    ((new : Quantity) × (lookup resource_storage (expand_pvc quantities (claim "c") none).requests
        ≡ some new)
      × ((new ≡ must_parse "1Gi") ⊎ (new ≡ persistence_size quantities none))
      × (quantities.at_most (must_parse "1Gi") new ≡ true)
      × (quantities.at_most (persistence_size quantities none) new ≡ true))
    × (lookup resource_memory (expand_pvc quantities (claim "c") none).requests
        ≡ lookup resource_memory (claim "c").requests)
    × ((expand_pvc quantities (claim "c") none).meta ≡ (claim "c").meta)
    × ((expand_pvc quantities (claim "c") none).access_modes ≡ (claim "c").access_modes)
    × ((expand_pvc quantities (claim "c") none).storage_class_name ≡ (claim "c").storage_class_name)
expand_pvc_grows_example =
    expand_pvc_grows quantities (λ q. ground arith) (λ p q h. ground (arith, h)) (claim "c") none
      (must_parse "1Gi") resource_memory refl
      (λ e. ground (arith, eq_iff resource_memory resource_storage, e))

backup_pod-IsConfinedStage_example :
    All
      (IsConfinedStage files_backup)
      (mutate_backup_cron_job scripts quantities
        (cron_job "app")
        files_backup
        config).spec.job.pod.containers
backup_pod-IsConfinedStage_example =
    backup_pod-IsConfinedStage scripts config files_backup quantities (cron_job "app")

mutate_backup_config_map-IsOk_iff_example :
    IsOk (mutate_backup_config_map (config_map "m") backup config) ↔ (
      (enabled_or_default backup.spec.s3 ≡ false)
      ⊎ ((s3_endpoint backup config ≢ "") × (s3_bucket backup config ≢ "")))
mutate_backup_config_map-IsOk_iff_example =
    mutate_backup_config_map-IsOk_iff (config_map "m") backup config

backup_pod-Mounts_example :
    PodMounts
      (mutate_backup_cron_job scripts quantities (cron_job "app") backup config).spec.job.pod
backup_pod-Mounts_example = backup_pod-Mounts scripts quantities config (cron_job "app") backup

-- A Backup whose dump asks for more memory than by default, and for a limit on it.
abbrev larger : ResourceRequirements
larger = record {
  requests = (resource_memory, must_parse "512Mi") ∷ [];
  limits = (resource_memory, must_parse "1Gi") ∷ [];
}

merge_resources-lookup_example :
    (lookup resource_memory (merge_resources default_dump_resources (some larger)).requests
      ≡ some (must_parse "512Mi"))
    × (lookup resource_memory (merge_resources default_dump_resources (some larger)).limits
        ≡ some (must_parse "1Gi"))
merge_resources-lookup_example =
    merge_resources-lookup default_dump_resources larger resource_memory refl refl
