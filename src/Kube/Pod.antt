-- ===== src/Kube/Pod.antt =====
-- corev1: containers, volumes, security contexts and affinity.
use karkive.Prelude.{ℤ, String, Bool, Option, List}
use karkive.Kube.Meta.{Quantity, LabelSelector}

abbrev pub ResourceList : Type 0
ResourceList = List (String × Quantity)

pub record ResourceRequirements : Type 0 where
  pub requests : ResourceList
  pub limits : ResourceList

abbrev pub resource_cpu : String
resource_cpu = "cpu"

abbrev pub resource_memory : String
resource_memory = "memory"

abbrev pub resource_ephemeral_storage : String
resource_ephemeral_storage = "ephemeral-storage"

abbrev pub resource_storage : String
resource_storage = "storage"

abbrev pub pull_if_not_present : String
pull_if_not_present = "IfNotPresent"

pub record SecretKeyRef : Type 0 where
  pub name : String
  pub key : String

-- An environment variable that is taken from a Secret.
pub record EnvVar : Type 0 where
  pub name : String
  pub value_from : SecretKeyRef

pub record VolumeMount : Type 0 where
  pub name : String
  pub mount_path : String
  pub sub_path : String
  pub read_only : Bool

pub record Capabilities : Type 0 where
  pub add : List String
  pub drop : List String

pub record SecurityContext : Type 0 where
  pub allow_privilege_escalation : Option Bool
  pub capabilities : Option Capabilities
  pub privileged : Option Bool
  pub read_only_root_filesystem : Option Bool
  pub run_as_group : Option ℤ
  pub run_as_non_root : Option Bool
  pub run_as_user : Option ℤ
  pub seccomp_profile : Option String

pub record PodSecurityContext : Type 0 where
  pub fs_group : Option ℤ
  pub fs_group_change_policy : Option String

pub record Container : Type 0 where
  pub name : String
  pub image : String
  pub image_pull_policy : String
  pub command : List String
  pub env : List EnvVar
  -- the names of the ConfigMaps
  pub env_from : List String
  pub resources : ResourceRequirements
  pub security_context : Option SecurityContext
  pub volume_mounts : List VolumeMount

pub record KeyToPath : Type 0 where
  pub key : String
  pub path : String

pub data VolumeSource : Type 0 where
  persistent_volume_claim : (claim_name : String) (read_only : Bool) → VolumeSource
  empty_dir : (size_limit : Option Quantity) → VolumeSource
  secret : (secret_name : String) (items : List KeyToPath) → VolumeSource

pub record Volume : Type 0 where
  pub name : String
  pub source : VolumeSource

pub record PodAffinityTerm : Type 0 where
  pub label_selector : LabelSelector
  pub topology_key : String

-- Affinity with only podAffinity.requiredDuringSchedulingIgnoredDuringExecution.
pub record Affinity : Type 0 where
  pub required : List PodAffinityTerm

pub record PodSpec : Type 0 where
  pub automount_service_account_token : Option Bool
  pub restart_policy : String
  pub security_context : PodSecurityContext
  pub affinity : Option Affinity
  pub termination_grace_period_seconds : Option ℤ
  pub containers : List Container
  pub volumes : List Volume
