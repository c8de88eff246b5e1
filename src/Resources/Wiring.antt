-- ===== src/Resources/Wiring.antt =====
-- What a pod that internal/resources builds refers to: the keys of Secrets that its containers and
-- volumes read, and the volumes that its containers mount.
pub mod Backup
pub mod Restore
use mathlib.Core.List.{Memᴰ}
use karkive.Prelude.{String, ◌≡◌, refl, List, [], ◌∷◌, ◌++◌, All, All-++}
use karkive.Kube.Pod.{
  SecretKeyRef, EnvVar, VolumeMount, Container, VolumeSource, Volume, PodSpec,
  persistent_volume_claim, empty_dir, secret,
}

abbrev pub key_of : String → String → SecretKeyRef
key_of name key = record { name = name; key = key }

module _ (P : SecretKeyRef → Type 0) where
  abbrev pub SourceReads : VolumeSource → Type 0
  SourceReads (persistent_volume_claim claim read_only) = Unit
  SourceReads (empty_dir limit) = Unit
  SourceReads (secret name items) = All (λ item. P (key_of name item.key)) items

  -- The environment of the container is taken from keys that satisfy `P`.
  abbrev pub ContainerReads : Container → Type 0
  ContainerReads c = All (λ (e : EnvVar). P e.value_from) c.env

  -- Every key of a Secret that the pod reads satisfies `P`.
  abbrev pub PodReads : PodSpec → Type 0
  PodReads pod =
      All ContainerReads pod.containers × All (λ (v : Volume). SourceReads v.source) pod.volumes

-- The list has a volume of the name.
abbrev pub Has : List Volume → String → Type 0
Has volumes name = (v : Volume) × Memᴰ v volumes × (v.name ≡ name)

-- Every volume that the container mounts is in the list.
abbrev pub ContainerMounts : List Volume → Container → Type 0
ContainerMounts volumes c = All (λ (m : VolumeMount). Has volumes m.name) c.volume_mounts

-- Every volume that a container of the pod mounts is a volume of the pod.
abbrev pub PodMounts : PodSpec → Type 0
PodMounts pod = All (ContainerMounts pod.volumes) pod.containers
