-- ===== src/Controller/Report/Colocated.antt =====
-- A CronJob and the Deployment that holds its volume (internal/resources/holder.go and runtime.go): what
-- puts their pods on one node.
use mathlib.Core.List.{Memᴰ}
use karkive.Prelude.{String, ◌≡◌, true, false, Option, none, some, List, []}
use karkive.Kube.Pod.{PodAffinityTerm, Affinity, Volume, PodSpec, persistent_volume_claim}
use karkive.Kube.Objects.{CronJob, Deployment}
use karkive.Kube.Selectors.{has_labels}
use karkive.Resources.Runtime.{kubernetes_hostname_label}

abbrev pub required_terms : Option Affinity → List PodAffinityTerm
required_terms none = []
required_terms (some a) = a.required

-- The pod writes to the claim.
abbrev pub MountsClaim : String → PodSpec → Type 0
MountsClaim claim pod =
    (v : Volume) × Memᴰ v pod.volumes × (v.source ≡ persistent_volume_claim claim false)

-- The term asks for the host of a pod that its selector admits: it admits the Deployment's pods, and
-- none of the CronJob's own.
abbrev pub IsBoundTo : CronJob → Deployment → PodAffinityTerm → Type 0
IsBoundTo cron holder term =
    (has_labels term.label_selector.match_labels holder.spec.template_labels ≡ true)
    × (has_labels term.label_selector.match_labels cron.spec.job.template_labels ≡ false)
    × (term.label_selector.match_expressions ≡ [])
    × (term.topology_key ≡ kubernetes_hostname_label)

-- The Deployment's selector admits its own pods and none of the CronJob's; a required affinity term
-- of the CronJob's pods has the hostname as its topology and admits the Deployment's pods and none of
-- the CronJob's; and both mount the same claim for writing.
pub record IsColocated (claim : String) (cron : CronJob) (holder : Deployment) : Type 0 where
  pub selects : has_labels holder.spec.selector holder.spec.template_labels ≡ true
  pub apart : has_labels holder.spec.selector cron.spec.job.template_labels ≡ false
  pub bound :
      (term : PodAffinityTerm) × Memᴰ term (required_terms cron.spec.job.pod.affinity)
      × IsBoundTo cron holder term
  pub job_claim : MountsClaim claim cron.spec.job.pod
  pub holder_claim : MountsClaim claim holder.spec.pod
