-- ===== src/Resources/PvcSource.antt =====
-- internal/resources/pvcsource.go: the claim that engine pvc archives
pub mod Contained
use karkive.Prelude.{
  String, Bool, not, Option, none, some, List, [], ◌∷◌, ◌==◌, clean, if◌then◌else◌,
}
use karkive.Kube.Pod.{PodAffinityTerm, Volume, persistent_volume_claim}
use karkive.Kube.Meta.{LabelSelector}
use karkive.Api.Common.{engine_pvc}
use karkive.Api.Backup.{Backup, PvcSourceSpec}
use karkive.Prelude.{true}
use karkive.Resources.Engine.{effective_engine}
use karkive.Resources.Runtime.{kubernetes_hostname_label}

abbrev pub volume_source : String
volume_source = "source"

unfoldable pub is_pvc_backup : Backup → Bool
unfolding effective_engine
is_pvc_backup backup = effective_engine backup.spec.engine == engine_pvc

unfoldable pub pvc_source : Backup → PvcSourceSpec
pvc_source backup = elim backup.spec.pvc [
  | none ↦ record {
    claim_name = "";
    path = "";
    excludes = [];
    consumer_selector = none;
    run_as_user = none;
    run_as_group = none;
  }
  | some src ↦ src
]

unfoldable pub pvc_source_path : PvcSourceSpec → String
pvc_source_path src =
    if src.path == "" then "" else (let p = clean src.path in if p == "." then "" else p)

-- backup.Spec.PVC == nil || backup.Spec.PVC.ConsumerSelector == nil
abbrev consumer_selector : Option PvcSourceSpec → Option LabelSelector
consumer_selector none = none
consumer_selector (some src) = src.consumer_selector

unfoldable pub pvc_consumer_affinity_terms : Backup → List PodAffinityTerm
pvc_consumer_affinity_terms backup =
    if not (is_pvc_backup backup) then [] else elim (consumer_selector backup.spec.pvc) [
      | none ↦ []
      | some selector ↦
          record { label_selector = selector; topology_key = kubernetes_hostname_label } ∷ []
    ]

unfoldable pub pvc_source_volume : Backup → Volume
pvc_source_volume backup = record {
  name = volume_source;
  source = persistent_volume_claim (pvc_source backup).claim_name true;
}
