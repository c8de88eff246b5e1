-- ===== src/Resources/Runtime.antt =====
-- internal/resources/runtime.go
pub mod Length
use Prim.Native.Char.{Char, code}
use Prim.Native.String.{String, ◌++◌, len, slice}
use karkive.Prelude.{
  ℕ, ◌+◌, ◌-◌, StringMap, Bool, Option, none, some, List, [], ◌∷◌, leb, eqb, ◌==◌, insert,
  insert_all, trim_right, if◌then◌else◌,
}
use karkive.Kube.Pod.{PodAffinityTerm, Affinity}
use karkive.Api.Common.{RuntimeSpec, effective_mode, mode_cron_job_with_volume_holder}
use karkive.Resources.Labels.{
  label_kind, label_runtime_role, label_restore_name, label_backup_name, kind_restore,
}

abbrev pub runtime_role_volume_holder : String
runtime_role_volume_holder = "volume-holder"

abbrev pub volume_holder_name_suffix : String
volume_holder_name_suffix = "-holder"

abbrev pub kubernetes_hostname_label : String
kubernetes_hostname_label = "kubernetes.io/hostname"

abbrev pub dns1035_label_max : ℕ
dns1035_label_max = 63

unfoldable pub needs_volume_holder : Option RuntimeSpec → Bool
needs_volume_holder runtime = effective_mode runtime == mode_cron_job_with_volume_holder

abbrev pub is_dash : Char → Bool
is_dash c = eqb (code c) b'-'

-- `len` and `slice` count bytes, as `len(owned)` and `owned[:keep]` do; the names of Kubernetes
-- objects are ASCII.
unfoldable pub volume_holder_name : String → String
volume_holder_name owned =
    let keep = dns1035_label_max - len volume_holder_name_suffix in
    if leb (len owned + len volume_holder_name_suffix) dns1035_label_max
    then owned ++ volume_holder_name_suffix
    else trim_right is_dash (slice owned 0 keep) ++ volume_holder_name_suffix

unfoldable pub volume_holder_match_labels : String → String → StringMap
volume_holder_match_labels kind cr_name =
    let labels = (label_kind, kind) ∷ (label_runtime_role, runtime_role_volume_holder) ∷ [] in
    if kind == kind_restore
    then insert label_restore_name cr_name labels
    else insert label_backup_name cr_name labels

unfoldable pub with_runtime_role : StringMap → String → StringMap
with_runtime_role labels role = insert label_runtime_role role (insert_all labels [])

unfoldable pub volume_holder_affinity_term : StringMap → PodAffinityTerm
volume_holder_affinity_term match_labels = record {
  label_selector = record { match_labels = match_labels; match_expressions = [] };
  topology_key = kubernetes_hostname_label;
}

unfoldable pub required_pod_affinity : List PodAffinityTerm → Option Affinity
required_pod_affinity [] = none
required_pod_affinity (t ∷ ts) = some (record { required = t ∷ ts })
