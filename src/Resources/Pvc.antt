-- ===== src/Resources/Pvc.antt =====
-- internal/resources/pvc.go
pub mod Growth
use karkive.Prelude.{
  String, StringMap, Bool, not, Option, none, some, List, [], ◌∷◌, ◌==◌, is_nil, lookup, insert,
  if◌then◌else◌,
}
use karkive.Kube.Meta.{QuantityOps}
use karkive.Kube.Pod.{resource_storage}
use karkive.Kube.Objects.{PersistentVolumeClaim}
use karkive.Api.Common.{PersistenceSpec}
use karkive.Resources.Defaults.{persistence_size}

-- persistence.AccessModes, or the default
abbrev access_modes_of : Option PersistenceSpec → List String
access_modes_of none = "ReadWriteOnce" ∷ []
access_modes_of (some p) =
    if not (is_nil p.access_modes) then p.access_modes else "ReadWriteOnce" ∷ []

-- persistence.Annotations, or those that the claim has
abbrev annotations_of : Option PersistenceSpec → StringMap → StringMap
annotations_of none old = old
annotations_of (some p) old = if not (is_nil p.annotations) then p.annotations else old

abbrev storage_class_of : Option PersistenceSpec → Option String
storage_class_of none = none
storage_class_of (some p) =
    if not (p.storage_class_name == "") then some p.storage_class_name else none

module _ (ops : QuantityOps) where
  unfoldable pub mutate_pvc :
      PersistentVolumeClaim → Option PersistenceSpec → StringMap → PersistentVolumeClaim
  mutate_pvc pvc persistence labels =
      let meta = pvc.meta in
      record {
        meta = record meta {
          labels = labels;
          annotations = annotations_of persistence meta.annotations;
        };
        access_modes = access_modes_of persistence;
        requests = (resource_storage, persistence_size ops persistence) ∷ [];
        storage_class_name = storage_class_of persistence;
      }

  unfoldable pub expand_pvc : PersistentVolumeClaim → Option PersistenceSpec → PersistentVolumeClaim
  expand_pvc pvc persistence =
      let want = persistence_size ops persistence in
      let raised : PersistentVolumeClaim = record pvc {
        requests = insert resource_storage want pvc.requests;
      } in
      elim (lookup resource_storage pvc.requests) [
        | none ↦ raised
        | some cur ↦ if ops.at_most want cur then pvc else raised
      ]
