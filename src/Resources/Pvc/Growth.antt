-- ===== src/Resources/Pvc/Growth.antt =====
-- The request for storage of a claim under ExpandPVC: internal/resources/pvc.go.
use karkive.Prelude.{
  String, ◌≡◌, ◌≢◌, ◌⊎◌, refl, lookup-insert, eq_iff, inl, inr, true, false, Option, some,
  Bool-cases, lookup, insert, lookup-insert_self, arith,
}
use karkive.Kube.Meta.{Quantity, QuantityOps}
use karkive.Kube.Pod.{resource_storage}
use karkive.Kube.Objects.{PersistentVolumeClaim}
use karkive.Api.Common.{PersistenceSpec}
use karkive.Resources.Defaults.{persistence_size}
use karkive.Resources.Pvc.{expand_pvc}

-- If quantities are totally ordered, then ExpandPVC leaves a claim that has a request for storage with
-- the larger one of that request and of the wanted size: it is one of the two, and neither is larger.
-- Every other request, the access modes, the storage class and the metadata of the claim are kept.
pub expand_pvc_grows :
    (ops : QuantityOps)
    → ((q : Quantity) → ops.at_most q q ≡ true)
    → ((p q : Quantity) → ops.at_most p q ≡ false → ops.at_most q p ≡ true)
    → (pvc : PersistentVolumeClaim) (persistence : Option PersistenceSpec) (cur : Quantity)
      (name : String)
    → lookup resource_storage pvc.requests ≡ some cur
    → name ≢ resource_storage
    → ((new : Quantity) × (lookup resource_storage (expand_pvc ops pvc persistence).requests
          ≡ some new)
        × ((new ≡ cur) ⊎ (new ≡ persistence_size ops persistence))
        × (ops.at_most cur new ≡ true)
        × (ops.at_most (persistence_size ops persistence) new ≡ true))
      × (lookup name (expand_pvc ops pvc persistence).requests ≡ lookup name pvc.requests)
      × ((expand_pvc ops pvc persistence).meta ≡ pvc.meta)
      × ((expand_pvc ops pvc persistence).access_modes ≡ pvc.access_modes)
      × ((expand_pvc ops pvc persistence).storage_class_name ≡ pvc.storage_class_name)
unfolding expand_pvc
expand_pvc_grows ops reflexive total pvc persistence cur name found other =
    let want = persistence_size ops persistence in
    let raised = insert resource_storage want pvc.requests in
    elim (Bool-cases (ops.at_most want cur)) [
      | inl enough ↦
          let kept : expand_pvc ops pvc persistence ≡ pvc = ground (arith, found, enough) in
          rw kept ((cur, found, inl refl, reflexive cur, enough), refl, refl, refl, refl)
      | inr larger ↦
          let grown : expand_pvc ops pvc persistence ≡ record pvc { requests = raised } =
            ground (arith, found, larger) in
          rw grown (
            (
              want,
              lookup-insert_self resource_storage want pvc.requests,
              inr refl,
              total want cur larger,
              reflexive want,
            ),
            ground (
              arith,
              lookup-insert resource_storage name want pvc.requests,
              eq_iff resource_storage name,
              other,
            ),
            refl,
            refl,
            refl,
          )
    ]
