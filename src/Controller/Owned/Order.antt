-- ===== src/Controller/Owned/Order.antt =====
-- The writes of ensureOwned and deleteIfController of internal/controller/owned.go.
use karkive.Prelude.{
  ◌≡◌, refl, ◌⊎◌, inl, inr, true, false, List, [], ◌∷◌, ◌++◌, arith, if◌then◌else◌, Bool-cases,
  ◌==◌,
}
use karkive.Errors.{Result, ok, Result-cases}
use karkive.Kube.Meta.{ObjectMeta, QuantityOps}
use karkive.Kube.Objects.{CronJob}
use karkive.Resources.Defaults.{persistence_enabled}
use karkive.Controller.Client.{Client, ObjectKey}
use karkive.Controller.Action.{
  Call, apply_config_map, apply_claim, apply_deployment, apply_cron_job, delete_deployment, Machine,
  try, resume,
}
use karkive.Controller.Owned.{
  OwnedResources, with_reason, delete_if_controller, ensure_config_map, ensure_claim,
  ensure_volume_holder, ensure_cron_job, ensure_owned,
}

-- What the step on the holder requests: with a holder, its Deployment is applied; without one, a
-- Deployment of that name may be deleted.
abbrev pub HolderCalls : OwnedResources → List Call → Type 0
HolderCalls spec calls =
    ((spec.volume_holder ≡ true) × (calls ≡ apply_deployment spec.holder_name ∷ []))
    ⊎ ((spec.volume_holder ≡ false)
        × ((calls ≡ []) ⊎ (calls ≡ delete_deployment spec.holder_name ∷ [])))

abbrev pub claim_calls : OwnedResources → List Call
claim_calls spec = if persistence_enabled spec.persistence then apply_claim spec.name ∷ [] else []

module _ {W : Type 0} (client : Client W) where
  -- deleteIfController requests a deletion only of an object that it has read and that the owner
  -- controls; otherwise it changes nothing.
  pub delete_if_controller_safe :
      {A : Type 0} (owner : ObjectMeta) (get : W → Result A) (meta : A → ObjectMeta) (call : Call)
      (delete : W → Result (Unit {0}) × W) (s : Machine W)
      → ((delete_if_controller client owner get meta call delete s).1 ≡ s)
        ⊎ ((obj : A) × (get s.world ≡ ok obj)
            × (client.is_controlled_by (meta obj) owner ≡ true)
            × ((delete_if_controller client owner get meta call delete s).1.calls ≡ call ∷ s.calls))
  unfolding delete_if_controller try
  delete_if_controller_safe owner get meta call delete s = elim (Result-cases (get s.world)) [
    | inr (e, missing) ↦ inl (rw (missing, resume))
    | inl (obj, found) ↦ elim (Bool-cases (client.is_controlled_by (meta obj) owner)) [
      | inr other ↦ inl (ground (arith, found, other))
      | inl own ↦ inr (obj, found, own, ground (arith, found, own))
    ]
  ]

  pub ensure_config_map-calls :
      (spec : OwnedResources) (s : Machine W)
      → (ensure_config_map client spec s).1.calls ≡ apply_config_map spec.name ∷ s.calls
  unfolding ensure_config_map with_reason try
  ensure_config_map-calls spec s = ground arith

  pub ensure_claim-calls :
      (ops : QuantityOps) (spec : OwnedResources) (s : Machine W)
      → (ensure_claim client ops spec s).1.calls ≡ claim_calls spec ++ s.calls
  unfolding ensure_claim with_reason try
  ensure_claim-calls ops spec s = ground arith

  pub ensure_volume_holder-calls :
      (spec : OwnedResources) (s : Machine W)
      → (new : List Call) × HolderCalls spec new
        × ((ensure_volume_holder client spec s).1.calls ≡ new ++ s.calls)
  unfolding ensure_volume_holder with_reason try
  ensure_volume_holder-calls spec s =
      let key : ObjectKey = record { namespace = spec.owner.namespace; name = spec.holder_name } in
      elim (Bool-cases spec.volume_holder) [
        | inl held ↦
            (apply_deployment spec.holder_name ∷ [], inl (held, refl), ground (arith, held))
        | inr free ↦ elim (Bool-cases (spec.holder_name == "")) [
          | inl unnamed ↦ ([], inr (free, inl refl), ground (arith, free, unnamed))
          | inr named ↦
              elim (delete_if_controller_safe spec.owner (client.get_deployment key) (λ d. d.meta)
                (delete_deployment spec.holder_name) (client.delete_deployment key) s) [
                  | inl kept ↦ ([], inr (free, inl refl), ground (arith, free, named, kept))
                  | inr (obj, found, own, gone) ↦ (
                    delete_deployment spec.holder_name ∷ [],
                    inr (free, inr refl),
                    ground (arith, free, named, gone),
                  )
                ]
        ]
      ]

  pub ensure_cron_job-calls :
      (spec : OwnedResources) (s : Machine W)
      → (ensure_cron_job client spec s).1.calls ≡ apply_cron_job spec.name ∷ s.calls
  unfolding ensure_cron_job with_reason try
  ensure_cron_job-calls spec s = ground arith

  -- Where ensureOwned succeeds it has applied the ConfigMap, then the claim (only with persistence),
  -- then the holder's Deployment (or it has at most deleted one that it no longer needs), and last
  -- the CronJob, and has requested nothing else of the API server.
  pub ensure_owned_order :
      (ops : QuantityOps) (spec : OwnedResources) (s : Machine W) (cron : CronJob)
      → (ensure_owned client ops spec s).0 ≡ ok cron
      → (new : List Call) × HolderCalls spec new
        × ((ensure_owned client ops spec s).1.calls
            ≡ apply_cron_job spec.name
              ∷ (new ++ (claim_calls spec ++ apply_config_map spec.name ∷ s.calls)))
  unfolding ensure_owned try
  ensure_owned_order ops spec s cron done =
      let s1 = (ensure_config_map client spec s).1 in
      let s2 = (ensure_claim client ops spec s1).1 in
      let (new, held, calls) = ensure_volume_holder-calls spec s2 in
      (
        new,
        held,
        ground (
          arith,
          ensure_config_map-calls spec s,
          ensure_claim-calls ops spec s1,
          calls,
          ensure_cron_job-calls spec (ensure_volume_holder client spec s2).1,
        ),
      )
