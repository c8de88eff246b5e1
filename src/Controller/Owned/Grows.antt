-- ===== src/Controller/Owned/Grows.antt =====
-- The number of writes of ensureOwned and deleteLegacyOwned of internal/controller/owned.go.
use karkive.Prelude.{ℕ, String}
use karkive.Kube.Meta.{ObjectMeta, QuantityOps}
use karkive.Errors.{Result}
use karkive.Controller.Client.{Client}
use karkive.Controller.Action.{Call, Action}
use karkive.Controller.Action.Grows.{
  Grows, Grows-try, Grows-pure, Grows-raise, Grows-if, grows_rules,
}
use karkive.Controller.Owned.{
  OwnedResources, with_reason, delete_if_controller, ensure_config_map, ensure_claim,
  ensure_volume_holder, ensure_cron_job, ensure_owned, delete_legacy_owned,
}

module _ {W : Type 0} (client : Client W) where
  with_reason-Grows :
      {A : Type 0} {n : ℕ} (reason : String) (m : Action W A)
      → Grows n m
      → Grows n (with_reason reason m)
  unfolding with_reason
  with_reason-Grows reason m g = search (grows_rules)

  delete_if_controller-Grows :
      {A : Type 0} (owner : ObjectMeta) (get : W → Result A) (meta : A → ObjectMeta) (call : Call)
      (delete : W → Result (Unit {0}) × W)
      → Grows 1 (delete_if_controller client owner get meta call delete)
  unfolding delete_if_controller
  delete_if_controller-Grows owner get meta call delete = search (grows_rules)

  ensure_config_map-Grows : (spec : OwnedResources) → Grows 1 (ensure_config_map client spec)
  unfolding ensure_config_map
  ensure_config_map-Grows spec = search (with_reason-Grows, grows_rules)

  ensure_claim-Grows :
      (ops : QuantityOps) (spec : OwnedResources) → Grows 1 (ensure_claim client ops spec)
  unfolding ensure_claim
  ensure_claim-Grows ops spec = search (with_reason-Grows, grows_rules)

  ensure_volume_holder-Grows : (spec : OwnedResources) → Grows 1 (ensure_volume_holder client spec)
  unfolding ensure_volume_holder
  ensure_volume_holder-Grows spec =
      search (with_reason-Grows, delete_if_controller-Grows, grows_rules)

  ensure_cron_job-Grows : (spec : OwnedResources) → Grows 1 (ensure_cron_job client spec)
  unfolding ensure_cron_job
  ensure_cron_job-Grows spec = search (with_reason-Grows, grows_rules)

  pub ensure_owned-Grows :
      (ops : QuantityOps) (spec : OwnedResources) → Grows 4 (ensure_owned client ops spec)
  unfolding ensure_owned
  ensure_owned-Grows ops spec =
      Grows-try 1 3 _ _ _ (ensure_config_map-Grows spec) (λ e. Grows-raise e)
        λ _.
          Grows-try 1 2 _ _ _ (ensure_claim-Grows ops spec) (λ e. Grows-raise e)
            λ _.
              Grows-try 1 1 _ _ _ (ensure_volume_holder-Grows spec) (λ e. Grows-raise e)
                λ _. ensure_cron_job-Grows spec

  pub delete_legacy_owned-Grows :
      (owner : ObjectMeta) (name : String) → Grows 2 (delete_legacy_owned client owner name)
  unfolding delete_legacy_owned
  delete_legacy_owned-Grows owner name = Grows-if _ (Grows-pure tt) (
      Grows-try 1 1 _ _ _ (delete_if_controller-Grows owner _ _ _ _) (λ e. Grows-raise e)
        λ _. search (delete_if_controller-Grows, grows_rules))
