-- ===== src/Controller/Owned/Keeps.antt =====
-- What ensureOwned and deleteLegacyOwned of internal/controller/owned.go do to the list of writes.
use karkive.Prelude.{String, List, ◌∷◌}
use karkive.Kube.Meta.{ObjectMeta, QuantityOps}
use karkive.Errors.{Result}
use karkive.Controller.Client.{Client}
use karkive.Controller.Action.{
  Call, apply_config_map, apply_claim, apply_deployment, apply_cron_job, delete_config_map,
  delete_deployment, delete_cron_job, Action,
}
use karkive.Controller.Action.Keeps.{Keeps, Keeps-write, keeps_rules}
use karkive.Controller.Owned.{
  OwnedResources, with_reason, delete_if_controller, ensure_config_map, ensure_claim,
  ensure_volume_holder, ensure_cron_job, ensure_owned, delete_legacy_owned,
}

-- Kept by every write to an owned object.
pub record KeptByWrites (P : List Call → Type 0) : Type 0 where
  pub applied_config_map : (n : String) (cs : List Call) → P cs → P (apply_config_map n ∷ cs)
  pub applied_claim : (n : String) (cs : List Call) → P cs → P (apply_claim n ∷ cs)
  pub applied_deployment : (n : String) (cs : List Call) → P cs → P (apply_deployment n ∷ cs)
  pub applied_cron_job : (n : String) (cs : List Call) → P cs → P (apply_cron_job n ∷ cs)
  pub deleted_config_map : (n : String) (cs : List Call) → P cs → P (delete_config_map n ∷ cs)
  pub deleted_deployment : (n : String) (cs : List Call) → P cs → P (delete_deployment n ∷ cs)
  pub deleted_cron_job : (n : String) (cs : List Call) → P cs → P (delete_cron_job n ∷ cs)

module _ {W : Type 0} (P : List Call → Type 0) (client : Client W) (kept : KeptByWrites P) where
  Keeps-with_reason :
      {A : Type 0} (reason : String) (m : Action W A) → Keeps P m → Keeps P (with_reason reason m)
  unfolding with_reason
  Keeps-with_reason reason m km = search keeps_rules

  Keeps-delete_if_controller :
      {A : Type 0} (owner : ObjectMeta) (get : W → Result A) (meta : A → ObjectMeta) (call : Call)
      (delete : W → Result (Unit {0}) × W)
      → ((cs : List Call) → P cs → P (call ∷ cs))
      → Keeps P (delete_if_controller client owner get meta call delete)
  unfolding delete_if_controller
  Keeps-delete_if_controller owner get meta call delete keep = search keeps_rules

  Keeps-ensure_config_map : (spec : OwnedResources) → Keeps P (ensure_config_map client spec)
  unfolding ensure_config_map
  Keeps-ensure_config_map spec =
      Keeps-with_reason _ _ (Keeps-write _ _ (kept.applied_config_map spec.name))

  Keeps-ensure_claim :
      (ops : QuantityOps) (spec : OwnedResources) → Keeps P (ensure_claim client ops spec)
  unfolding ensure_claim
  Keeps-ensure_claim ops spec = search (keeps_rules, Keeps-with_reason, kept.applied_claim)

  Keeps-ensure_volume_holder : (spec : OwnedResources) → Keeps P (ensure_volume_holder client spec)
  unfolding ensure_volume_holder
  Keeps-ensure_volume_holder spec =
      search
        (
          keeps_rules, Keeps-with_reason, Keeps-delete_if_controller, kept.applied_deployment,
          kept.deleted_deployment,
        )
        depth 8

  Keeps-ensure_cron_job : (spec : OwnedResources) → Keeps P (ensure_cron_job client spec)
  unfolding ensure_cron_job
  Keeps-ensure_cron_job spec = search (keeps_rules, Keeps-with_reason, kept.applied_cron_job)

  pub Keeps-ensure_owned :
      (ops : QuantityOps) (spec : OwnedResources) → Keeps P (ensure_owned client ops spec)
  unfolding ensure_owned
  Keeps-ensure_owned ops spec = search (
    keeps_rules, Keeps-ensure_config_map, Keeps-ensure_claim, Keeps-ensure_volume_holder,
    Keeps-ensure_cron_job,
  )

  pub Keeps-delete_legacy_owned :
      (owner : ObjectMeta) (name : String) → Keeps P (delete_legacy_owned client owner name)
  unfolding delete_legacy_owned
  Keeps-delete_legacy_owned owner name =
      search
        (keeps_rules, Keeps-delete_if_controller, kept.deleted_config_map, kept.deleted_cron_job)
