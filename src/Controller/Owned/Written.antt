-- ===== src/Controller/Owned/Written.antt =====
-- What a reconcile has requested of the API server once ensureOwned and deleteLegacyOwned of
-- internal/controller/owned.go have succeeded.
use karkive.Prelude.{String, ◌≡◌, List, ◌∷◌, ◌++◌}
use karkive.Errors.{ok}
use karkive.Kube.Meta.{ObjectMeta, QuantityOps}
use karkive.Kube.Objects.{CronJob}
use karkive.Controller.Client.{Client}
use karkive.Controller.Action.{Call, apply_config_map, apply_cron_job, Machine}
use karkive.Controller.Owned.{OwnedResources, ensure_owned, delete_legacy_owned}
use karkive.Controller.Owned.Order.{HolderCalls, claim_calls, ensure_owned_order}
use karkive.Controller.Owned.Legacy.{LegacyRemoved, delete_legacy_owned-LegacyRemoved}

module _ {W : Type 0} (client : Client W) (ops : QuantityOps) (spec : OwnedResources) where
  -- From the first state to the last: every owned object is applied, in order, and then each object of
  -- the old name is dealt with.
  abbrev pub IsWritten : ObjectMeta → String → Machine W → Machine W → Type 0
  IsWritten owner current s s' =
      (applied : Machine W) × (new : List Call) × HolderCalls spec new
      × (applied.calls
          ≡ apply_cron_job spec.name
            ∷ (new ++ (claim_calls spec ++ apply_config_map spec.name ∷ s.calls)))
      × LegacyRemoved client owner current applied s'

  pub owned-IsWritten :
      (owner : ObjectMeta) (current : String) (s : Machine W) (cron : CronJob)
      → (ensure_owned client ops spec s).0 ≡ ok cron
      → (delete_legacy_owned client owner current (ensure_owned client ops spec s).1).0 ≡ ok tt
      → IsWritten owner current s
          (delete_legacy_owned client owner current (ensure_owned client ops spec s).1).1
  owned-IsWritten owner current s cron done gone =
      let s1 = (ensure_owned client ops spec s).1 in
      let (new, held, calls) = ensure_owned_order client ops spec s cron done in
      (s1, new, held, calls, delete_legacy_owned-LegacyRemoved client owner current s1 gone)
