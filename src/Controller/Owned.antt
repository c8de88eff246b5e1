-- ===== src/Controller/Owned.antt =====
-- internal/controller/owned.go: the objects that one Backup or Restore owns
pub mod Order
pub mod Reasons
pub mod Legacy
pub mod Written
pub mod Keeps
pub mod Grows
use karkive.Prelude.{
  ℕ, pos, ℤ, negsuc, String, StringMap, Bool, true, false, not, ◌||◌, Option, none, some, [], ◌==◌,
  leb, if◌then◌else◌,
}
use karkive.Errors.{Error, owned_apply, Result, ok, err, is_not_found, is_conflict}
use karkive.Kube.Meta.{ObjectMeta, QuantityOps, time_is_zero}
use karkive.Kube.Objects.{ConfigMap, PersistentVolumeClaim, CronJob, Deployment}
use karkive.Api.Common.{PersistenceSpec}
use karkive.Resources.Names.{legacy_owned_name}
use karkive.Resources.Defaults.{persistence_enabled}
use karkive.Resources.Pvc.{mutate_pvc, expand_pvc}
use karkive.Controller.Client.{ObjectKey, Client}
use karkive.Controller.Action.{
  Call, apply_config_map, apply_claim, apply_deployment, apply_cron_job, delete_config_map,
  delete_deployment, delete_cron_job, Action, pure, raise, lift, read, write, try, ◌>>=◌, ◌>>◌,
}

-- ownedResources
pub record OwnedResources : Type 0 where
  pub owner : ObjectMeta
  pub name : String
  pub persistence : Option PersistenceSpec
  pub labels : StringMap
  pub volume_holder : Bool
  pub holder_name : String
  pub mutate_config_map : ConfigMap → Result ConfigMap
  pub mutate_cron_job : CronJob → CronJob
  pub mutate_volume_holder : Deployment → Deployment

unfoldable pub owned_reason : Error → String
owned_reason (owned_apply reason e) = reason
owned_reason e = "OwnedResourceError"

-- One second, in seconds; so with the other delays.
abbrev pub conflict_requeue : ℕ
conflict_requeue = 1

-- A reconciler's result: the delay after which it is called again (0 for none), or an error.
unfoldable pub requeue_on_conflict : Result ℕ → Result ℕ
requeue_on_conflict (ok delay) = ok delay
requeue_on_conflict (err e) = if is_conflict e then ok conflict_requeue else err e

-- client.IgnoreNotFound
unfoldable pub ignore_not_found {ℓ} : {A : Type ℓ} → A → Error → Result A
ignore_not_found a e = if is_not_found e then ok a else err e

-- deploy.Status.AvailableReplicas >= 1
unfoldable pub volume_holder_available : Deployment → Bool
volume_holder_available deploy = elim deploy.available_replicas [
  | pos n ↦ leb 1 n
  | negsuc n ↦ false
]

-- applyOwnedError: the error of a step, with the reason that the status will show.
unfoldable pub with_reason : {W A : Type 0} → String → Action W A → Action W A
with_reason reason m = try m (λ e. raise (owned_apply reason e)) pure

module _ {W : Type 0} (client : Client W) where
  -- deleteIfController at one type of object: how it is read, where its metadata is, and how it is
  -- deleted.
  unfoldable pub delete_if_controller :
      {A : Type 0}
      → ObjectMeta
      → (W → Result A)
      → (A → ObjectMeta)
      → Call
      → (W → Result (Unit {0}) × W)
      → Action W Bool
  unfolding ignore_not_found
  delete_if_controller owner get meta call delete =
      try (read get) (λ e. lift (ignore_not_found false e))
        λ obj.
          if not (client.is_controlled_by (meta obj) owner)
          then pure false
          else try (write call delete) (λ e. lift (ignore_not_found false e)) λ _. pure true

  -- spec.Mutate… followed by setOwner, at each type of object
  unfoldable pub owned_config_map : OwnedResources → ConfigMap → Result ConfigMap
  owned_config_map spec cm = elim (spec.mutate_config_map cm) [
    | err e ↦ err e
    | ok cm' ↦ elim (client.set_controller_reference spec.owner cm'.meta) [
      | err e ↦ err e
      | ok meta ↦ ok (record cm' { meta = meta })
    ]
  ]

  unfoldable pub owned_claim :
      QuantityOps → OwnedResources → PersistentVolumeClaim → Result PersistentVolumeClaim
  owned_claim ops spec pvc =
      let meta = pvc.meta in
      let labelled : PersistentVolumeClaim = record pvc {
        meta = record meta { labels = spec.labels };
      } in
      let pvc' : PersistentVolumeClaim =
        if not (time_is_zero meta.creation_timestamp)
        then expand_pvc ops labelled spec.persistence
        else mutate_pvc ops pvc spec.persistence spec.labels in
      elim (client.set_controller_reference spec.owner pvc'.meta) [
        | err e ↦ err e
        | ok meta' ↦ ok (record pvc' { meta = meta' })
      ]

  unfoldable pub owned_deployment : OwnedResources → Deployment → Result Deployment
  owned_deployment spec deploy =
      let deploy' = spec.mutate_volume_holder deploy in
      elim (client.set_controller_reference spec.owner deploy'.meta) [
        | err e ↦ err e
        | ok meta ↦ ok (record deploy' { meta = meta })
      ]

  unfoldable pub owned_cron_job : OwnedResources → CronJob → Result CronJob
  owned_cron_job spec cj =
      let cj' = spec.mutate_cron_job cj in
      elim (client.set_controller_reference spec.owner cj'.meta) [
        | err e ↦ err e
        | ok meta ↦ ok (record cj' { meta = meta })
      ]

  unfoldable pub ensure_config_map : OwnedResources → Action W ConfigMap
  ensure_config_map spec =
      let key : ObjectKey = record { namespace = spec.owner.namespace; name = spec.name } in
      with_reason "ConfigMapError"
        (write (apply_config_map spec.name) (client.apply_config_map key (owned_config_map spec)))

  unfoldable pub ensure_claim : QuantityOps → OwnedResources → Action W (Unit {0})
  ensure_claim ops spec =
      let key : ObjectKey = record { namespace = spec.owner.namespace; name = spec.name } in
      if persistence_enabled spec.persistence
      then with_reason "PVCError"
          (write (apply_claim spec.name) (client.apply_claim key (owned_claim ops spec)))
        >> pure tt
      else pure tt

  unfoldable pub ensure_volume_holder : OwnedResources → Action W (Unit {0})
  ensure_volume_holder spec =
      let key : ObjectKey = record { namespace = spec.owner.namespace; name = spec.holder_name } in
      if spec.volume_holder
      then with_reason "VolumeHolderError" (
          write (apply_deployment spec.holder_name)
            (client.apply_deployment key (owned_deployment spec)))
        >> pure tt
      else if not (spec.holder_name == "")
      then with_reason "VolumeHolderCleanupError" (
          delete_if_controller spec.owner (client.get_deployment key) (λ d. d.meta)
            (delete_deployment spec.holder_name) (client.delete_deployment key))
        >> pure tt
      else pure tt

  unfoldable pub ensure_cron_job : OwnedResources → Action W CronJob
  ensure_cron_job spec =
      let key : ObjectKey = record { namespace = spec.owner.namespace; name = spec.name } in
      with_reason "CronJobError"
        (write (apply_cron_job spec.name) (client.apply_cron_job key (owned_cron_job spec)))

  unfoldable pub ensure_owned : QuantityOps → OwnedResources → Action W CronJob
  ensure_owned ops spec = do
    ensure_config_map spec
    ensure_claim ops spec
    ensure_volume_holder spec
    ensure_cron_job spec

  -- The log lines, and the read of the legacy claim that only decides one of them, are left out.
  unfoldable pub delete_legacy_owned : ObjectMeta → String → Action W (Unit {0})
  delete_legacy_owned owner current_name =
      let legacy = legacy_owned_name owner.name in
      let key : ObjectKey = record { namespace = owner.namespace; name = legacy } in
      if legacy == current_name then pure tt else do
        delete_if_controller owner (client.get_config_map key) (λ cm. cm.meta)
            (delete_config_map legacy) (client.delete_config_map key)
        delete_if_controller owner (client.get_cron_job key) (λ cj. cj.meta)
            (delete_cron_job legacy) (client.delete_cron_job key)
        pure tt
