-- ===== src/Controller/Restore/Holder.antt =====
-- The volume holder of a Restore, as internal/controller/restore_controller.go builds it for ensureOwned.
use mathlib.Core.List.{Memᴰ}
use karkive.Prelude.{◌≡◌, refl, true, insert, insert_all, eq_refl}
use karkive.Kube.Objects.{CronJob, Deployment}
use karkive.Api.Restore.{Restore}
use karkive.Resources.Labels.{restore_labels}
use karkive.Resources.Defaults.{persistence_enabled}
use karkive.Resources.Container.{scratch_volumes}
use karkive.Resources.Runtime.{
  needs_volume_holder, with_runtime_role, volume_holder_match_labels, volume_holder_affinity_term,
  required_pod_affinity,
}
use karkive.Resources.Holder.{mutate_volume_holder_deployment}
use karkive.Resources.RestoreCronJob.{mutate_restore_cron_job, restore_volumes}
use karkive.Controller.Report.{Reconciler}
use karkive.Controller.Report.Colocated.{IsColocated}
use karkive.Controller.Restore.Reconcile.{owned_resources}

module _ {W : Type 0} (r : Reconciler W) where
  -- If a Restore asks for a volume holder and has persistence, the selector of the Deployment that
  -- ensureOwned applies admits its own pods and none of the CronJob's; a required affinity term of the
  -- CronJob's pods, with the hostname as its topology, admits the Deployment's pods and none of the
  -- CronJob's; and both mount, for writing, the claim that ensureOwned applies.
  pub restore-IsColocated :
      (restore : Restore) (cj : CronJob) (deploy : Deployment)
      → needs_volume_holder restore.spec.runtime ≡ true
      → persistence_enabled restore.spec.persistence ≡ true
      → IsColocated
          (owned_resources r restore).name
          ((owned_resources r restore).mutate_cron_job cj)
          ((owned_resources r restore).mutate_volume_holder deploy)
  unfolding owned_resources mutate_volume_holder_deployment mutate_restore_cron_job
      with_runtime_role restore_labels volume_holder_match_labels volume_holder_affinity_term
      required_pod_affinity restore_volumes scratch_volumes insert insert_all
  restore-IsColocated restore cj deploy held persistent = record {
    selects = rw (eq_refl restore.meta.name) refl;
    apart = refl;
    bound = rw held (_, Memᴰ.head refl, (rw (eq_refl restore.meta.name) refl, refl, refl, refl));
    job_claim = rw persistent (_, Memᴰ.head refl, refl);
    holder_claim = (_, Memᴰ.head refl, refl);
  }
