-- ===== src/Resources/Wiring/Restore.antt =====
-- The references of the pod of internal/resources/restore_cronjob.go.
use mathlib.Core.List.{Memᴰ}
use karkive.Prelude.{String, refl, inl, inr, List, ◌==◌, All, Bool-cases}
use karkive.Kube.Meta.{QuantityOps}
use karkive.Kube.Objects.{CronJob}
use karkive.Kube.Pod.{SecretKeyRef, ResourceRequirements, Volume}
use karkive.Api.Common.{engine_mariadb, engine_redis}
use karkive.Api.Restore.{Restore}
use karkive.Resources.Config.{Config}
use karkive.Resources.Engine.{effective_engine}
use karkive.Resources.Defaults.{persistence_enabled, restore_workdir, restore_target_secret}
use karkive.Resources.Pipeline.{Scripts}
use karkive.Resources.Container.{
  new_script_container, secret_env, scratch_volumes, volume_workdir, volume_tmp, volume_gpg,
}
use karkive.Resources.RestoreCronJob.{
  restore_engine_container, restore_fetch_container, restore_decrypt_container, restore_containers,
  restore_volumes, mutate_restore_cron_job,
}
use karkive.Resources.Wiring.{Has, key_of, ContainerReads, PodReads, ContainerMounts, PodMounts}

module _ (scripts : Scripts) (ops : QuantityOps) (cfg : Config) where
  module _ (P : SecretKeyRef → Type 0) where
    restore_engine_container-Reads :
        (restore : Restore) (res : ResourceRequirements) (cm_name workdir : String)
        → (let target = restore_target_secret restore in
            P (key_of target.name target.user_key) × P (key_of target.name target.pass_key))
        → ContainerReads P (restore_engine_container scripts ops restore cfg res cm_name workdir)
    unfolding restore_engine_container restore_target_secret new_script_container secret_env
    restore_engine_container-Reads restore res cm_name workdir =
        let e = effective_engine restore.spec.engine in
        elim (Bool-cases (e == engine_mariadb)) [
          | inl m ↦ rw m (λ (u, p). (u, (p, tt)))
          | inr not_m ↦ elim (Bool-cases (e == engine_redis)) [
            | inl d ↦ rw (not_m, d) (λ (u, p). (u, (p, tt)))
            | inr not_d ↦ rw (not_m, not_d) (λ (u, p). (u, (p, tt)))
          ]
        ]

    -- Every key of a Secret that the restore pod reads satisfies `P`, if the passphrase, the S3 keys
    -- and the login of the target do.
    pub restore_pod-Reads :
        (cj : CronJob) (restore : Restore)
        → P (key_of restore.spec.secret_ref.name "gpg_passphrase")
        → P (key_of restore.spec.secret_ref.name "s3_access_key")
        → P (key_of restore.spec.secret_ref.name "s3_secret_key")
        → (let target = restore_target_secret restore in
            P (key_of target.name target.user_key) × P (key_of target.name target.pass_key))
        → PodReads P (mutate_restore_cron_job scripts ops cj restore cfg).spec.job.pod
    unfolding mutate_restore_cron_job restore_containers restore_volumes scratch_volumes
        restore_fetch_container restore_decrypt_container new_script_container secret_env
    restore_pod-Reads cj restore gpg access key login =
        let engine = restore_engine_container-Reads restore _ _ (restore_workdir restore) login in
        (
          (tt, ((access, (key, tt)), (tt, (tt, (engine, tt))))),
          elim (Bool-cases (persistence_enabled restore.spec.persistence)) [
            | inl p ↦ rw p (tt, (tt, ((gpg, tt), tt)))
            | inr p ↦ rw p (tt, (tt, ((gpg, tt), tt)))
          ],
        )

  restore_engine_container-Mounts :
      (volumes : List Volume) (restore : Restore) (res : ResourceRequirements)
      (cm_name workdir : String)
      → Has volumes volume_workdir
      → Has volumes volume_tmp
      → ContainerMounts volumes
          (restore_engine_container scripts ops restore cfg res cm_name workdir)
  unfolding restore_engine_container new_script_container
  restore_engine_container-Mounts volumes restore res cm_name workdir dir temp =
      let e = effective_engine restore.spec.engine in
      elim (Bool-cases (e == engine_mariadb)) [
        | inl m ↦ rw m (dir, (temp, tt))
        | inr not_m ↦ elim (Bool-cases (e == engine_redis)) [
          | inl d ↦ rw (not_m, d) (dir, (temp, tt))
          | inr not_d ↦ rw (not_m, not_d) (dir, (temp, tt))
        ]
      ]

  restore_containers-Mounts :
      (volumes : List Volume) (restore : Restore)
      → Has volumes volume_workdir
      → Has volumes volume_tmp
      → Has volumes volume_gpg
      → All (ContainerMounts volumes) (restore_containers scripts ops restore cfg)
  unfolding restore_containers restore_fetch_container restore_decrypt_container
      new_script_container
  restore_containers-Mounts volumes restore dir temp gpg =
      let plain : Has volumes volume_workdir × (Has volumes volume_tmp × Unit) =
        (dir, (temp, tt)) in
      let engine =
        restore_engine_container-Mounts volumes restore _ _ (restore_workdir restore) dir temp in
      (plain, (plain, ((dir, (temp, (gpg, tt))), (plain, (engine, tt)))))

  -- Every volume that a stage of the restore pod mounts is a volume of the pod.
  pub restore_pod-Mounts :
      (cj : CronJob) (restore : Restore)
      → PodMounts (mutate_restore_cron_job scripts ops cj restore cfg).spec.job.pod
  unfolding mutate_restore_cron_job restore_volumes scratch_volumes
  restore_pod-Mounts cj restore =
      restore_containers-Mounts _ restore (_, Memᴰ.head refl, refl)
        (_, Memᴰ.tail (Memᴰ.head refl), refl) (_, Memᴰ.tail (Memᴰ.tail (Memᴰ.head refl)), refl)
