-- ===== src/Resources/Wiring/Backup.antt =====
-- The references of the pod of internal/resources/cronjob.go.
use mathlib.Core.List.{Memᴰ}
use mathlib.Core.Bool.{false≢true}
use karkive.Prelude.{
  sym, ◌∙◌, String, ◌≡◌, refl, inl, inr, true, false, List, ◌==◌, All, Bool-cases, arith, eq_iff,
}
use karkive.Kube.Meta.{QuantityOps}
use karkive.Kube.Objects.{CronJob}
use karkive.Kube.Pod.{SecretKeyRef, ResourceRequirements, Volume}
use karkive.Api.Common.{Engine, engine_mariadb, engine_redis, engine_pvc, enabled_or_default}
use karkive.Api.Backup.{Backup}
use karkive.Resources.Config.{Config}
use karkive.Resources.Engine.{effective_engine}
use karkive.Resources.Defaults.{persistence_enabled}
use karkive.Resources.PvcSource.{is_pvc_backup, volume_source, pvc_source_volume}
use karkive.Resources.Pipeline.{Scripts}
use karkive.Resources.Container.{
  new_script_container, secret_env, scratch_volumes, volume_data_dir, volume_tmp, volume_gpg,
}
use karkive.Resources.BackupCronJob.Containers.{
  dump_container, pvc_dump_container, encrypt_container, s3_sync_container,
}
use karkive.Resources.BackupCronJob.{backup_containers, backup_volumes, mutate_backup_cron_job}
use karkive.Resources.Wiring.{Has, key_of, ContainerReads, PodReads, ContainerMounts, PodMounts}

other_engine :
    (backup : Backup) (engine : Engine)
    → effective_engine backup.spec.engine == engine ≡ true
    → engine == engine_pvc ≡ false
    → is_pvc_backup backup ≡ false
unfolding is_pvc_backup
other_engine backup engine same other =
    ground (arith, eq_iff (effective_engine backup.spec.engine) engine)

module _ (scripts : Scripts) (ops : QuantityOps) (cfg : Config) where
  module _ (P : SecretKeyRef → Type 0) where
    dump_container-Reads :
        (backup : Backup) (res : ResourceRequirements) (cm_name secret : String)
        → (is_pvc_backup backup ≡ false
            → P (key_of secret "username") × P (key_of secret "password"))
        → ContainerReads P (dump_container scripts backup cfg res cm_name secret)
    unfolding dump_container pvc_dump_container new_script_container is_pvc_backup secret_env
    dump_container-Reads backup res cm_name secret login =
        let e = effective_engine backup.spec.engine in
        elim (Bool-cases (e == engine_mariadb)) [
          | inl m ↦
              let (u, p) = login (other_engine backup engine_mariadb m refl) in rw m (u, (p, tt))
          | inr not_m ↦ elim (Bool-cases (e == engine_redis)) [
            | inl d ↦
                let (u, p) = login (other_engine backup engine_redis d refl) in
                rw (not_m, d) (u, (p, tt))
            | inr not_d ↦ elim (Bool-cases (e == engine_pvc)) [
              | inl v ↦ rw (not_m, not_d, v) tt
              | inr not_v ↦ let (u, p) = login not_v in rw (not_m, not_d, not_v) (u, (p, tt))
            ]
          ]
        ]

    -- Every key of a Secret that the backup pod reads satisfies `P`, if the passphrase does, the login
    -- does for a database, and the S3 keys do where uploads are on.
    pub backup_pod-Reads :
        (cj : CronJob) (backup : Backup)
        → P (key_of backup.spec.secret_ref.name "gpg_passphrase")
        → (is_pvc_backup backup ≡ false
            → P (key_of backup.spec.secret_ref.name "username")
              × P (key_of backup.spec.secret_ref.name "password"))
        → (enabled_or_default backup.spec.s3 ≡ true
            → P (key_of backup.spec.secret_ref.name "s3_access_key")
              × P (key_of backup.spec.secret_ref.name "s3_secret_key"))
        → PodReads P (mutate_backup_cron_job scripts ops cj backup cfg).spec.job.pod
    unfolding mutate_backup_cron_job backup_containers backup_volumes scratch_volumes
        encrypt_container s3_sync_container new_script_container secret_env pvc_source_volume
    backup_pod-Reads cj backup gpg login s3 =
        let dump = dump_container-Reads backup in
        (
          elim (Bool-cases (enabled_or_default backup.spec.s3)) [
            | inl on ↦
                let (a, k) = s3 on in rw on (tt, (dump _ _ _ login, (tt, (tt, ((a, (k, tt)), tt)))))
            | inr off ↦ rw off (tt, (dump _ _ _ login, (tt, (tt, tt))))
          ],
          elim (Bool-cases (is_pvc_backup backup)) [
            | inl pvc ↦ elim (Bool-cases (persistence_enabled backup.spec.persistence)) [
              | inl p ↦ rw (pvc, p) (tt, (tt, ((gpg, tt), (tt, tt))))
              | inr p ↦ rw (pvc, p) (tt, (tt, ((gpg, tt), (tt, tt))))
            ]
            | inr other ↦ elim (Bool-cases (persistence_enabled backup.spec.persistence)) [
              | inl p ↦ rw (other, p) (tt, (tt, ((gpg, tt), tt)))
              | inr p ↦ rw (other, p) (tt, (tt, ((gpg, tt), tt)))
            ]
          ],
        )

  dump_container-Mounts :
      (volumes : List Volume) (backup : Backup) (res : ResourceRequirements)
      (cm_name secret : String)
      → Has volumes volume_data_dir
      → Has volumes volume_tmp
      → (is_pvc_backup backup ≡ true → Has volumes volume_source)
      → ContainerMounts volumes (dump_container scripts backup cfg res cm_name secret)
  unfolding dump_container pvc_dump_container new_script_container is_pvc_backup
  dump_container-Mounts volumes backup res cm_name secret dir temp source =
      let e = effective_engine backup.spec.engine in
      elim (Bool-cases (e == engine_mariadb)) [
        | inl m ↦ rw m (dir, (temp, tt))
        | inr not_m ↦ elim (Bool-cases (e == engine_redis)) [
          | inl d ↦ rw (not_m, d) (dir, (temp, tt))
          | inr not_d ↦ elim (Bool-cases (e == engine_pvc)) [
            | inl v ↦ rw (not_m, not_d, v) (dir, (temp, (source v, tt)))
            | inr not_v ↦ rw (not_m, not_d, not_v) (dir, (temp, tt))
          ]
        ]
      ]

  backup_containers-Mounts :
      (volumes : List Volume) (backup : Backup)
      → Has volumes volume_data_dir
      → Has volumes volume_tmp
      → Has volumes volume_gpg
      → (is_pvc_backup backup ≡ true → Has volumes volume_source)
      → All (ContainerMounts volumes) (backup_containers scripts ops backup cfg)
  unfolding backup_containers encrypt_container s3_sync_container new_script_container
  backup_containers-Mounts volumes backup dir temp gpg source =
      let dump = dump_container-Mounts volumes backup in
      let plain : Has volumes volume_data_dir × (Has volumes volume_tmp × Unit) =
        (dir, (temp, tt)) in
      let dumped = dump _ _ _ dir temp source in
      elim (Bool-cases (enabled_or_default backup.spec.s3)) [
        | inl on ↦ rw on (plain, (dumped, (plain, ((dir, (temp, (gpg, tt))), (plain, tt)))))
        | inr off ↦ rw off (plain, (dumped, (plain, ((dir, (temp, (gpg, tt))), tt))))
      ]

  -- Every volume that a stage of the backup pod mounts is a volume of the pod.
  pub backup_pod-Mounts :
      (cj : CronJob) (backup : Backup)
      → PodMounts (mutate_backup_cron_job scripts ops cj backup cfg).spec.job.pod
  unfolding mutate_backup_cron_job backup_volumes scratch_volumes pvc_source_volume
  backup_pod-Mounts cj backup = elim (Bool-cases (is_pvc_backup backup)) [
    | inl pvc ↦ rw pvc (
        backup_containers-Mounts _ backup (_, Memᴰ.head refl, refl)
          (_, Memᴰ.tail (Memᴰ.head refl), refl) (_, Memᴰ.tail (Memᴰ.tail (Memᴰ.head refl)), refl)
          (λ p. (_, Memᴰ.tail (Memᴰ.tail (Memᴰ.tail (Memᴰ.head refl))), refl)))
    | inr other ↦ rw other (
        backup_containers-Mounts _ backup (_, Memᴰ.head refl, refl)
          (_, Memᴰ.tail (Memᴰ.head refl), refl) (_, Memᴰ.tail (Memᴰ.tail (Memᴰ.head refl)), refl)
          (λ p. absurd (false≢true (sym other ∙ p))))
  ]
