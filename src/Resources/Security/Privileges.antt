-- ===== src/Resources/Security/Privileges.antt =====
-- The privileges of the stages of a backup: internal/resources/cronjob.go with security.go.

use karkive.Prelude.{
  String, pos, ◌≡◌, refl, ◌⊎◌, inl, inr, true, false, some, [], ◌∷◌, ◌==◌, int_eq, All, Bool-cases,
}
use karkive.Kube.Meta.{QuantityOps}
use karkive.Kube.Objects.{CronJob}
use karkive.Kube.Pod.{SecurityContext, Container, ResourceRequirements}
use karkive.Api.Common.{engine_mariadb, engine_redis, engine_pvc, enabled_or_default}
use karkive.Api.Backup.{Backup}
use karkive.Resources.Config.{Config}
use karkive.Resources.Engine.{effective_engine}
use karkive.Resources.PvcSource.{is_pvc_backup}
use karkive.Resources.Pipeline.{Scripts}
use karkive.Resources.Container.{new_script_container}
use karkive.Resources.BackupCronJob.Containers.{
  dump_container, pvc_dump_container, encrypt_container, s3_sync_container,
}
use karkive.Resources.BackupCronJob.{backup_containers, mutate_backup_cron_job}
use karkive.Resources.Security.{
  pvc_dump_security_context, source_uid, source_gid, unix_user_security_context,
  postgres_security_context, mariadb_security_context, redis_security_context, mc_security_context,
  tools_security_context,
}

-- What every stage is denied.
pub record IsConfined (c : SecurityContext) : Type 0 where
  pub escalation : c.allow_privilege_escalation ≡ some false
  pub privileged : c.privileged ≡ some false
  pub root_filesystem : c.read_only_root_filesystem ≡ some true
  pub seccomp : c.seccomp_profile ≡ some "RuntimeDefault"

-- Not root, and without any capability.
abbrev pub IsUnprivileged : SecurityContext → Type 0
IsUnprivileged c =
    (c.run_as_non_root ≡ some true)
    × (c.capabilities ≡ some (record { add = []; drop = "ALL" ∷ [] }))

-- Root, with one capability.
abbrev pub IsReadingRoot : SecurityContext → Type 0
IsReadingRoot c =
    (c.run_as_user ≡ some (pos 0))
    × (c.capabilities ≡ some (record { add = "DAC_OVERRIDE" ∷ []; drop = "ALL" ∷ [] }))

-- The stage pvcdump, which reads the source claim, has the group of the spec. If the uid of the spec
-- (0 by default) is not 0 it runs as that user, unprivileged, and otherwise as root.
abbrev pub ReadsAsSource : Backup → SecurityContext → Type 0
ReadsAsSource backup c =
    (is_pvc_backup backup ≡ true)
    × (c.run_as_group ≡ some (source_gid backup.spec.pvc))
    × (((int_eq (source_uid backup.spec.pvc) (pos 0) ≡ false)
          × (c.run_as_user ≡ some (source_uid backup.spec.pvc))
          × IsUnprivileged c)
        ⊎ ((int_eq (source_uid backup.spec.pvc) (pos 0) ≡ true) × IsReadingRoot c))

abbrev pub IsConfinedStage : Backup → Container → Type 0
IsConfinedStage backup stage =
    (c : SecurityContext) × (stage.security_context ≡ some c)
    × IsConfined c
    × (((stage.name == "pvcdump" ≡ false) × IsUnprivileged c)
        ⊎ ((stage.name ≡ "pvcdump") × ReadsAsSource backup c))

unix_user-IsConfined : (uid : _) → IsConfined (unix_user_security_context uid)
unfolding unix_user_security_context
unix_user-IsConfined uid = record {
  escalation = refl;
  privileged = refl;
  root_filesystem = refl;
  seccomp = refl;
}

pvc_dump-ReadsAsSource :
    (backup : Backup)
    → is_pvc_backup backup ≡ true
    → IsConfined (pvc_dump_security_context backup.spec.pvc)
      × ReadsAsSource backup (pvc_dump_security_context backup.spec.pvc)
unfolding pvc_dump_security_context unix_user_security_context
pvc_dump-ReadsAsSource backup pvc =
    elim (Bool-cases (int_eq (source_uid backup.spec.pvc) (pos 0))) [
      | inl root ↦ rw root (
        record { escalation = refl; privileged = refl; root_filesystem = refl; seccomp = refl },
        (pvc, refl, inr (refl, (refl, refl))),
      )
      | inr user ↦ rw user (
        record { escalation = refl; privileged = refl; root_filesystem = refl; seccomp = refl },
        (pvc, refl, inl (refl, refl, (refl, refl))),
      )
    ]

pvc_engine :
    (backup : Backup)
    → effective_engine backup.spec.engine == engine_pvc ≡ true
    → is_pvc_backup backup ≡ true
unfolding is_pvc_backup
pvc_engine backup engine = engine

module _ (scripts : Scripts) (cfg : Config) (backup : Backup) where
  dump_container-IsConfinedStage :
      (res : ResourceRequirements) (cm_name secret : String)
      → IsConfinedStage backup (dump_container scripts backup cfg res cm_name secret)
  unfolding dump_container pvc_dump_container new_script_container postgres_security_context
      mariadb_security_context redis_security_context unix_user_security_context
  dump_container-IsConfinedStage res cm_name secret =
      let e = effective_engine backup.spec.engine in
      elim (Bool-cases (e == engine_mariadb)) [
        | inl m ↦ rw m (_, refl, unix_user-IsConfined _, inl (refl, (refl, refl)))
        | inr not_m ↦ elim (Bool-cases (e == engine_redis)) [
          | inl d ↦ rw (not_m, d) (_, refl, unix_user-IsConfined _, inl (refl, (refl, refl)))
          | inr not_d ↦ elim (Bool-cases (e == engine_pvc)) [
            | inl v ↦
                let (confined, reads) = pvc_dump-ReadsAsSource backup (pvc_engine backup v) in
                rw (not_m, not_d, v) (_, refl, confined, inr (refl, reads))
            | inr not_v ↦
                rw (not_m, not_d, not_v) (_, refl, unix_user-IsConfined _, inl (refl, (refl, refl)))
          ]
        ]
      ]

  -- Every stage of a backup, whatever the spec asks for, has a security context without privilege
  -- escalation, unprivileged, with a read-only root file system and the seccomp profile of the runtime.
  -- Every stage but pvcdump runs as a user other than root, without capabilities. So does pvcdump,
  -- the stage of engine pvc that reads the source claim, as the user of the spec, if that is not 0; for
  -- uid 0 it is root with DAC_OVERRIDE as its only capability. Its group is the one of the spec.
  pub backup_pod-IsConfinedStage :
      (ops : QuantityOps) (cj : CronJob)
      → All
          (IsConfinedStage backup)
          (mutate_backup_cron_job scripts ops cj backup cfg).spec.job.pod.containers
  unfolding mutate_backup_cron_job backup_containers encrypt_container s3_sync_container
      new_script_container tools_security_context mc_security_context unix_user_security_context
  backup_pod-IsConfinedStage ops cj =
      let dump = dump_container-IsConfinedStage in
      let tools = unix_user-IsConfined in
      elim (Bool-cases (enabled_or_default backup.spec.s3)) [
        | inl on ↦ rw on (
          (_, refl, tools _, inl (refl, (refl, refl))),
          (
            dump _ _ _,
            (
              (_, refl, tools _, inl (refl, (refl, refl))),
              (
                (_, refl, tools _, inl (refl, (refl, refl))),
                ((_, refl, tools _, inl (refl, (refl, refl))), tt),
              ),
            ),
          ),
        )
        | inr off ↦ rw off (
          (_, refl, tools _, inl (refl, (refl, refl))),
          (
            dump _ _ _,
            (
              (_, refl, tools _, inl (refl, (refl, refl))),
              ((_, refl, tools _, inl (refl, (refl, refl))), tt),
            ),
          ),
        )
      ]
