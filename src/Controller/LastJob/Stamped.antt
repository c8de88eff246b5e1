-- ===== src/Controller/LastJob/Stamped.antt =====
-- The Jobs that the CronJob controller makes from the templates of internal/resources/cronjob.go and
-- restore_cronjob.go, as internal/controller/last_job.go sees them.
use karkive.Prelude.{
  ◌≡◌, refl, ◌≢◌, inl, inr, true, [], ◌∷◌, ◌==◌, arith, eq_iff, eq_refl, Bool-cases,
}
use karkive.Kube.Meta.{ObjectMeta, QuantityOps}
use karkive.Kube.Objects.{CronJob}
use karkive.Kube.Selectors.{has_labels}
use karkive.Api.Backup.{Backup}
use karkive.Api.Restore.{Restore}
use karkive.Resources.Config.{Config}
use karkive.Resources.Labels.{
  backup_labels, restore_labels, label_backup_name, label_restore_name, kind_backup, kind_restore,
}
use karkive.Resources.Pipeline.{Scripts}
use karkive.Resources.BackupCronJob.{mutate_backup_cron_job}
use karkive.Resources.RestoreCronJob.{mutate_restore_cron_job}
use karkive.JobStatus.Selected.{own_only}
use karkive.Controller.LastJob.{map_job_to_owner}

-- The Job was made from the template, in the namespace of its CR.
abbrev pub IsStamped : CronJob → ObjectMeta → ObjectMeta → Type 0
IsStamped cj owner job =
    (job.labels ≡ cj.spec.job_template_labels) × (job.namespace ≡ owner.namespace)

module _ (scripts : Scripts) (ops : QuantityOps) (cfg : Config) where
  -- A Job that was made from the CronJob of a Backup with a name is mapped back to that Backup and to
  -- no Restore, and the selector of the Backup's Jobs admits it.
  pub backup_cron_job-owner :
      (cj : CronJob) (backup : Backup) (job : ObjectMeta)
      → IsStamped (mutate_backup_cron_job scripts ops cj backup cfg) backup.meta job
      → backup.meta.name ≢ ""
      → (map_job_to_owner kind_backup label_backup_name job
          ≡ record { namespace = backup.meta.namespace; name = backup.meta.name } ∷ [])
        × (map_job_to_owner kind_restore label_restore_name job ≡ [])
        × (has_labels (own_only label_backup_name backup.meta.name kind_backup) job.labels ≡ true)
  unfolding mutate_backup_cron_job backup_labels map_job_to_owner
  backup_cron_job-owner cj backup job (labels, namespace) named =
      elim (Bool-cases (backup.meta.name == "")) [
        | inl e ↦ absurd (named (ground (arith, eq_iff backup.meta.name "", e)))
        | inr e ↦ rw (labels, namespace) (rw e refl, refl, rw (eq_refl backup.meta.name) refl)
      ]

  -- A Job that was made from the CronJob of a Restore with a name is mapped back to that Restore and to
  -- no Backup, and the selector of the Restore's Jobs admits it.
  pub restore_cron_job-owner :
      (cj : CronJob) (restore : Restore) (job : ObjectMeta)
      → IsStamped (mutate_restore_cron_job scripts ops cj restore cfg) restore.meta job
      → restore.meta.name ≢ ""
      → (map_job_to_owner kind_restore label_restore_name job
          ≡ record { namespace = restore.meta.namespace; name = restore.meta.name } ∷ [])
        × (map_job_to_owner kind_backup label_backup_name job ≡ [])
        × (has_labels (own_only label_restore_name restore.meta.name kind_restore) job.labels
            ≡ true)
  unfolding mutate_restore_cron_job restore_labels map_job_to_owner
  restore_cron_job-owner cj restore job (labels, namespace) named =
      elim (Bool-cases (restore.meta.name == "")) [
        | inl e ↦ absurd (named (ground (arith, eq_iff restore.meta.name "", e)))
        | inr e ↦ rw (labels, namespace) (rw e refl, refl, rw (eq_refl restore.meta.name) refl)
      ]
