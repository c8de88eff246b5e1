-- ===== src/Metrics/LastJob.antt =====
-- The last Job that the metrics of internal/metrics/collector.go report and the one that the status
-- carries (internal/controller/last_job.go).
use karkive.Prelude.{String, ◌≡◌, refl, ◌≢◌, ◌&&◌, none, List, ◌==◌, arith, eq_iff, select}
use karkive.Errors.{ok}
use karkive.Kube.Objects.{Job}
use karkive.Kube.Selectors.{has_labels}
use karkive.Api.Backup.{Backup}
use karkive.Api.Restore.{Restore}
use karkive.Resources.Labels.{label_backup_name, label_restore_name, kind_backup, kind_restore}
use karkive.JobStatus.{summarize, last_finished}
use karkive.JobStatus.Selected.{managed_only, own_only, own_selected, last_finished-select}
use karkive.Controller.Client.{Client}
use karkive.Controller.LastJob.{last_job_of, last_job_status}
use karkive.Metrics.{Lister, backup_last_job, restore_last_job, known_or}

-- List gives the Jobs of the cluster that the selectors admit, to the collector and to the
-- reconciler of a CR.
module _ {W : Type 0} (client : Client W) (lister : Lister) (w : W) (cluster : List Job) where
  abbrev pub ListsManaged : Type 0
  ListsManaged =
      (lister.list_jobs managed_only).0
      ≡ select (λ job. has_labels managed_only job.meta.labels) cluster

  abbrev pub ListsOwn : String → String → String → String → Type 0
  ListsOwn namespace name_label name kind =
      client.list_jobs namespace (own_only name_label name kind) w
      ≡ ok (
          select
            (λ job.
              (job.meta.namespace == namespace)
              && has_labels (own_only name_label name kind) job.meta.labels)
            cluster)

  last_job_agrees :
      (namespace name_label name kind : String)
      → kind ≢ ""
      → name ≢ ""
      → ListsManaged
      → ListsOwn namespace name_label name kind
      → summarize (last_finished namespace name_label name kind (lister.list_jobs managed_only).0)
        ≡ last_job_status client namespace name_label name kind w
  unfolding last_job_status last_job_of
  last_job_agrees namespace name_label name kind kind_given named managed own =
      let same =
        last_finished-select namespace name_label name kind
          (λ job. has_labels managed_only job.meta.labels)
          (λ job.
            (job.meta.namespace == namespace)
            && has_labels (own_only name_label name kind) job.meta.labels)
          (λ job b. own_selected namespace name_label name kind job kind_given named b) cluster in
      rw (managed, own, same) refl

  -- Where the status of a Backup with a name carries no last Job, the collector reports the last Job that
  -- a reconciliation would store, if List gives each of them the Jobs of one cluster that its selector
  -- admits.
  pub backup_last_job-stored :
      (backup : Backup)
      → backup.status.last_job ≡ none
      → backup.meta.name ≢ ""
      → ListsManaged
      → ListsOwn backup.meta.namespace label_backup_name backup.meta.name kind_backup
      → backup_last_job backup (lister.list_jobs managed_only).0
        ≡ last_job_status client backup.meta.namespace label_backup_name backup.meta.name
            kind_backup w
  unfolding backup_last_job known_or
  backup_last_job-stored backup empty named managed own = rw empty (
      last_job_agrees backup.meta.namespace label_backup_name backup.meta.name kind_backup
        (λ e. ground (arith, eq_iff kind_backup "", e)) named managed own)

  -- Where the status of a Restore with a name carries no last Job, the collector reports the last Job that
  -- a reconciliation would store, if List gives each of them the Jobs of one cluster that its selector
  -- admits.
  pub restore_last_job-stored :
      (restore : Restore)
      → restore.status.last_job ≡ none
      → restore.meta.name ≢ ""
      → ListsManaged
      → ListsOwn restore.meta.namespace label_restore_name restore.meta.name kind_restore
      → restore_last_job restore (lister.list_jobs managed_only).0
        ≡ last_job_status client restore.meta.namespace label_restore_name restore.meta.name
            kind_restore w
  unfolding restore_last_job known_or
  restore_last_job-stored restore empty named managed own = rw empty (
      last_job_agrees restore.meta.namespace label_restore_name restore.meta.name kind_restore
        (λ e. ground (arith, eq_iff kind_restore "", e)) named managed own)
