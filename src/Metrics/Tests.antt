-- ===== src/Metrics/Tests.antt =====
-- The theorems on the metrics at a sample cluster.
use karkive.Prelude.{
  ℕ, ◌≡◌, refl, ◌&&◌, ◌==◌, none, some, List, [], ◌∷◌, All, Pairwise, select, arith, eq_iff,
}
use karkive.Errors.{ok}
use karkive.Kube.Objects.{Job}
use karkive.Kube.Selectors.{has_labels}
use karkive.Api.Backup.{Backup}
use karkive.Resources.Labels.{
  label_app_managed_by, managed_by, label_kind, kind_backup, label_backup_name,
}
use karkive.JobStatus.Selected.{managed_only}
use karkive.Controller.Client.{Client}
use karkive.Controller.LastJob.{last_job_status}
use karkive.Metrics.{Lister, collect, backup_last_job}
use karkive.Metrics.Described.{IsDescribed, collect-IsDescribed}
use karkive.Metrics.Series.{Distinct, collect-Distinct}
use karkive.Metrics.Range.{InRange, collect-InRange}
use karkive.Metrics.LastJob.{backup_last_job-stored}
use karkive.Samples.{meta_of, backup, restore, retried_job, running_job, client, not_found}

abbrev managed_job : Job
managed_job =
    let meta = meta_of "app-2" in
    record retried_job {
      meta = record meta {
        labels =
            (label_app_managed_by, managed_by)
            ∷ (label_kind, kind_backup)
            ∷ (label_backup_name, "app")
            ∷ [];
      };
    }

abbrev cluster : List Job
cluster = running_job ∷ managed_job ∷ []

abbrev other_backup : Backup
other_backup = record backup { meta = meta_of "shop" }

-- The Restores cannot be listed.
abbrev lister : Lister
lister = record {
  list_jobs = λ labels. (select (λ job. has_labels labels job.meta.labels) cluster, none);
  list_backups = (backup ∷ other_backup ∷ [], none);
  list_restores = (restore ∷ [], some not_found);
}

abbrev selecting_client : Client ℕ
selecting_client = record client {
  list_jobs = λ namespace labels w. ok (
      select (λ job. (job.meta.namespace == namespace) && has_labels labels job.meta.labels)
        cluster);
}

collect-IsDescribed_example : All IsDescribed (collect lister)
collect-IsDescribed_example = collect-IsDescribed lister

collect-Distinct_example : Pairwise Distinct (collect lister)
collect-Distinct_example =
    collect-Distinct lister ((λ same. ground (arith, eq_iff "app" "shop", same.1), tt), (tt, tt))
      (tt, tt)

collect-InRange_example : All InRange (collect lister)
collect-InRange_example = collect-InRange lister

backup_last_job-stored_example :
    backup_last_job backup (lister.list_jobs managed_only).0
    ≡ last_job_status selecting_client "db" label_backup_name "app" kind_backup 0
backup_last_job-stored_example =
    backup_last_job-stored selecting_client lister 0 cluster backup refl
      (λ e. ground (arith, eq_iff "app" "", e)) refl refl
