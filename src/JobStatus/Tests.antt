-- ===== src/JobStatus/Tests.antt =====
-- The theorems on Jobs at sample Jobs.
use mathlib.Core.List.{Memᴰ}
use karkive.Prelude.{◌≡◌, refl, ◌↔◌, ◌⊎◌, inl, [], ◌∷◌, All, true, is_positive, arith, eq_iff}
use karkive.Kube.Meta.{Time}
use karkive.Api.Common.{outcome_failed}
use karkive.Resources.Labels.{label_backup_name, kind_backup}
use karkive.JobStatus.{
  last_finished, last_finished_from, consider, belongs, finished_at, summarize_job, job_failed,
  newer,
}
use karkive.JobStatus.Latest.{last_finished-IsLatest, FinishedJob, NotAfter}
use karkive.JobStatus.Outcome.{Holds, summarize_job-outcome, summarize_job_retried}
use karkive.Samples.{running_job, retried_job}

last_finished-IsLatest_example :
    (end : Time) × Memᴰ retried_job (running_job ∷ retried_job ∷ [])
    × FinishedJob "db" label_backup_name "app" kind_backup retried_job end
    × All (NotAfter "db" label_backup_name "app" kind_backup end) (running_job ∷ retried_job ∷ [])
unfolding last_finished last_finished_from consider belongs finished_at newer
last_finished-IsLatest_example =
    last_finished-IsLatest "db" label_backup_name "app" kind_backup (running_job ∷ retried_job ∷ [])
      retried_job refl

summarize_job-outcome_example :
    ((summarize_job retried_job).outcome ≡ outcome_failed)
    ↔ ((is_positive retried_job.failed ≡ true) ⊎ Holds job_failed retried_job.conditions)
summarize_job-outcome_example = summarize_job-outcome retried_job

summarize_job_retried_example :
    ((summarize_job retried_job).outcome ≡ outcome_failed)
    × ((summarize_job retried_job).reason ≡ "")
    × ((summarize_job retried_job).message ≡ "")
summarize_job_retried_example =
    summarize_job_retried retried_job refl (inl (refl, refl))
      (λ h. ground (arith, eq_iff "Complete" "Failed", h))
