-- ===== src/JobStatus/Outcome.antt =====
-- What Summarize of internal/jobstatus/jobstatus.go says of a Job.
use karkive.Prelude.{
  String, ◌≡◌, refl, ◌↔◌, ◌⊎◌, inr, true, List, [], ◌∷◌, arith, eq_iff, is_positive,
}
use karkive.Kube.Meta.{condition_true}
use karkive.Kube.Objects.{Job, JobCondition}
use karkive.Api.Common.{outcome_succeeded, outcome_failed}
use karkive.JobStatus.{
  job_complete, job_failed, has_condition, failed, condition, condition_from, summarize_job,
}

-- The condition is there and is true.
abbrev pub Holds : String → List JobCondition → Type 0
Holds type [] = ⊥
Holds type (c ∷ cs) = ((c.type ≡ type) × (c.status ≡ condition_true)) ⊎ Holds type cs

has_condition_iff :
    (type : String) (cs : List JobCondition) → (has_condition type cs ≡ true) ↔ Holds type cs
unfolding has_condition
has_condition_iff type [] = ground arith
has_condition_iff type (c ∷ cs) =
    ground (arith, eq_iff c.type type, eq_iff c.status condition_true, has_condition_iff type cs)

-- The outcome is Failed exactly if some pod of the Job failed or the Job has the condition Failed,
-- and it is Succeeded otherwise.
pub summarize_job-outcome :
    (job : Job)
    → ((summarize_job job).outcome ≡ outcome_failed)
      ↔ ((is_positive job.failed ≡ true) ⊎ Holds job_failed job.conditions)
unfolding summarize_job failed
summarize_job-outcome job =
    ground
      (arith, eq_iff outcome_succeeded outcome_failed, has_condition_iff job_failed job.conditions)

condition-eq-empty :
    (type : String) (cs : List JobCondition) → ¬ Holds type cs → condition_from type cs ≡ ("", "")
unfolding condition_from
condition-eq-empty type [] no_condition = refl
condition-eq-empty type (c ∷ cs) no_condition = ground (
  arith,
  eq_iff c.type type,
  eq_iff c.status condition_true,
  condition-eq-empty type cs (λ h. no_condition (inr h)),
)

-- A Job that has the condition Complete and not the condition Failed, but one of whose pods failed
-- and was retried, is reported as failed, with no reason and no message.
pub summarize_job_retried :
    (job : Job)
    → is_positive job.failed ≡ true
    → Holds job_complete job.conditions
    → ¬ Holds job_failed job.conditions
    → ((summarize_job job).outcome ≡ outcome_failed)
      × ((summarize_job job).reason ≡ "")
      × ((summarize_job job).message ≡ "")
unfolding summarize_job failed condition
summarize_job_retried job pods complete ended =
    let texts = condition-eq-empty job_failed job.conditions ended in
    (rw pods, rw (pods, texts), rw (pods, texts))
