-- ===== src/JobStatus.antt =====
-- internal/jobstatus/jobstatus.go: which Job of a CR finished last, and how it ended
pub mod Latest
pub mod Outcome
pub mod Selected
mod Tests
use karkive.Prelude.{
  ℕ, String, StringMap, Bool, true, false, not, ◌&&◌, ◌||◌, Option, none, some, List, [], ◌∷◌, ◌==◌,
  ltb, is_positive, lookup, get_or_empty, if◌then◌else◌,
}
use mathlib.Core.Option
use karkive.Kube.Meta.{Time, time_is_zero, condition_true}
use karkive.Kube.Objects.{Job, JobCondition}
use karkive.Api.Common.{LastJobStatus, outcome_succeeded, outcome_failed}
use karkive.Resources.Labels.{label_kind}

abbrev pub job_complete : String
job_complete = "Complete"

abbrev pub job_failed : String
job_failed = "Failed"

-- p != nil && !p.IsZero()
abbrev pub set_time : Option Time → Option Time
set_time none = none
set_time (some t) = if time_is_zero t then none else some t

-- The loop of FinishedAt.
finished_condition : List JobCondition → Option Time
finished_condition [] = none
finished_condition (c ∷ cs) =
    let rest = finished_condition cs in
    if not (c.status == condition_true)
    then rest
    else if (c.type == job_complete || c.type == job_failed)
        && not (time_is_zero c.last_transition_time)
    then some c.last_transition_time
    else rest

unfoldable pub finished_at : Job → Option Time
unfolding finished_condition
finished_at job = elim (set_time job.completion_time) [
  | some t ↦ some t
  | none ↦ finished_condition job.conditions
]

-- The loop of Failed.
pub has_condition : String → List JobCondition → Bool
has_condition type [] = false
has_condition type (c ∷ cs) =
    (c.type == type && c.status == condition_true) || has_condition type cs

unfoldable pub failed : Job → Bool
unfolding has_condition
failed job = if is_positive job.failed then true else has_condition job_failed job.conditions

-- The reason and the message of the first condition of the type that is true.
condition_from : String → List JobCondition → String × String
condition_from type [] = ("", "")
condition_from type (c ∷ cs) =
    if c.type == type && c.status == condition_true
    then (c.reason, c.message)
    else condition_from type cs

unfoldable pub condition : Job → String → String × String
unfolding condition_from
condition job type = condition_from type job.conditions

-- Summarize at a Job, and at nil
unfoldable pub summarize_job : Job → LastJobStatus
summarize_job job =
    let ended = if failed job then job_failed else job_complete in
    record {
      name = job.meta.name;
      outcome = if failed job then outcome_failed else outcome_succeeded;
      reason = (condition job ended).0;
      message = (condition job ended).1;
      start_time = set_time job.start_time;
      completion_time = finished_at job;
    }

unfoldable pub summarize : Option Job → Option LastJobStatus
unfolding summarize_job
summarize none = none
summarize (some job) = some (summarize_job job)

-- The tests of LastFinished on a Job: its namespace, the label with the CR's name, and the kind.
unfoldable pub belongs : String → String → String → String → Job → Bool
belongs namespace name_label name kind job =
    (job.meta.namespace == namespace)
    && (get_or_empty name_label job.meta.labels == name)
    && (kind == "" || get_or_empty label_kind job.meta.labels == kind)

-- best == nil || end.After(bestAt)
unfoldable pub newer : Option (Job × Time) → Job → Time → Option (Job × Time)
newer none job end = some (job, end)
newer (some (old, best_at)) job end =
    if ltb best_at end then some (job, end) else some (old, best_at)

module _ (namespace name_label name kind : String) where
  -- One round of LastFinished: the best Job so far, with the time at which it finished.
  unfoldable pub consider : Option (Job × Time) → Job → Option (Job × Time)
  unfolding newer
  consider best job =
      if not (belongs namespace name_label name kind job)
      then best
      else elim (finished_at job) [ none ↦ best | some end ↦ newer best job end ]

  unfoldable pub last_finished_from : Option (Job × Time) → List Job → Option (Job × Time)
  last_finished_from best [] = best
  last_finished_from best (job ∷ jobs) = last_finished_from (consider best job) jobs

  unfoldable pub last_finished : List Job → Option Job
  last_finished jobs = Option.map (λ p. p.0) (last_finished_from none jobs)
