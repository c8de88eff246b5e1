-- ===== src/Controller/Status.antt =====
-- internal/controller/status.go, and what setStatus of both reconcilers computes before its writes
pub mod Steady
use Prim.Native.String.{◌++◌}
use karkive.Prelude.{
  ℤ, pos, String, Bool, true, false, not, ◌&&◌, ◌||◌, Option, none, some, List, ◌==◌, int_eq,
  if◌then◌else◌,
}
use karkive.Kube.Meta.{
  Time, ObjectMeta, Condition, condition_true, condition_false, condition_unknown,
}
use karkive.Kube.Objects.{CronJob}
use karkive.Api.Common.{LastJobStatus, outcome_succeeded, condition_ready}
use karkive.Controller.Client.{StatusOps}

abbrev pub event_type_normal : String
event_type_normal = "Normal"

abbrev pub event_type_warning : String
event_type_warning = "Warning"

-- The condition that setJobSucceededCondition sets.
unfoldable pub job_succeeded_condition : String → ℤ → Option LastJobStatus → Condition
job_succeeded_condition type generation none = record {
  type = type;
  status = condition_unknown;
  reason = "NoFinishedJob";
  message = "No finished Job yet";
  observed_generation = generation;
  last_transition_time = 0;
}
job_succeeded_condition type generation (some last_job) =
    if last_job.outcome == outcome_succeeded
    then record {
      type = type;
      status = condition_true;
      reason = "JobSucceeded";
      message =
          if not (last_job.name == "")
          then "Job " ++ last_job.name ++ " succeeded"
          else "Last Job succeeded";
      observed_generation = generation;
      last_transition_time = 0;
    }
    else record {
      type = type;
      status = condition_false;
      reason = if last_job.reason == "" then "JobFailed" else last_job.reason;
      message =
          if not (last_job.message == "")
          then last_job.message
          else if not (last_job.name == "")
          then "Job " ++ last_job.name ++ " failed"
          else "Last Job failed";
      observed_generation = generation;
      last_transition_time = 0;
    }

unfoldable pub generation_changed : ℤ → ℤ → String → Bool
generation_changed generation observed current_phase =
    if not (int_eq observed generation)
    then true
    else int_eq generation (pos 0) && int_eq observed (pos 0) && current_phase == ""

unfoldable pub should_record_event : String → Bool → Bool → Bool → Bool
should_record_event event_type spec_changed phase_changed cond_changed =
    if event_type == event_type_normal
    then spec_changed
    else spec_changed || phase_changed || cond_changed

unfoldable pub status_needs_patch : Bool → Bool → Bool → Bool → Bool → Bool
status_needs_patch spec_changed phase_changed cond_changed last_job_changed cron_changed =
    spec_changed || phase_changed || cond_changed || last_job_changed || cron_changed
