-- ===== src/Metrics.antt =====
-- internal/metrics/collector.go: the gauges that the operator exports
pub mod Descriptions
pub mod Series
pub mod Described
pub mod LastJob
pub mod Range
mod Tests
use karkive.Prelude.{
  ℕ, pos, ℤ, negsuc, ◌+◌, ◌-◌, ◌*◌, ◌/◌, String, StringMap, Bool, true, false, Option, none, some,
  List, [], ◌∷◌, ◌++◌, ◌==◌, ltb, leb, is_positive, deref, if◌then◌else◌,
}
use karkive.Errors.{Error}
use karkive.Kube.Meta.{Time, ObjectMeta}
use karkive.Kube.Objects.{Job}
use karkive.Api.Common.{LastJobStatus, outcome_failed}
use karkive.Api.Backup.{Backup, phase_ready}
use karkive.Api.Restore.{Restore}
use karkive.Resources.Engine.{effective_engine}
use karkive.Resources.Labels.{
  label_app_managed_by, managed_by, label_backup_name, label_restore_name, kind_backup,
  kind_restore,
}
use karkive.JobStatus.{set_time, summarize, last_finished}
use karkive.Metrics.Descriptions.{
  Desc, backup_ready_desc, backup_suspended_desc, backup_last_schedule_desc,
  backup_last_success_desc, backup_last_job_failed_desc, backup_last_job_duration_desc,
  backup_last_job_info_desc, restore_ready_desc, restore_suspended_desc, restore_last_schedule_desc,
  restore_last_success_desc, restore_last_job_failed_desc, restore_last_job_duration_desc,
  restore_last_job_info_desc,
}

-- A float64, exact and counted in billionths: a second is `second`. The rounding of a value that has
-- no exact float64 is not modelled.
abbrev pub Value : Type 0
Value = ℤ

abbrev pub second : ℕ
second = 1000000000

-- The seconds from Go's zero time to the Unix epoch.
abbrev pub unix_epoch : ℕ
unix_epoch = 62135596800

-- The last value of a time.Duration, in nanoseconds
abbrev pub max_duration : ℕ
max_duration = 9223372036854775807

-- The arguments with which MustNewConstMetric is called.
pub record Metric : Type 0 where
  pub desc : Desc
  pub value : Value
  pub label_values : List String

abbrev pub gauge : Desc → Value → List String → Metric
gauge desc v labels = record { desc = desc; value = v; label_values = labels }

unfoldable pub bool_value : Bool → Value
bool_value true = pos second
bool_value false = pos 0

-- t.Unix(), as a Value: the nanoseconds are cut off.
abbrev pub unix : Time → Value
unix t =
    let seconds = t / second in
    if leb unix_epoch seconds
    then pos ((seconds - unix_epoch) * second)
    else negsuc ((unix_epoch - seconds) * second - 1)

unfoldable pub unix_time : Option Time → Value
unix_time t = elim (set_time t) [ none ↦ pos 0 | some t' ↦ unix t' ]

-- t.Sub(u), which stops at the ends of the range of a time.Duration
unfoldable pub time_sub : Time → Time → ℤ
time_sub t u =
    if leb u t
    then (if leb (t - u) max_duration then pos (t - u) else pos max_duration)
    else if leb (u - t) max_duration
    then negsuc (u - t - 1)
    else negsuc max_duration

-- d in emitLastJob
unfoldable pub duration : Option Time → Option Time → Value
unfolding time_sub
duration (some start) (some completion) = elim (time_sub completion start) [
  | pos n ↦ pos n
  | negsuc n ↦ pos 0
]
duration _ _ = pos 0

unfoldable pub or_text : String → String → String
or_text s fallback = if s == "" then fallback else s

unfoldable pub emit_last_job : Option LastJobStatus → Desc → Desc → Desc → List String → List Metric
unfolding bool_value duration or_text
emit_last_job none failed_desc duration_desc info_desc labels =
    gauge failed_desc (pos 0) labels ∷ gauge duration_desc (pos 0) labels ∷ []
emit_last_job (some st) failed_desc duration_desc info_desc labels =
    let outcome = or_text st.outcome "Unknown" in
    let reason = or_text st.reason "None" in
    let job_name = or_text st.name "unknown" in
    gauge failed_desc (bool_value (st.outcome == outcome_failed)) labels
    ∷ gauge duration_desc (duration st.start_time st.completion_time) labels
    ∷ gauge info_desc (pos second) (labels ++ outcome ∷ reason ∷ job_name ∷ [])
    ∷ []

-- if t := unixTime(…); t > 0 { ch <- gauge(desc, t, labels) }
unfoldable pub emit_time : Desc → Option Time → List String → List Metric
unfolding unix_time
emit_time desc t labels =
    if is_positive (unix_time t) then gauge desc (unix_time t) labels ∷ [] else []

-- if st == nil { st = … }
unfoldable pub known_or : Option LastJobStatus → Option LastJobStatus → Option LastJobStatus
known_or none fallback = fallback
known_or (some st) fallback = some st

unfoldable pub backup_last_job : Backup → List Job → Option LastJobStatus
unfolding known_or
backup_last_job backup jobs = known_or backup.status.last_job (
    summarize
      (last_finished backup.meta.namespace label_backup_name backup.meta.name kind_backup jobs))

unfoldable pub restore_last_job : Restore → List Job → Option LastJobStatus
unfolding known_or
restore_last_job restore jobs = known_or restore.status.last_job (
    summarize
      (last_finished restore.meta.namespace label_restore_name restore.meta.name kind_restore jobs))

abbrev pub labels_of : ObjectMeta → String → List String
labels_of meta engine = meta.namespace ∷ meta.name ∷ effective_engine engine ∷ []

-- What is sent on the channel, in order.
unfoldable pub collect_backup : List Job → Backup → List Metric
unfolding bool_value emit_time emit_last_job backup_last_job
collect_backup jobs backup =
    let labels = labels_of backup.meta backup.spec.engine in
    gauge backup_ready_desc (bool_value (backup.status.phase == phase_ready)) labels
      ∷ gauge backup_suspended_desc (bool_value (deref backup.spec.suspend false)) labels
      ∷ emit_time backup_last_schedule_desc backup.status.last_schedule_time labels
    ++ emit_time backup_last_success_desc backup.status.last_successful_time labels
    ++ emit_last_job (backup_last_job backup jobs) backup_last_job_failed_desc
        backup_last_job_duration_desc backup_last_job_info_desc labels

unfoldable pub collect_restore : List Job → Restore → List Metric
unfolding bool_value emit_time emit_last_job restore_last_job
collect_restore jobs restore =
    let labels = labels_of restore.meta restore.spec.engine in
    gauge restore_ready_desc (bool_value (restore.status.phase == phase_ready)) labels
      ∷ gauge restore_suspended_desc (bool_value (deref restore.spec.suspend false)) labels
      ∷ emit_time restore_last_schedule_desc restore.status.last_schedule_time labels
    ++ emit_time restore_last_success_desc restore.status.last_successful_time labels
    ++ emit_last_job (restore_last_job restore jobs) restore_last_job_failed_desc
        restore_last_job_duration_desc restore_last_job_info_desc labels

-- client.List as Collect calls it, in every namespace: the items of the list after the call, and the
-- error. With an error the list may hold items.
pub record Lister : Type 0 where
  pub list_jobs : StringMap → List Job × Option Error
  pub list_backups : List Backup × Option Error
  pub list_restores : List Restore × Option Error

unfoldable pub collect_all {ℓ} : {A : Type ℓ} → (A → List Metric) → List A → List Metric
collect_all collect [] = []
collect_all collect (x ∷ xs) = collect x ++ collect_all collect xs

-- The range over the items, if List gave no error.
unfoldable pub collect_listed {ℓ} :
    {A : Type ℓ} → (A → List Metric) → List A × Option Error → List Metric
unfolding collect_all
collect_listed collect (items, none) = collect_all collect items
collect_listed collect (items, some e) = []

unfoldable pub collect : Lister → List Metric
unfolding collect_listed collect_backup collect_restore
collect lister =
    let jobs = (lister.list_jobs ((label_app_managed_by, managed_by) ∷ [])).0 in
    collect_listed (collect_backup jobs) lister.list_backups
    ++ collect_listed (collect_restore jobs) lister.list_restores
