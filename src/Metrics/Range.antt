-- ===== src/Metrics/Range.antt =====
-- The values that Collect of internal/metrics/collector.go emits.
use karkive.Prelude.{
  ℕ, pos, ℤ, negsuc, String, ◌≡◌, refl, inl, inr, Bool, true, false, Option, none, some, List, [],
  ◌∷◌, ◌++◌, ◌==◌, arith, is_positive, Bool-cases, All, All-++, deref,
}
use karkive.Kube.Meta.{Time}
use karkive.Kube.Objects.{Job}
use karkive.Api.Common.{LastJobStatus}
use karkive.Api.Backup.{Backup, phase_ready}
use karkive.Api.Restore.{Restore}
use karkive.Resources.Labels.{label_app_managed_by, managed_by}
use karkive.Metrics.Descriptions.{
  Desc, backup_last_schedule_desc, backup_last_success_desc, backup_last_job_failed_desc,
  backup_last_job_duration_desc, backup_last_job_info_desc, restore_last_schedule_desc,
  restore_last_success_desc, restore_last_job_failed_desc, restore_last_job_duration_desc,
  restore_last_job_info_desc,
}
use karkive.Metrics.Described.{collect_listed-All}
use karkive.Metrics.{
  labels_of, Value, Metric, Lister, bool_value, unix_time, time_sub, duration, emit_time,
  emit_last_job, backup_last_job, restore_last_job, collect_backup, collect_restore, collect,
}

abbrev pub IsNonNegative : Value → Type 0
IsNonNegative v = (n : ℕ) × (v ≡ pos n)

abbrev pub InRange : Metric → Type 0
InRange m = IsNonNegative m.value

bool_value-IsNonNegative : (b : Bool) → IsNonNegative (bool_value b)
unfolding bool_value
bool_value-IsNonNegative true = (_, refl)
bool_value-IsNonNegative false = (_, refl)

not_before : (v : ℤ) → IsNonNegative (elim v [ pos n ↦ pos n | negsuc n ↦ pos 0 ])
not_before (pos n) = (n, refl)
not_before (negsuc n) = (0, refl)

duration-IsNonNegative : (start end : Option Time) → IsNonNegative (duration start end)
unfolding duration
duration-IsNonNegative (some s) (some e) = not_before (time_sub e s)
duration-IsNonNegative (some s) none = (0, refl)
duration-IsNonNegative none e = (0, refl)

positive-IsNonNegative : (v : Value) → is_positive v ≡ true → IsNonNegative v
positive-IsNonNegative (pos n) h = (n, refl)
positive-IsNonNegative (negsuc n) h = ground (arith, h)

emit_time-InRange :
    (desc : Desc) (t : Option Time) (labels : List String) → All InRange (emit_time desc t labels)
unfolding emit_time
emit_time-InRange desc t labels = elim (Bool-cases (is_positive (unix_time t))) [
  | inl b ↦ let v = positive-IsNonNegative (unix_time t) b in rw b (v, tt)
  | inr b ↦ rw b tt
]

emit_last_job-InRange :
    (st : Option LastJobStatus) (failed lasted info : Desc) (labels : List String)
    → All InRange (emit_last_job st failed lasted info labels)
unfolding emit_last_job
emit_last_job-InRange none failed lasted info labels = ((0, refl), ((0, refl), tt))
emit_last_job-InRange (some st) failed lasted info labels = (
  bool_value-IsNonNegative _,
  (duration-IsNonNegative st.start_time st.completion_time, ((_, refl), tt)),
)

emitted-InRange :
    (schedule success failed lasted info : Desc) (t u : Option Time) (st : Option LastJobStatus)
    (labels : List String)
    → All InRange (
        emit_time schedule t labels
        ++ emit_time success u labels
        ++ emit_last_job st failed lasted info labels)
emitted-InRange schedule success failed lasted info t u st labels =
    let before = emit_time-InRange schedule t labels in
    let after = emit_time-InRange success u labels in
    All-++ InRange (emit_time schedule t labels ++ emit_time success u labels) _
      (All-++ InRange (emit_time schedule t labels) _ before after)
      (emit_last_job-InRange st failed lasted info labels)

collect_backup-InRange :
    (jobs : List Job) (backup : Backup) → All InRange (collect_backup jobs backup)
unfolding collect_backup
collect_backup-InRange jobs backup = (
  bool_value-IsNonNegative (backup.status.phase == phase_ready),
  (
    bool_value-IsNonNegative (deref backup.spec.suspend false),
    emitted-InRange backup_last_schedule_desc backup_last_success_desc backup_last_job_failed_desc
        backup_last_job_duration_desc backup_last_job_info_desc backup.status.last_schedule_time
        backup.status.last_successful_time (backup_last_job backup jobs)
        (labels_of backup.meta backup.spec.engine),
  ),
)

collect_restore-InRange :
    (jobs : List Job) (restore : Restore) → All InRange (collect_restore jobs restore)
unfolding collect_restore
collect_restore-InRange jobs restore = (
  bool_value-IsNonNegative (restore.status.phase == phase_ready),
  (
    bool_value-IsNonNegative (deref restore.spec.suspend false),
    emitted-InRange restore_last_schedule_desc restore_last_success_desc
        restore_last_job_failed_desc restore_last_job_duration_desc restore_last_job_info_desc
        restore.status.last_schedule_time restore.status.last_successful_time
        (restore_last_job restore jobs) (labels_of restore.meta restore.spec.engine),
  ),
)

-- No gauge that Collect emits is negative, not even where a Job ended before it started or a time lies
-- before 1970.
pub collect-InRange : (lister : Lister) → All InRange (collect lister)
unfolding collect
collect-InRange lister =
    let jobs = (lister.list_jobs ((label_app_managed_by, managed_by) ∷ [])).0 in
    All-++ InRange _ _
      (collect_listed-All InRange (collect_backup jobs) (collect_backup-InRange jobs)
        lister.list_backups)
      (collect_listed-All InRange (collect_restore jobs) (collect_restore-InRange jobs)
        lister.list_restores)
