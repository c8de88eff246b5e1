-- ===== src/Metrics/Described.antt =====
-- The labels of the metrics that Collect of internal/metrics/collector.go emits. MustNewConstMetric
-- panics where the number of the label values is not that of the description's labels, and the
-- registry refuses a metric that Describe does not announce.
use mathlib.Core.List.{Memᴰ}
use mathlib.Core.List.Memᴰ
use karkive.Prelude.{
  length, String, ◌≡◌, refl, Option, none, some, List, [], ◌∷◌, ◌++◌, All, is_positive, All-++,
  All-if, All_map_lem,
}
use karkive.Errors.{Error}
use karkive.Kube.Meta.{Time, ObjectMeta}
use karkive.Kube.Objects.{Job}
use karkive.Api.Common.{LastJobStatus}
use karkive.Api.Backup.{Backup}
use karkive.Api.Restore.{Restore}
use karkive.Resources.Labels.{label_app_managed_by, managed_by}
use karkive.Metrics.Descriptions.{
  Desc, describe, backup_ready_desc, backup_suspended_desc, backup_last_schedule_desc,
  backup_last_success_desc, backup_last_job_failed_desc, backup_last_job_duration_desc,
  backup_last_job_info_desc, restore_ready_desc, restore_suspended_desc, restore_last_schedule_desc,
  restore_last_success_desc, restore_last_job_failed_desc, restore_last_job_duration_desc,
  restore_last_job_info_desc,
}
use karkive.Metrics.{
  Value, Metric, Lister, gauge, labels_of, unix_time, emit_time, emit_last_job, backup_last_job,
  restore_last_job, collect_backup, collect_restore, collect_all, collect_listed, collect,
}

abbrev pub backup_descs : List Desc
backup_descs =
    backup_ready_desc ∷ backup_suspended_desc ∷ backup_last_schedule_desc ∷ backup_last_success_desc
    ∷ backup_last_job_failed_desc ∷ backup_last_job_duration_desc ∷ backup_last_job_info_desc ∷ []

abbrev pub restore_descs : List Desc
restore_descs =
    restore_ready_desc ∷ restore_suspended_desc ∷ restore_last_schedule_desc
    ∷ restore_last_success_desc ∷ restore_last_job_failed_desc ∷ restore_last_job_duration_desc
    ∷ restore_last_job_info_desc ∷ []

-- The metric has one of the descriptions, a value for each of its labels, and the namespace and the
-- name of the object for the first two.
abbrev pub Describes : List Desc → ObjectMeta → Metric → Type 0
Describes descs meta m =
    Memᴰ m.desc descs
    × (length m.label_values ≡ length m.desc.variable_labels)
    × ((rest : List String) × (m.label_values ≡ meta.namespace ∷ meta.name ∷ rest))

module _ {ℓ} {A : Type ℓ} {x : A} where
  here : {xs : List A} → Memᴰ x (x ∷ xs)
  here = Memᴰ.head refl

  there : {y : A} {xs : List A} → Memᴰ x xs → Memᴰ x (y ∷ xs)
  there m = Memᴰ.tail m

emit_time-All :
    (P : Metric → Type 0) (desc : Desc) (t : Option Time) (labels : List String)
    → P (gauge desc (unix_time t) labels)
    → All P (emit_time desc t labels)
unfolding emit_time
emit_time-All P desc t labels p = All-if P (is_positive (unix_time t)) _ p

emit_last_job-All :
    (P : Metric → Type 0) (st : Option LastJobStatus) (failed lasted info : Desc)
    (labels : List String)
    → ((v : Value) → P (gauge failed v labels))
    → ((v : Value) → P (gauge lasted v labels))
    → ((outcome reason job_name : String) (v : Value)
        → P (gauge info v (labels ++ outcome ∷ reason ∷ job_name ∷ [])))
    → All P (emit_last_job st failed lasted info labels)
unfolding emit_last_job
emit_last_job-All P none failed lasted info labels f d i = (f _, (d _, tt))
emit_last_job-All P (some st) failed lasted info labels f d i = (f _, (d _, (i _ _ _ _, tt)))

pub collect_backup-Describes :
    (jobs : List Job) (backup : Backup)
    → All (Describes backup_descs backup.meta) (collect_backup jobs backup)
unfolding collect_backup
collect_backup-Describes jobs backup =
    let P = Describes backup_descs backup.meta in
    let job =
      emit_last_job-All P (backup_last_job backup jobs) backup_last_job_failed_desc
        backup_last_job_duration_desc backup_last_job_info_desc
        (labels_of backup.meta backup.spec.engine)
        (λ v. (search (here, there) depth 9, refl, (_, refl)))
        (λ v. (search (here, there) depth 9, refl, (_, refl)))
        λ o r j v. (search (here, there) depth 9, refl, (_, refl)) in
    let success =
      emit_time-All P backup_last_success_desc backup.status.last_successful_time
        (labels_of backup.meta backup.spec.engine)
        (search (here, there) depth 9, refl, (_, refl)) in
    let schedule =
      emit_time-All P backup_last_schedule_desc backup.status.last_schedule_time
        (labels_of backup.meta backup.spec.engine)
        (search (here, there) depth 9, refl, (_, refl)) in
    (
      (here, refl, (_, refl)),
      (
        (search (here, there) depth 9, refl, (_, refl)),
        All-++ P _ _ (All-++ P _ _ schedule success) job,
      ),
    )

pub collect_restore-Describes :
    (jobs : List Job) (restore : Restore)
    → All (Describes restore_descs restore.meta) (collect_restore jobs restore)
unfolding collect_restore
collect_restore-Describes jobs restore =
    let P = Describes restore_descs restore.meta in
    let job =
      emit_last_job-All P (restore_last_job restore jobs) restore_last_job_failed_desc
        restore_last_job_duration_desc restore_last_job_info_desc
        (labels_of restore.meta restore.spec.engine)
        (λ v. (search (here, there) depth 9, refl, (_, refl)))
        (λ v. (search (here, there) depth 9, refl, (_, refl)))
        λ o r j v. (search (here, there) depth 9, refl, (_, refl)) in
    let success =
      emit_time-All P restore_last_success_desc restore.status.last_successful_time
        (labels_of restore.meta restore.spec.engine)
        (search (here, there) depth 9, refl, (_, refl)) in
    let schedule =
      emit_time-All P restore_last_schedule_desc restore.status.last_schedule_time
        (labels_of restore.meta restore.spec.engine)
        (search (here, there) depth 9, refl, (_, refl)) in
    (
      (here, refl, (_, refl)),
      (
        (search (here, there) depth 9, refl, (_, refl)),
        All-++ P _ _ (All-++ P _ _ schedule success) job,
      ),
    )

abbrev pub IsDescribed : Metric → Type 0
IsDescribed m = Memᴰ m.desc describe × (length m.label_values ≡ length m.desc.variable_labels)

module _ {A : Type 0} (P : Metric → Type 0) (metrics : A → List Metric) where
  collect_all-All : ((x : A) → All P (metrics x)) → (xs : List A) → All P (collect_all metrics xs)
  unfolding collect_all
  collect_all-All each [] = tt
  collect_all-All each (x ∷ xs) = All-++ P (metrics x) _ (each x) (collect_all-All each xs)

  pub collect_listed-All :
      ((x : A) → All P (metrics x))
      → (xs : List A × Option Error) → All P (collect_listed metrics xs)
  unfolding collect_listed
  collect_listed-All each (xs, some e) = tt
  collect_listed-All each (xs, none) = collect_all-All each xs

-- Whatever the API server lists, each metric that Collect emits is announced by Describe and has as
-- many label values as its description has labels.
pub collect-IsDescribed : (lister : Lister) → All IsDescribed (collect lister)
unfolding collect describe
collect-IsDescribed lister =
    let jobs = (lister.list_jobs ((label_app_managed_by, managed_by) ∷ [])).0 in
    All-++ IsDescribed _ _
      (collect_listed-All IsDescribed (collect_backup jobs)
        (λ b.
          All_map_lem (Describes backup_descs b.meta) IsDescribed
            (λ m d. (Memᴰ.append_left restore_descs d.0, d.1)) (collect_backup jobs b)
            (collect_backup-Describes jobs b))
        lister.list_backups)
      (collect_listed-All IsDescribed (collect_restore jobs)
        (λ b.
          All_map_lem (Describes restore_descs b.meta) IsDescribed
            (λ m d. (Memᴰ.append_right backup_descs d.0, d.1)) (collect_restore jobs b)
            (collect_restore-Describes jobs b))
        lister.list_restores)
