-- ===== src/Metrics/Series.antt =====
-- The series that Collect of internal/metrics/collector.go emits. The registry refuses a scrape in
-- which two metrics have the same name and the same labels.
use karkive.Prelude.{
  String, ◌≡◌, refl, ◌≢◌, inl, inr, arith, true, false, sym, ◌∙◌, All-mem, Option, none, some, List,
  [], ◌∷◌, starts_with, All, Option-cases, All-++, All_map_lem, Pairwise, Pairwise-++, are_distinct,
  are_distinct-Pairwise,
}
use mathlib.Core.Bool.{false≢true}
use karkive.Resources.Labels.{label_app_managed_by, managed_by}
use karkive.Metrics.Described.{
  Describes, backup_descs, restore_descs, collect_backup-Describes, collect_restore-Describes,
  collect_listed-All,
}
use karkive.Errors.{Error}
use karkive.Kube.Meta.{ObjectMeta}
use karkive.Kube.Objects.{Job}
use karkive.Api.Backup.{Backup}
use karkive.Api.Restore.{Restore}
use karkive.Metrics.Descriptions.{Desc}
use karkive.Metrics.{
  Metric, Lister, emit_time, emit_last_job, backup_last_job, restore_last_job, collect_backup,
  collect_restore, collect_all, collect_listed, collect,
}

abbrev pub name_of : Metric → String
name_of m = m.desc.fq_name

-- The two metrics are one series.
abbrev pub SameSeries : Metric → Metric → Type 0
SameSeries m n = (name_of m ≡ name_of n) × (m.label_values ≡ n.label_values)

abbrev pub Distinct : Metric → Metric → Type 0
Distinct m n = ¬ SameSeries m n

abbrev pub DistinctKeys : ObjectMeta → ObjectMeta → Type 0
DistinctKeys a b = ¬ ((a.namespace ≡ b.namespace) × (a.name ≡ b.name))

owners-Distinct :
    (ds es : List Desc) (a b : ObjectMeta) (m n : Metric)
    → DistinctKeys a b
    → Describes ds a m
    → Describes es b n
    → Distinct m n
owners-Distinct ds es a b m n differ (_, _, (r, of_a)) (_, _, (r', of_b)) (_, same) =
    let labels : a.namespace ∷ a.name ∷ r ≡ b.namespace ∷ b.name ∷ r' = cc (of_a, of_b, same) in
    differ (cc labels, cc labels)

module _ {A : Type 0} (meta : A → ObjectMeta) (metrics : A → List Metric) (descs : List Desc)
    (metrics-Describes : (x : A) → All (Describes descs (meta x)) (metrics x))
    (metrics-Distinct : (x : A) → Pairwise Distinct (metrics x)) where
  apart :
      (a : ObjectMeta) (m : Metric)
      → Describes descs a m
      → (xs : List A) → All (λ x. DistinctKeys a (meta x)) xs
      → All (Distinct m) (collect_all metrics xs)
  unfolding collect_all
  apart a m of_a [] differ = tt
  apart a m of_a (x ∷ xs) (d, differ) =
      All-++ (Distinct m) (metrics x) (collect_all metrics xs)
        (All_map_lem (Describes descs (meta x)) (Distinct m)
          (λ n of_x. owners-Distinct descs descs a (meta x) m n d of_a of_x) (metrics x)
          (metrics-Describes x))
        (apart a m of_a xs differ)

  collect_all-Distinct :
      (xs : List A)
      → Pairwise (λ x y. DistinctKeys (meta x) (meta y)) xs
      → Pairwise Distinct (collect_all metrics xs)
  unfolding collect_all
  collect_all-Distinct [] differ = tt
  collect_all-Distinct (x ∷ xs) (d, differ) =
      Pairwise-++ Distinct (metrics x) (collect_all metrics xs) (metrics-Distinct x)
        (collect_all-Distinct xs differ)
        (All_map_lem (Describes descs (meta x)) (λ m. All (Distinct m) (collect_all metrics xs))
          (λ m of_x. apart (meta x) m of_x xs d) (metrics x) (metrics-Describes x))

  collect_listed-Distinct :
      (xs : List A × Option Error)
      → Pairwise (λ x y. DistinctKeys (meta x) (meta y)) xs.0
      → Pairwise Distinct (collect_listed metrics xs)
  unfolding collect_listed
  collect_listed-Distinct (xs, none) differ = collect_all-Distinct xs differ
  collect_listed-Distinct (xs, some e) differ = tt

Pairwise_map_lem {ℓ} :
    {A : Type ℓ} (R S : A → A → Type 0)
    → ((x y : A) → R x y → S x y)
    → (xs : List A) → Pairwise R xs
    → Pairwise S xs
Pairwise_map_lem R S f [] h = tt
Pairwise_map_lem R S f (x ∷ xs) (p, h) =
    (All_map_lem (R x) (S x) (f x) xs p, Pairwise_map_lem R S f xs h)

names-Distinct : (ms : List Metric) → are_distinct name_of ms ≡ true → Pairwise Distinct ms
names-Distinct ms h =
    Pairwise_map_lem (λ m n. name_of m ≢ name_of n) Distinct (λ m n differ same. differ same.0) ms
      (are_distinct-Pairwise name_of ms h)

backup_names :
    (jobs : List Job) (backup : Backup) → are_distinct name_of (collect_backup jobs backup) ≡ true
unfolding collect_backup emit_time emit_last_job
backup_names jobs backup = elim (Option-cases (backup_last_job backup jobs)) [
  | inl c ↦ rw c ground arith
  | inr (st, c) ↦ rw c ground arith
]

collect_backup-Distinct :
    (jobs : List Job) (backup : Backup) → Pairwise Distinct (collect_backup jobs backup)
collect_backup-Distinct jobs backup =
    names-Distinct (collect_backup jobs backup) (backup_names jobs backup)

restore_names :
    (jobs : List Job) (restore : Restore)
    → are_distinct name_of (collect_restore jobs restore) ≡ true
unfolding collect_restore emit_time emit_last_job
restore_names jobs restore = elim (Option-cases (restore_last_job restore jobs)) [
  | inl c ↦ rw c ground arith
  | inr (st, c) ↦ rw c ground arith
]

collect_restore-Distinct :
    (jobs : List Job) (restore : Restore) → Pairwise Distinct (collect_restore jobs restore)
collect_restore-Distinct jobs restore =
    names-Distinct (collect_restore jobs restore) (restore_names jobs restore)

-- The metrics of Backups and those of Restores have different names.
kinds-Distinct :
    (a b : ObjectMeta) (m n : Metric)
    → Describes backup_descs a m
    → Describes restore_descs b n
    → Distinct m n
kinds-Distinct a b m n (m_in, _, _) (n_in, _, _) (same, _) =
    let of_backup =
      All-mem (λ d. starts_with d.fq_name "karkive_backup_" ≡ true) backup_descs
        (refl, (refl, (refl, (refl, (refl, (refl, (refl, tt))))))) m_in in
    let of_restore =
      All-mem (λ d. starts_with d.fq_name "karkive_backup_" ≡ false) restore_descs
        (refl, (refl, (refl, (refl, (refl, (refl, (refl, tt))))))) n_in in
    false≢true (sym of_restore ∙ rw (← same) of_backup)

-- If no two of the listed Backups have the same namespace and name, and no two of the listed
-- Restores have, then no two metrics that Collect emits are the same series, so the registry takes
-- them all.
pub collect-Distinct :
    (lister : Lister)
    → Pairwise (λ (b c : Backup). DistinctKeys b.meta c.meta) lister.list_backups.0
    → Pairwise (λ (b c : Restore). DistinctKeys b.meta c.meta) lister.list_restores.0
    → Pairwise Distinct (collect lister)
unfolding collect
collect-Distinct lister backups restores =
    let jobs = (lister.list_jobs ((label_app_managed_by, managed_by) ∷ [])).0 in
    Pairwise-++ Distinct (collect_listed (collect_backup jobs) lister.list_backups)
      (collect_listed (collect_restore jobs) lister.list_restores)
      (collect_listed-Distinct (λ b. b.meta) (collect_backup jobs) backup_descs
        (collect_backup-Describes jobs) (collect_backup-Distinct jobs) lister.list_backups backups)
      (collect_listed-Distinct (λ b. b.meta) (collect_restore jobs) restore_descs
        (collect_restore-Describes jobs) (collect_restore-Distinct jobs) lister.list_restores
        restores)
      (collect_listed-All (λ m. All (Distinct m) _) (collect_backup jobs)
        (λ b.
          All_map_lem (Describes backup_descs b.meta)
            (λ m. All (Distinct m) (collect_listed (collect_restore jobs) lister.list_restores))
            (λ m m_of.
              collect_listed-All (Distinct m) (collect_restore jobs)
                (λ c.
                  All_map_lem (Describes restore_descs c.meta) (Distinct m)
                    (λ n n_of. kinds-Distinct b.meta c.meta m n m_of n_of) (collect_restore jobs c)
                    (collect_restore-Describes jobs c))
                lister.list_restores)
            (collect_backup jobs b) (collect_backup-Describes jobs b))
        lister.list_backups)
