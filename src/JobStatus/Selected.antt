-- ===== src/JobStatus/Selected.antt =====
-- LastFinished of internal/jobstatus/jobstatus.go on the Jobs that a List with a label selector
-- returns.
use karkive.Prelude.{
  String, StringMap, ◌≡◌, refl, ap, ◌≢◌, inl, inr, Bool, true, false, ◌&&◌, Option, none, List, [],
  ◌∷◌, ◌==◌, arith, eq_iff, eq_refl, get_or_empty, Bool-cases, select,
}
use mathlib.Core.Option
use karkive.Kube.Meta.{Time}
use karkive.Kube.Objects.{Job}
use karkive.Kube.Selectors.{has_labels}
use karkive.Resources.Labels.{label_kind, label_app_managed_by, managed_by}
use karkive.JobStatus.{belongs, consider, last_finished_from, last_finished}

-- The selectors of Collect and of lastJobStatus.
abbrev pub managed_only : StringMap
managed_only = (label_app_managed_by, managed_by) ∷ []

abbrev pub own_only : String → String → String → StringMap
own_only name_label name kind =
    (label_app_managed_by, managed_by) ∷ (label_kind, kind) ∷ (name_label, name) ∷ []

module _ (namespace name_label name kind : String) where
  consider_foreign :
      (best : Option (Job × Time)) (job : Job)
      → belongs namespace name_label name kind job ≡ false
      → consider namespace name_label name kind best job ≡ best
  unfolding consider
  consider_foreign best job h = rw h refl

  last_finished_from-select :
      (p q : Job → Bool)
      → ((job : Job) → belongs namespace name_label name kind job ≡ true → p job ≡ q job)
      → (best : Option (Job × Time)) (jobs : List Job)
      → last_finished_from namespace name_label name kind best (select p jobs)
        ≡ last_finished_from namespace name_label name kind best (select q jobs)
  unfolding last_finished_from
  last_finished_from-select p q agree best [] = refl
  last_finished_from-select p q agree best (job ∷ jobs) =
      let kept =
        last_finished_from-select p q agree (consider namespace name_label name kind best job)
          jobs in
      let skipped = last_finished_from-select p q agree best jobs in
      elim (Bool-cases (belongs namespace name_label name kind job)) [
        | inl own ↦ let same = agree job own in ground (arith, same, kept, skipped)
        | inr foreign ↦
            let same = consider_foreign best job foreign in ground (arith, same, kept, skipped)
      ]

  -- LastFinished returns the same Job for two selections from the same Jobs, if they agree on the
  -- Jobs of the CR.
  pub last_finished-select :
      (p q : Job → Bool)
      → ((job : Job) → belongs namespace name_label name kind job ≡ true → p job ≡ q job)
      → (jobs : List Job)
      → last_finished namespace name_label name kind (select p jobs)
        ≡ last_finished namespace name_label name kind (select q jobs)
  unfolding last_finished
  last_finished-select p q agree jobs =
      ap (Option.map (λ (b : Job × Time). b.0)) (last_finished_from-select p q agree none jobs)

  pub own_selected :
      (job : Job)
      → kind ≢ ""
      → name ≢ ""
      → belongs namespace name_label name kind job ≡ true
      → has_labels managed_only job.meta.labels
        ≡ (job.meta.namespace == namespace)
          && has_labels (own_only name_label name kind) job.meta.labels
  unfolding belongs
  own_selected job kind_given named own = ground (
    arith,
    eq_iff job.meta.namespace namespace,
    eq_iff (get_or_empty name_label job.meta.labels) name,
    eq_iff (get_or_empty label_kind job.meta.labels) kind,
    eq_iff kind "",
    eq_refl name,
    eq_refl kind,
    own,
  )
