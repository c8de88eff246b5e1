-- ===== src/Controller/LastJob/Owner.antt =====
-- The Jobs whose events requeue a CR and the Jobs that its status counts: internal/controller/last_job.go
-- with internal/jobstatus/jobstatus.go.
use karkive.Prelude.{
  sym, ℤ, String, ◌≡◌, refl, ◌≢◌, ◌↔◌, inl, inr, Option, none, some, ◌==◌, arith, eq_iff,
  Bool-cases,
}
use mathlib.Core.Option
use karkive.Kube.Meta.{condition_true, condition_false, condition_unknown}
use karkive.Api.Common.{LastJobStatus, outcome_succeeded}
use karkive.Controller.Status.{job_succeeded_condition}

none-ne-some {ℓ} : {A : Type ℓ} {a : A} → ◌≢◌ {A = Option A} none (some a)
none-ne-some e = cc e

-- The condition on the last Job is True exactly if there is a last Job and its outcome is Succeeded,
-- and Unknown exactly if there is none.
job_succeeded_condition-status :
    (type : String) (generation : ℤ) (last_job : Option LastJobStatus)
    → (((job_succeeded_condition type generation last_job).status ≡ condition_true)
        ↔ ((j : LastJobStatus) × (last_job ≡ some j) × (j.outcome ≡ outcome_succeeded)))
      × (((job_succeeded_condition type generation last_job).status ≡ condition_unknown)
          ↔ (last_job ≡ none))
unfolding job_succeeded_condition
job_succeeded_condition-status type generation none = (
  (
    (λ h. ground (arith, eq_iff condition_unknown condition_true, h)),
    λ (j, e, _). absurd (none-ne-some e),
  ),
  ((λ _. refl), λ _. refl),
)
job_succeeded_condition-status type generation (some last_job) =
    elim (Bool-cases (last_job.outcome == outcome_succeeded)) [
      | inl succeeded ↦ rw succeeded (
        (
          (λ _. (
            last_job,
            refl,
            ground (arith, eq_iff last_job.outcome outcome_succeeded, succeeded),
          )),
          λ _. refl,
        ),
        (
          (λ h. ground (arith, eq_iff condition_true condition_unknown, h)),
          λ e. absurd (none-ne-some (sym e)),
        ),
      )
      | inr other ↦ rw other (
        (
          (λ h. ground (arith, eq_iff condition_false condition_true, h)),
          λ (j, e, done). ground (
            arith,
            eq_iff last_job.outcome outcome_succeeded,
            other,
            Option.some-injective last_job j e,
            done,
          ),
        ),
        (
          (λ h. ground (arith, eq_iff condition_false condition_unknown, h)),
          λ e. absurd (none-ne-some (sym e)),
        ),
      )
    ]
