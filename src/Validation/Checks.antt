-- ===== src/Validation/Checks.antt =====
-- The single checks of api/v1alpha1/validation.go, and the parts of a valid spec.

use Prim.Native.String.{String, [], ◌∷◌}
use mathlib.Core.List.{[], ◌∷◌}
use karkive.Prelude.{
  ◌≡◌, refl, ◌≢◌, ◌↔◌, inl, inr, true, false, Option, none, some, List, All, arith, eq_iff, ◌==◌,
  contains, has_newline, trim_space, split_slash, Bool-cases,
}
use karkive.Api.Common.{
  PersistenceSpec, JobPolicy, RuntimeSpec, effective_mode, DatabaseSpec, mode_cron_job,
  mode_cron_job_with_volume_holder,
}
use karkive.Kube.Meta.{LabelSelector}
use karkive.Api.Backup.{PvcSourceSpec}
use karkive.Validation.{
  External, Check, ◌>>◌, reject_if, each, persistence_enabled, validate_job_policy,
  validate_exclude, validate_path, validate_database, validate_schedule, validate_selector,
  validate_pvc_source, validate_runtime,
}
use karkive.Validation.Predicates.{
  OneOf, IsSingleLine, IfSet, HasClaim, IsRelativePath, IsPattern, IsJobPolicy, IsRuntime,
  IsDatabase, IsSchedule, IsSelector, IsPvcSource,
}

pub >>-eq-none_iff : (c k : Check) → (c >> k ≡ none) ↔ ((c ≡ none) × (k ≡ none))
>>-eq-none_iff none k = (λ h. (refl, h), λ h. h.1)
>>-eq-none_iff (some e) k = ground arith

-- Two checks in a row, each with what it means.
pub >>_iff {ℓ κ} :
    {P : Type ℓ} {Q : Type κ} (c k : Check)
    → (c ≡ none) ↔ P
    → (k ≡ none) ↔ Q
    → (c >> k ≡ none) ↔ (P × Q)
>>_iff c k p q = (
  λ h. let both = (>>-eq-none_iff c k).0 h in (p.0 both.0, q.0 both.1),
  λ h. (>>-eq-none_iff c k).1 (p.1 h.0, q.1 h.1),
)

pub reject_if_empty_iff : (s m : String) → (reject_if (s == "") m ≡ none) ↔ (s ≢ "")
reject_if_empty_iff s m = ground (arith, eq_iff s "")

pub reject_if_ne_iff : (s t m : String) → (reject_if (s == t) m ≡ none) ↔ (s ≢ t)
reject_if_ne_iff s t m = ground (arith, eq_iff s t)

pub contains_iff : (xs : List String) (x : String) → (contains xs x ≡ true) ↔ OneOf x xs
unfolding contains
contains_iff [] x = ground arith
contains_iff (y ∷ ys) x = ground (arith, eq_iff y x, contains_iff ys x)

not-contains_iff : (xs : List String) (x : String) → (contains xs x ≡ false) ↔ All (λ y. y ≢ x) xs
unfolding contains
not-contains_iff [] x = ground arith
not-contains_iff (y ∷ ys) x = ground (arith, eq_iff y x, not-contains_iff ys x)

has_newline_iff : (s : String) → (has_newline s ≡ false) ↔ IsSingleLine s
unfolding has_newline
has_newline_iff [] = ground arith
has_newline_iff (c ∷ s) = ground (arith, has_newline_iff s)

pub persistence_enabled_iff :
    (p : Option PersistenceSpec) → (persistence_enabled p ≡ true) ↔ HasClaim p
unfolding persistence_enabled
persistence_enabled_iff none = ground arith
persistence_enabled_iff (some p) = ground arith

pub validate_database_iff : (db : DatabaseSpec) → (validate_database db ≡ none) ↔ IsDatabase db
unfolding validate_database
validate_database_iff db =
    >>_iff _ _ (reject_if_empty_iff db.host _) (reject_if_empty_iff db.name _)

validate_exclude_iff : (e : String) → (validate_exclude e ≡ none) ↔ IsPattern e
unfolding validate_exclude
validate_exclude_iff e = ground (arith, eq_iff (trim_space e) "", has_newline_iff e)

each_iff {ℓ} :
    {A : Type ℓ} {P : A → Type 0} (check : A → Check)
    → ((a : A) → (check a ≡ none) ↔ P a)
    → (xs : List A) → (each check xs ≡ none) ↔ All P xs
unfolding each
each_iff check iff [] = (λ h. tt, λ h. refl)
each_iff check iff (x ∷ xs) = >>_iff _ _ (iff x) (each_iff check iff xs)

validate_path_iff : (p : String) → (validate_path p ≡ none) ↔ IsRelativePath p
unfolding validate_path split_slash
validate_path_iff p = elim (Bool-cases (p == "")) [
  | inl e ↦ rw ((eq_iff p "").0 e) (ground (arith, eq_iff ".." ""))
  | inr e ↦ ground (arith, e, not-contains_iff (split_slash p) "..", has_newline_iff p)
]

pub validate_job_policy_iff :
    (job : Option JobPolicy) → (validate_job_policy job ≡ none) ↔ IfSet IsJobPolicy job
unfolding validate_job_policy
validate_job_policy_iff none = ground arith
validate_job_policy_iff (some job) = ground (
  arith,
  contains_iff ("" ∷ "Allow" ∷ "Forbid" ∷ "Replace" ∷ []) job.concurrency_policy,
  contains_iff ("" ∷ "Always" ∷ "OnFailure" ∷ "Never" ∷ []) job.restart_policy,
)

module _ (ext : External) where
  pub validate_schedule_iff : (s : String) → (validate_schedule ext s ≡ none) ↔ IsSchedule ext s
  unfolding validate_schedule
  validate_schedule_iff s = ground (arith, eq_iff (trim_space s) "")

  validate_selector_iff :
      (sel : Option LabelSelector) → (validate_selector ext sel ≡ none) ↔ IfSet (IsSelector ext) sel
  unfolding validate_selector
  validate_selector_iff none = ground arith
  validate_selector_iff (some sel) = ground arith

  pub validate_runtime_iff :
      (r : Option RuntimeSpec) (p : Option PersistenceSpec)
      → (validate_runtime ext r p ≡ none) ↔ IsRuntime r p
  unfolding validate_runtime
  validate_runtime_iff r p =
      let mode = effective_mode r in
      ground (
        arith,
        eq_iff mode mode_cron_job,
        eq_iff mode mode_cron_job_with_volume_holder,
        persistence_enabled_iff p,
      )

  pub validate_pvc_source_iff :
      (src : PvcSourceSpec) → (validate_pvc_source ext (some src) ≡ none) ↔ IsPvcSource ext src
  unfolding validate_pvc_source
  validate_pvc_source_iff src =
      let iff =
        >>_iff _ _
          (reject_if_empty_iff src.claim_name "spec.pvc.claimName is required for engine pvc")
          (>>_iff _ _ (validate_path_iff src.path) (
            >>_iff _ _ (each_iff validate_exclude validate_exclude_iff src.excludes)
              (validate_selector_iff src.consumer_selector))) in
      (
        λ h.
            let (claim, (path, (excludes, selector))) = iff.0 h in
            record { claim = claim; path = path; excludes = excludes; selector = selector },
        λ v. iff.1 (v.claim, (v.path, (v.excludes, v.selector))),
      )
