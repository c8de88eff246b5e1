-- ===== src/Controller/Tests/Conditions.antt =====
-- Concrete conditions and equalities that have the properties which the reconcilers rely on.
use karkive.Prelude.{
  ◌≡◌, refl, ◌≢◌, inl, inr, Bool, true, false, ◌&&◌, Option, none, some, List, [], ◌∷◌, ◌==◌, eqb,
  int_eq, int_eq_refl, arith, eq_iff, Bool-cases, if◌then◌else◌,
}
use text.Mathlib.TextPositions.{eq_refl}
use karkive.Kube.Meta.{Condition, Time}
use karkive.Api.Common.{LastJobStatus}
use karkive.Controller.Client.{StatusOps}
use karkive.Controller.Status.Steady.{IsLawful}

abbrev time_equal : Option Time → Option Time → Bool
time_equal none none = true
time_equal (some s) (some t) = eqb s t
time_equal _ _ = false

time_equal_refl : (t : Option Time) → time_equal t t ≡ true
time_equal_refl none = refl
time_equal_refl (some t) = ground arith

abbrev job_equal : Option LastJobStatus → Option LastJobStatus → Bool
job_equal none none = true
job_equal (some a) (some b) =
    a.name == b.name
    && a.outcome == b.outcome
    && a.reason == b.reason
    && a.message == b.message
    && time_equal a.start_time b.start_time
    && time_equal a.completion_time b.completion_time
job_equal _ _ = false

job_equal_refl : (j : Option LastJobStatus) → job_equal j j ≡ true
job_equal_refl none = refl
job_equal_refl (some j) =
    rw
      (
        eq_refl j.name,
        eq_refl j.outcome,
        eq_refl j.reason,
        eq_refl j.message,
        time_equal_refl j.start_time,
        time_equal_refl j.completion_time,
      )
      refl

-- The fields that a change of a condition is about.
same : Condition → Condition → Bool
same x c =
    x.status == c.status
    && x.reason == c.reason
    && x.message == c.message
    && int_eq x.observed_generation c.observed_generation

same_refl : (c : Condition) → same c c ≡ true
unfolding same
same_refl c =
    rw (eq_refl c.status, eq_refl c.reason, eq_refl c.message, int_eq_refl c.observed_generation)
      refl

-- Replaces the first condition of the type, if it differs; else adds the condition at the end.
pub set_condition : List Condition → Condition → List Condition × Bool
set_condition [] c = (c ∷ [], true)
set_condition (x ∷ xs) c =
    let (rest, changed) = set_condition xs c in
    if x.type == c.type
    then (if same x c then (x ∷ xs, false) else (c ∷ xs, true))
    else (x ∷ rest, changed)

-- The first condition of that type says the same.
abbrev Has : Condition → List Condition → Type 0
Has c [] = ⊥
Has c (x ∷ xs) = if x.type == c.type then (same x c ≡ true) else Has c xs

Has-set_condition : (cs : List Condition) (c : Condition) → Has c (set_condition cs c).0
unfolding set_condition
Has-set_condition [] c = rw (eq_refl c.type) (same_refl c)
Has-set_condition (x ∷ xs) c = elim (Bool-cases (x.type == c.type)) [
  | inr other ↦ rw (other, other) (Has-set_condition xs c)
  | inl found ↦ elim (Bool-cases (same x c)) [
    | inl kept ↦ rw (found, kept, found) kept
    | inr changed ↦ rw (found, changed, eq_refl c.type) (same_refl c)
  ]
]

Has-keeps :
    (cs : List Condition) (c d : Condition)
    → c.type ≢ d.type
    → Has c cs
    → Has c (set_condition cs d).0
unfolding set_condition
Has-keeps [] c d differ has = absurd has
Has-keeps (x ∷ xs) c d differ has = elim (Bool-cases (x.type == c.type)) [
  | inl found ↦
      let other : (x.type == d.type) ≡ false =
        ground (arith, eq_iff x.type c.type, eq_iff x.type d.type, differ, found) in
      rw (other, found) (rw found at has)
  | inr missed ↦
      let rest = rw missed at has in
      elim (Bool-cases (x.type == d.type)) [
        | inr other ↦ rw (other, missed) (Has-keeps xs c d differ rest)
        | inl hit ↦ elim (Bool-cases (same x d)) [
          | inl kept ↦ rw (hit, kept, missed) rest
          | inr changed ↦
              let apart : (d.type == c.type) ≡ false =
                ground (arith, eq_iff d.type c.type, differ) in
              rw (hit, changed, apart) rest
        ]
      ]
]

set_condition_again :
    (cs : List Condition) (c : Condition) → Has c cs → set_condition cs c ≡ (cs, false)
unfolding set_condition
set_condition_again [] c has = absurd has
set_condition_again (x ∷ xs) c has = elim (Bool-cases (x.type == c.type)) [
  | inr other ↦ rw (other, set_condition_again xs c (rw other at has)) refl
  | inl found ↦ rw (found, (rw found at has)) refl
]

unfoldable pub status_ops : StatusOps
status_ops = record {
  set_status_condition = set_condition;
  last_job_equal = job_equal;
  meta_time_equal = time_equal;
}

pub status_ops-IsLawful : IsLawful status_ops
unfolding status_ops
status_ops-IsLawful = record {
  again_last =
      λ cs c d differ. set_condition_again _ d (Has-set_condition (set_condition cs c).0 d);
  again_first = λ cs c d differ.
      set_condition_again _ c
        (Has-keeps (set_condition cs c).0 c d differ (Has-set_condition cs c));
  last_job = job_equal_refl;
  time = time_equal_refl;
}
