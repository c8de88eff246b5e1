-- ===== src/Kube/Meta.antt =====
-- metav1 and resource: object metadata, conditions, label selectors, times and quantities.
use karkive.Prelude.{ℕ, ℤ, String, StringMap, Bool, Option, List, eqb}

-- metav1.Time: nanoseconds since Go's zero time, which is 0 here.
abbrev pub Time : Type 0
Time = ℕ

-- t.IsZero(), and a nil *metav1.Time
abbrev pub time_is_zero : Time → Bool
time_is_zero t = eqb t 0

-- resource.Quantity in the form in which it is serialised; resource.MustParse reads that form.
pub record Quantity : Type 0 where
  pub text : String

abbrev pub must_parse : String → Quantity
must_parse s = record { text = s }

pub record OwnerReference : Type 0 where
  pub kind : String
  pub name : String
  pub uid : String
  pub controller : Bool

pub record ObjectMeta : Type 0 where
  pub name : String
  pub namespace : String
  pub uid : String
  pub generation : ℤ
  pub labels : StringMap
  pub annotations : StringMap
  pub owner_references : List OwnerReference
  pub creation_timestamp : Time
  pub deletion_timestamp : Option Time

pub record LabelSelectorRequirement : Type 0 where
  pub key : String
  pub operator : String
  pub values : List String

pub record LabelSelector : Type 0 where
  pub match_labels : StringMap
  pub match_expressions : List LabelSelectorRequirement

-- metav1.Condition
pub record Condition : Type 0 where
  pub type : String
  pub status : String
  pub reason : String
  pub message : String
  pub observed_generation : ℤ
  pub last_transition_time : Time

abbrev pub condition_true : String
condition_true = "True"

abbrev pub condition_false : String
condition_false = "False"

abbrev pub condition_unknown : String
condition_unknown = "Unknown"

-- The operations of resource.Quantity that the operator calls.
pub record QuantityOps : Type 0 where
  pub is_zero : Quantity → Bool
  -- want.Cmp(cur) <= 0
  pub at_most : Quantity → Quantity → Bool
