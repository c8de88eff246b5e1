-- ===== src/Kube/Selectors.antt =====
-- How Kubernetes matches labels, as its documentation describes it: in client.MatchingLabels, in the
-- selector of a Deployment and in the term of a pod affinity.
use karkive.Prelude.{StringMap, Bool, true, false, ◌&&◌, none, some, [], ◌∷◌, ◌==◌, lookup}

-- Every label of the selector is there, with its value.
abbrev pub has_labels : StringMap → StringMap → Bool
has_labels [] labels = true
has_labels (want ∷ wanted) labels =
    elim (lookup want.0 labels) [ none ↦ false | some v ↦ v == want.1 ] && has_labels wanted labels
