-- ===== src/Resources/Requirements/Merge.antt =====
-- What mergeResources of internal/resources/defaults.go makes of the requests and limits of a spec.
use karkive.Prelude.{
  String, ◌≡◌, refl, true, not, [], ◌∷◌, some, lookup, insert_all, or_else, lookup-insert_all,
  are_distinct, is_nil, if◌then◌else◌,
}
use karkive.Kube.Meta.{Quantity}
use karkive.Kube.Pod.{ResourceList, ResourceRequirements}
use karkive.Resources.Requirements.{merge_resources}

-- Each name stands once in the list, as in a map of Go.
abbrev pub IsMap : ResourceList → Type 0
IsMap list = are_distinct (λ (entry : String × Quantity). entry.0) list ≡ true

merged :
    (name : String) (override base : ResourceList)
    → IsMap override
    → lookup name (if not (is_nil override) then insert_all override base else base)
      ≡ or_else (lookup name override) (lookup name base)
unfolding insert_all
merged name [] base distinct = refl
merged name (entry ∷ override) base distinct =
    lookup-insert_all name (entry ∷ override) base distinct

-- For requests and limits that have each name once, a quantity that the spec sets is kept, and a
-- name that it leaves out has the quantity of the default, the requests and the limits each by
-- themselves.
pub merge_resources-lookup :
    (base override : ResourceRequirements) (name : String)
    → IsMap override.requests
    → IsMap override.limits
    → (let merged = merge_resources base (some override) in
        (lookup name merged.requests
          ≡ or_else (lookup name override.requests) (lookup name base.requests))
        × (lookup name merged.limits
            ≡ or_else (lookup name override.limits) (lookup name base.limits)))
unfolding merge_resources
merge_resources-lookup base override name requests limits = (
  merged name override.requests base.requests requests,
  merged name override.limits base.limits limits,
)
