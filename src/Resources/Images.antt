-- ===== src/Resources/Images.antt =====
-- internal/resources/defaults.go: the container images of the pipeline
use karkive.Prelude.{String, not, Option, none, some, List, [], ◌∷◌, ◌==◌, if◌then◌else◌}
use karkive.Kube.Pod.{pull_if_not_present}
use karkive.Api.Common.{ImageSpec, ImageSet}
use karkive.Resources.Config.{
  Config, default_busy_box_image, default_gnu_pg_image, default_postgres_image, default_mc_image,
  default_mariadb_image, default_redis_image, default_tar_image,
}

unfoldable pub first_non_empty : List String → String
first_non_empty [] = ""
first_non_empty (v ∷ values) = if not (v == "") then v else first_non_empty values

-- An image and its pull policy.
unfoldable pub resolve_image : Option ImageSpec → String → String → String × String
unfolding first_non_empty
resolve_image none configured fallback =
    (first_non_empty (configured ∷ fallback ∷ []), pull_if_not_present)
resolve_image (some override) configured fallback = (
  if not (override.image == "")
      then override.image
      else first_non_empty (configured ∷ fallback ∷ []),
  if not (override.pull_policy == "") then override.pull_policy else pull_if_not_present,
)

unfoldable pub pipeline_image :
    Option ImageSet → (ImageSet → Option ImageSpec) → String → String → String × String
unfolding resolve_image
pipeline_image none pick configured fallback = resolve_image none configured fallback
pipeline_image (some images) pick configured fallback =
    resolve_image (pick images) configured fallback

unfoldable pub postgres_image : Option ImageSet → Config → String × String
postgres_image images cfg =
    pipeline_image images (λ i. i.postgres) cfg.postgres_image default_postgres_image

unfoldable pub mc_image : Option ImageSet → Config → String × String
mc_image images cfg = pipeline_image images (λ i. i.mc) cfg.mc_image default_mc_image

unfoldable pub busy_box_image : Option ImageSet → Config → String × String
busy_box_image images cfg =
    pipeline_image images (λ i. i.busy_box) cfg.busy_box_image default_busy_box_image

unfoldable pub gnu_pg_image : Option ImageSet → Config → String × String
gnu_pg_image images cfg =
    pipeline_image images (λ i. i.gnu_pg) cfg.gnu_pg_image default_gnu_pg_image

unfoldable pub mariadb_image : Option ImageSet → Config → String × String
mariadb_image images cfg =
    pipeline_image images (λ i. i.mariadb) cfg.mariadb_image default_mariadb_image

unfoldable pub redis_image : Option ImageSet → Config → String × String
redis_image images cfg = pipeline_image images (λ i. i.redis) cfg.redis_image default_redis_image

unfoldable pub tar_image : Option ImageSet → Config → String × String
tar_image images cfg = pipeline_image images (λ i. i.tar) cfg.tar_image default_tar_image
