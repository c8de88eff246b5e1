-- ===== src/Resources/ConfigMap/Bucket.antt =====
-- When the two ConfigMaps are refused: internal/resources/configmap.go and restore_configmap.go.
use karkive.Prelude.{
  ◌≡◌, refl, inl, inr, sym, ◌∙◌, ◌≢◌, ◌↔◌, ◌⊎◌, false, arith, eq_iff, Bool-cases, ◌==◌, insert,
  insert_all, get_or_empty,
}
use karkive.Errors.{err-ne-ok, Result, ok}
use karkive.Kube.Objects.{ConfigMap}
use karkive.Api.Common.{enabled_or_default, engine_mariadb, engine_redis, engine_pvc}
use karkive.Api.Backup.{Backup}
use karkive.Api.Restore.{Restore}
use karkive.Resources.Config.{Config}
use karkive.Resources.Engine.{effective_engine}
use karkive.Resources.Labels.{backup_labels, restore_labels}
use mathlib.Core.Bool.{false≢true}
use karkive.Resources.Defaults.{s3_endpoint, s3_bucket, restore_s3_endpoint, restore_s3_bucket}
use karkive.Resources.ConfigMap.{
  check_bucket, backup_entries, backup_s3_entries, backup_engine_entries, mutate_backup_config_map,
  restore_entries, restore_engine_entries, mutate_restore_config_map,
}

abbrev pub IsOk {ℓ} : {A : Type ℓ} → Result A → Type ℓ
IsOk {A = A} r = (a : A) × (r ≡ ok a)

check_bucket_iff :
    (cm : ConfigMap)
    → IsOk (check_bucket cm)
      ↔ ((get_or_empty "S3_ENDPOINT" cm.entries ≢ "") × (get_or_empty "S3_BUCKET" cm.entries ≢ ""))
unfolding check_bucket
check_bucket_iff cm =
    let endpoint = get_or_empty "S3_ENDPOINT" cm.entries in
    let bucket = get_or_empty "S3_BUCKET" cm.entries in
    elim (Bool-cases (endpoint == "")) [
      | inl e ↦ rw e (
        (λ (a, h). absurd (err-ne-ok h)),
        λ (some_endpoint, _). absurd (some_endpoint ((eq_iff endpoint "").0 e)),
      )
      | inr e ↦ elim (Bool-cases (bucket == "")) [
        | inl b ↦
            rw (e, b)
              (
                (λ (a, h). absurd (err-ne-ok h)),
                λ (_, some_bucket). absurd (some_bucket ((eq_iff bucket "").0 b)),
              )
        | inr b ↦
            rw (e, b)
              (
                (λ _. (ground (arith, eq_iff endpoint "", e), ground (arith, eq_iff bucket "", b))),
                λ _. (cm, refl),
              )
      ]
    ]

-- What the two entries of a Backup with uploads are: the switch on the engine sets neither of them.
backup-bucket :
    (backup : Backup) (cfg : Config)
    → (let entries =
          insert_all
            (backup_engine_entries backup)
            (insert_all (backup_s3_entries backup cfg) (backup_entries backup)) in
        (get_or_empty "S3_ENDPOINT" entries ≡ s3_endpoint backup cfg)
        × (get_or_empty "S3_BUCKET" entries ≡ s3_bucket backup cfg))
unfolding insert insert_all backup_engine_entries backup_s3_entries backup_entries
backup-bucket backup cfg =
    let engine = effective_engine backup.spec.engine in
    elim (Bool-cases (engine == engine_mariadb)) [
      | inl mariadb ↦ rw mariadb (refl, refl)
      | inr e ↦ elim (Bool-cases (engine == engine_redis)) [
        | inl redis ↦ rw (e, redis) (refl, refl)
        | inr f ↦ elim (Bool-cases (engine == engine_pvc)) [
          | inl pvc ↦ rw (e, f, pvc) (refl, refl)
          | inr g ↦ rw (e, f, g) (refl, refl)
        ]
      ]
    ]

restore-bucket :
    (restore : Restore) (cfg : Config)
    → (let entries = insert_all (restore_engine_entries restore) (restore_entries restore cfg) in
        (get_or_empty "S3_ENDPOINT" entries ≡ restore_s3_endpoint restore cfg)
        × (get_or_empty "S3_BUCKET" entries ≡ restore_s3_bucket restore cfg))
unfolding insert insert_all restore_engine_entries restore_entries
restore-bucket restore cfg =
    let engine = effective_engine restore.spec.engine in
    elim (Bool-cases (engine == engine_mariadb)) [
      | inl mariadb ↦ rw mariadb (refl, refl)
      | inr e ↦ elim (Bool-cases (engine == engine_redis)) [
        | inl redis ↦ rw (e, redis) (refl, refl)
        | inr f ↦ rw (e, f) (refl, refl)
      ]
    ]

-- The ConfigMap of a Backup is built exactly if uploads are off or both the endpoint and the bucket
-- have a value, from the spec or from the operator's defaults.
pub mutate_backup_config_map-IsOk_iff :
    (cm : ConfigMap) (backup : Backup) (cfg : Config)
    → IsOk (mutate_backup_config_map cm backup cfg) ↔ (
        (enabled_or_default backup.spec.s3 ≡ false)
        ⊎ ((s3_endpoint backup cfg ≢ "") × (s3_bucket backup cfg ≢ "")))
unfolding mutate_backup_config_map
mutate_backup_config_map-IsOk_iff cm backup cfg =
    let meta = cm.meta in
    let cm' : ConfigMap = record {
      meta = record meta { labels = backup_labels backup };
      entries =
          insert_all (backup_engine_entries backup)
            (insert_all (backup_s3_entries backup cfg) (backup_entries backup));
    } in
    let (endpoint, bucket) = backup-bucket backup cfg in
    let (only, enough) = check_bucket_iff cm' in
    elim (Bool-cases (enabled_or_default backup.spec.s3)) [
      | inl on ↦ rw on (
        (λ h. inr (rw (sym endpoint, sym bucket) (only h))),
        λ h. elim h [
          | inl off ↦ absurd (false≢true (sym off ∙ refl))
          | inr values ↦ enough (rw (endpoint, bucket) values)
        ],
      )
      | inr off ↦ rw off ((λ _. inl refl), λ _. (_, refl))
    ]

-- The ConfigMap of a Restore is built exactly if both the endpoint and the bucket have a value.
mutate_restore_config_map-IsOk_iff :
    (cm : ConfigMap) (restore : Restore) (cfg : Config)
    → IsOk (mutate_restore_config_map cm restore cfg)
      ↔ ((restore_s3_endpoint restore cfg ≢ "") × (restore_s3_bucket restore cfg ≢ ""))
unfolding mutate_restore_config_map
mutate_restore_config_map-IsOk_iff cm restore cfg =
    let meta = cm.meta in
    let cm' : ConfigMap = record {
      meta = record meta { labels = restore_labels restore };
      entries = insert_all (restore_engine_entries restore) (restore_entries restore cfg);
    } in
    let (endpoint, bucket) = restore-bucket restore cfg in
    rw (sym endpoint, sym bucket) (check_bucket_iff cm')
