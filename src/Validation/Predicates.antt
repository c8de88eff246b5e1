-- ===== src/Validation/Predicates.antt =====
-- What a valid spec of api/v1alpha1/validation.go is, stated without the checks.
use Prim.Native.Char.{code}
use Prim.Native.String.{String, [], ◌∷◌}
use mathlib.Core.List.{[], ◌∷◌}
use karkive.Prelude.{
  ◌≡◌, ◌≢◌, ◌⊎◌, Bool, true, false, Option, none, some, List, All, starts_with, split_slash,
  trim_space,
}
use karkive.Kube.Meta.{LabelSelector}
use karkive.Api.Common.{
  engine_pvc, engine_mariadb, engine_redis, PersistenceSpec, RuntimeSpec, effective_mode,
  mode_cron_job, mode_cron_job_with_volume_holder, JobPolicy, SecretKeySelector, DatabaseSpec,
}
use karkive.Api.Backup.{PvcSourceSpec, BackupSpec}
use karkive.Api.Restore.{RestoreSpec}
use karkive.Validation.{External}

-- One of the texts of a list.
abbrev pub OneOf : String → List String → Type 0
OneOf x [] = ⊥
OneOf x (y ∷ ys) = (x ≡ y) ⊎ OneOf x ys

-- No line feed and no carriage return.
abbrev pub IsSingleLine : String → Type 0
IsSingleLine [] = Unit
IsSingleLine (c ∷ s) = (code c ≢ 10) × (code c ≢ 13) × IsSingleLine s

-- The value of an optional field, where it is set.
abbrev pub IfSet {ℓ} : {A : Type ℓ} → (A → Type 0) → Option A → Type 0
IfSet P none = Unit
IfSet P (some a) = P a

-- spec.persistence.enabled is absent or true.
abbrev pub HasClaim : Option PersistenceSpec → Type 0
HasClaim persistence = IfSet (λ p. IfSet (λ b. b ≡ true) p.enabled) persistence

-- spec.s3.enabled is absent or true.
abbrev pub HasObjectStorage : Option Bool → Type 0
HasObjectStorage enabled = IfSet (λ b. b ≡ true) enabled

-- A path below the root of the claim.
abbrev pub IsRelativePath : String → Type 0
IsRelativePath p =
    (starts_with p "/" ≡ false) × All (λ part. part ≢ "..") (split_slash p) × IsSingleLine p

abbrev pub IsPattern : String → Type 0
IsPattern e = (trim_space e ≢ "") × IsSingleLine e

abbrev pub IsJobPolicy : JobPolicy → Type 0
IsJobPolicy job =
    OneOf job.concurrency_policy ("" ∷ "Allow" ∷ "Forbid" ∷ "Replace" ∷ [])
    × OneOf job.restart_policy ("" ∷ "Always" ∷ "OnFailure" ∷ "Never" ∷ [])

abbrev pub IsRuntime : Option RuntimeSpec → Option PersistenceSpec → Type 0
IsRuntime runtime persistence =
    (effective_mode runtime ≡ mode_cron_job)
    ⊎ ((effective_mode runtime ≡ mode_cron_job_with_volume_holder) × HasClaim persistence)

abbrev pub IsDatabase : DatabaseSpec → Type 0
IsDatabase db = (db.host ≢ "") × (db.name ≢ "")

-- A secret that is named.
abbrev pub IsNamed : Option SecretKeySelector → Type 0
IsNamed s = (sel : SecretKeySelector) × (s ≡ some sel) × (sel.name ≢ "")

-- With no object storage the dumps stay on the claim, so there must be one.
abbrev pub IsDestination : BackupSpec → Type 0
IsDestination spec =
    (HasObjectStorage spec.s3.enabled × (spec.s3.path ≢ ""))
    ⊎ ((spec.s3.enabled ≡ some false) × HasClaim spec.persistence)

-- The secret of the target's engine; any other engine uses the one for postgres.
abbrev pub IsTargetSecret : RestoreSpec → Type 0
IsTargetSecret spec =
    ((spec.engine ≡ engine_mariadb) × IsNamed spec.mariadb_secret)
    ⊎ ((spec.engine ≡ engine_redis) × IsNamed spec.redis_secret)
    ⊎ ((spec.engine ≢ engine_mariadb) × (spec.engine ≢ engine_redis) × IsNamed spec.postgres_secret)

module _ (ext : External) where
  abbrev pub IsSchedule : String → Type 0
  IsSchedule s = (trim_space s ≢ "") × (ext.parse_standard s ≡ none)

  abbrev pub IsSelector : LabelSelector → Type 0
  IsSelector sel =
      ((sel.match_labels ≢ []) ⊎ (sel.match_expressions ≢ []))
      × (ext.label_selector_as_selector sel ≡ none)

  pub record IsPvcSource (src : PvcSourceSpec) : Type 0 where
    pub claim : src.claim_name ≢ ""
    pub path : IsRelativePath src.path
    pub excludes : All IsPattern src.excludes
    pub selector : IfSet IsSelector src.consumer_selector

  -- A claim for engine pvc, else a database and no claim.
  abbrev pub IsSource : BackupSpec → Type 0
  IsSource spec =
      ((spec.engine ≡ engine_pvc)
        × ((src : PvcSourceSpec) × (spec.pvc ≡ some src) × IsPvcSource src))
      ⊎ ((spec.engine ≢ engine_pvc) × (spec.pvc ≡ none) × IsDatabase spec.database)

  pub record IsBackupSpec (spec : BackupSpec) : Type 0 where
    pub schedule : IsSchedule spec.schedule
    pub source : IsSource spec
    pub destination : IsDestination spec
    pub secret : spec.secret_ref.name ≢ ""
    pub job : IfSet IsJobPolicy spec.job
    pub runtime : IsRuntime spec.runtime spec.persistence

  pub record IsRestoreSpec (spec : RestoreSpec) : Type 0 where
    pub schedule : IsSchedule spec.schedule
    pub engine : spec.engine ≢ engine_pvc
    pub database : IsDatabase spec.database
    pub storage : HasObjectStorage spec.s3.enabled
    pub path : spec.s3.path ≢ ""
    pub secret : spec.secret_ref.name ≢ ""
    pub target : IsTargetSecret spec
    pub job : IfSet IsJobPolicy spec.job
    pub runtime : IsRuntime spec.runtime spec.persistence
