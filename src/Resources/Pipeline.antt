-- ===== src/Resources/Pipeline.antt =====
-- internal/pipeline/embed.go: the scripts of the stages. The files under scripts/ are embedded at
-- compile time, so reading one of them by its name does not fail; their texts are a parameter.
use Prim.Native.String.{String, ◌++◌}
use karkive.Prelude.{not, ends_in_newline, if◌then◌else◌}

pub data BackupScript : Type 0 where
  cleanup pgdump mysqldump redisdump pvcdump compress encrypt s3_sync : BackupScript

pub data RestoreScript : Type 0 where
  cleanup fetch decrypt extract pgrestore mysqlrestore redisrestore : RestoreScript

pub record Scripts : Type 0 where
  pub common : String
  pub backup : BackupScript → String
  pub restore : RestoreScript → String

module _ (scripts : Scripts) where
  unfoldable pub compose_stage : String → String
  compose_stage body =
      let common =
        if not (ends_in_newline scripts.common) then scripts.common ++ "\n" else scripts.common in
      common ++ body

  unfoldable pub must_backup_script : BackupScript → String
  unfolding compose_stage
  must_backup_script name = compose_stage (scripts.backup name)

  unfoldable pub must_restore_script : RestoreScript → String
  unfolding compose_stage
  must_restore_script name = compose_stage (scripts.restore name)
