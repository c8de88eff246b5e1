-- ===== src/Metrics/Descriptions.antt =====
-- The descriptions of internal/metrics/collector.go.
use karkive.Prelude.{String, List, [], ◌∷◌}

-- prometheus.Desc, without constant labels
pub record Desc : Type 0 where
  pub fq_name : String
  pub help : String
  pub variable_labels : List String

abbrev pub series_labels : List String
series_labels = "namespace" ∷ "name" ∷ "engine" ∷ []

abbrev pub info_labels : List String
info_labels = "namespace" ∷ "name" ∷ "engine" ∷ "outcome" ∷ "reason" ∷ "job_name" ∷ []

abbrev pub backup_ready_desc : Desc
backup_ready_desc = record {
  fq_name = "karkive_backup_ready";
  help =
      "1 if the Backup is Ready (owned resources synced). Last Job outcome is karkive_backup_last_job_failed.";
  variable_labels = series_labels;
}

abbrev pub backup_suspended_desc : Desc
backup_suspended_desc = record {
  fq_name = "karkive_backup_suspended";
  help = "1 if Backup.spec.suspend is true.";
  variable_labels = series_labels;
}

abbrev pub backup_last_schedule_desc : Desc
backup_last_schedule_desc = record {
  fq_name = "karkive_backup_last_schedule_timestamp_seconds";
  help = "Unix time of the last CronJob schedule for this Backup, if known.";
  variable_labels = series_labels;
}

abbrev pub backup_last_success_desc : Desc
backup_last_success_desc = record {
  fq_name = "karkive_backup_last_successful_timestamp_seconds";
  help = "Unix time of the last successful backup Job, if known.";
  variable_labels = series_labels;
}

abbrev pub backup_last_job_failed_desc : Desc
backup_last_job_failed_desc = record {
  fq_name = "karkive_backup_last_job_failed";
  help = "1 if the most recently completed Job for this Backup failed.";
  variable_labels = series_labels;
}

abbrev pub backup_last_job_duration_desc : Desc
backup_last_job_duration_desc = record {
  fq_name = "karkive_backup_last_job_duration_seconds";
  help =
      "Wall time in seconds of the most recently finished Job for this Backup, or 0 if none has finished.";
  variable_labels = series_labels;
}

abbrev pub backup_last_job_info_desc : Desc
backup_last_job_info_desc = record {
  fq_name = "karkive_backup_last_job_info";
  help =
      "Always 1. Labels describe the most recently finished Job (outcome, reason, job_name). Absent if none has finished.";
  variable_labels = info_labels;
}

abbrev pub restore_ready_desc : Desc
restore_ready_desc = record {
  fq_name = "karkive_restore_ready";
  help =
      "1 if the Restore is Ready (owned resources synced). Last Job outcome is karkive_restore_last_job_failed.";
  variable_labels = series_labels;
}

abbrev pub restore_suspended_desc : Desc
restore_suspended_desc = record {
  fq_name = "karkive_restore_suspended";
  help = "1 if Restore.spec.suspend is true.";
  variable_labels = series_labels;
}

abbrev pub restore_last_schedule_desc : Desc
restore_last_schedule_desc = record {
  fq_name = "karkive_restore_last_schedule_timestamp_seconds";
  help = "Unix time of the last CronJob schedule for this Restore, if known.";
  variable_labels = series_labels;
}

abbrev pub restore_last_success_desc : Desc
restore_last_success_desc = record {
  fq_name = "karkive_restore_last_successful_timestamp_seconds";
  help = "Unix time of the last successful restore Job, if known.";
  variable_labels = series_labels;
}

abbrev pub restore_last_job_failed_desc : Desc
restore_last_job_failed_desc = record {
  fq_name = "karkive_restore_last_job_failed";
  help = "1 if the most recently completed Job for this Restore failed.";
  variable_labels = series_labels;
}

abbrev pub restore_last_job_duration_desc : Desc
restore_last_job_duration_desc = record {
  fq_name = "karkive_restore_last_job_duration_seconds";
  help =
      "Wall time in seconds of the most recently finished Job for this Restore, or 0 if none has finished.";
  variable_labels = series_labels;
}

abbrev pub restore_last_job_info_desc : Desc
restore_last_job_info_desc = record {
  fq_name = "karkive_restore_last_job_info";
  help =
      "Always 1. Labels describe the most recently finished Job (outcome, reason, job_name). Absent if none has finished.";
  variable_labels = info_labels;
}

-- Describe
unfoldable pub describe : List Desc
describe =
    backup_ready_desc ∷ backup_suspended_desc ∷ backup_last_schedule_desc ∷ backup_last_success_desc
    ∷ backup_last_job_failed_desc ∷ backup_last_job_duration_desc ∷ backup_last_job_info_desc
    ∷ restore_ready_desc ∷ restore_suspended_desc ∷ restore_last_schedule_desc
    ∷ restore_last_success_desc ∷ restore_last_job_failed_desc ∷ restore_last_job_duration_desc
    ∷ restore_last_job_info_desc ∷ []
