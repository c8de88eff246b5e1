-- ===== src/Controller/Backup/Reconcile.antt =====
-- internal/controller/backup_controller.go: Reconcile, from the last step to the first
use Prim.Native.String.{◌++◌}
use karkive.Prelude.{ℕ, String, not, none, some, is_some, if◌then◌else◌}
use karkive.Errors.{Error, message, is_not_found}
use karkive.Kube.Objects.{CronJob}
use karkive.Api.Backup.{Backup, phase_pending, phase_error, phase_unsupported}
use karkive.Validation.{validate_backup_spec}
use karkive.Resources.Names.{backup_owned_name}
use karkive.Resources.Engine.{effective_engine, engine_implemented}
use karkive.Resources.Labels.{backup_labels, kind_backup}
use karkive.Resources.Runtime.{
  needs_volume_holder, volume_holder_name, volume_holder_match_labels, with_runtime_role,
  runtime_role_volume_holder, required_pod_affinity,
}
use karkive.Resources.Defaults.{data_dir}
use karkive.Resources.PvcSource.{is_pvc_backup, pvc_consumer_affinity_terms}
use karkive.Resources.ConfigMap.{mutate_backup_config_map}
use karkive.Resources.BackupCronJob.{mutate_backup_cron_job}
use karkive.Resources.Holder.{mutate_volume_holder_deployment}
use karkive.JobStatus.{set_time}
use karkive.Controller.Client.{ObjectKey}
use karkive.Controller.Action.{Action, pure, lift, read, try}
use karkive.Controller.Status.{event_type_warning}
use karkive.Controller.Owned.{
  OwnedResources, ensure_owned, delete_legacy_owned, owned_reason, requeue_on_conflict,
  ignore_not_found, volume_holder_available,
}
use karkive.Controller.Report.{
  secret_requeue, source_requeue, holder_requeue, refusal, synced, waiting, Reconciler,
}
use karkive.Controller.Backup.Status.{report_and, fail}
use karkive.Controller.Backup.Inputs.{ensure_secret, check_source_pvc}

module _ {W : Type 0} (r : Reconciler W) where
  abbrev claim_name_of : Backup → String
  claim_name_of backup = elim backup.spec.pvc [ none ↦ "" | some src ↦ src.claim_name ]

  -- The argument of ensureOwned.
  unfoldable pub owned_resources : Backup → OwnedResources
  owned_resources backup =
      let owned = backup_owned_name backup in
      let holder_name = volume_holder_name owned in
      record {
        owner = backup.meta;
        name = owned;
        persistence = backup.spec.persistence;
        labels = backup_labels backup;
        volume_holder = needs_volume_holder backup.spec.runtime;
        holder_name = holder_name;
        mutate_config_map = λ cm. mutate_backup_config_map cm backup r.config;
        mutate_cron_job = λ cj. mutate_backup_cron_job r.scripts r.quantities cj backup r.config;
        mutate_volume_holder = λ deploy.
            mutate_volume_holder_deployment deploy
              (record {
                name = holder_name;
                labels = with_runtime_role (backup_labels backup) runtime_role_volume_holder;
                selector = volume_holder_match_labels kind_backup backup.meta.name;
                claim_name = owned;
                mount_path = data_dir backup;
                images = backup.spec.images;
                affinity = required_pod_affinity (pvc_consumer_affinity_terms backup);
              })
              r.config;
      }

  -- The end of reconcile: wait for the holder, if there is one, and report that all is in place.
  unfoldable pub finish : Backup → CronJob → Action W ℕ
  finish backup cron =
      let holder = volume_holder_name (backup_owned_name backup) in
      if needs_volume_holder backup.spec.runtime
      then (try
          (read
            (r.client.get_deployment (record { namespace = backup.meta.namespace; name = holder })))
          (λ e. fail r backup "VolumeHolderError" e)
          λ deploy.
            if not (volume_holder_available deploy)
            then report_and r backup (waiting cron holder) holder_requeue
            else report_and r backup (synced cron holder) 0)
      else report_and r backup (synced cron "") 0

  -- From ensureOwned on.
  unfoldable pub apply_owned : Backup → Action W ℕ
  apply_owned backup =
      try (ensure_owned r.client r.quantities (owned_resources backup))
        (λ e. fail r backup (owned_reason e) e)
        λ cron.
          try (delete_legacy_owned r.client backup.meta (backup_owned_name backup))
            (λ e. fail r backup "LegacyCleanupError" e) λ _. finish backup cron

  -- The branches of reconcile on an error of checkSourcePVC.
  unfoldable pub refused_source : Backup → Error → Action W ℕ
  refused_source backup e =
      if is_not_found e
      then report_and r backup
          (refusal phase_pending "SourcePVCNotFound"
            ("source PVC " ++ r.external.quote (claim_name_of backup) ++ " not found")
            event_type_warning)
          source_requeue
      else report_and r backup
          (refusal phase_error "SourcePVCInvalid" (message e) event_type_warning) 0

  -- The block of reconcile on the source claim of engine pvc.
  unfoldable pub check_source : Backup → Action W ℕ
  check_source backup =
      if is_pvc_backup backup
      then (try (read (check_source_pvc r backup (backup_owned_name backup)))
          (λ e. refused_source backup e) λ _. apply_owned backup)
      else apply_owned backup

  -- The branches of reconcile on an error of ensureSecret.
  unfoldable pub refused_secret : Backup → Error → Action W ℕ
  refused_secret backup e =
      if is_not_found e
      then report_and r backup
          (refusal phase_pending "SecretNotFound"
            ("secret " ++ r.external.quote backup.spec.secret_ref.name ++ " not found")
            event_type_warning)
          secret_requeue
      else report_and r backup (refusal phase_error "SecretInvalid" (message e) event_type_warning)
          0

  -- The block of reconcile on the Secret.
  unfoldable pub check_secret : Backup → Action W ℕ
  check_secret backup =
      try (read (ensure_secret r backup)) (λ e. refused_secret backup e) λ _. check_source backup

  -- From ValidateBackupSpec on.
  unfoldable pub check_spec : Backup → Action W ℕ
  check_spec backup = elim (validate_backup_spec r.external backup.spec) [
    | some e ↦ report_and r backup (refusal phase_error "InvalidSpec" e event_type_warning) 0
    | none ↦ check_secret backup
  ]

  -- The tests of reconcile that need no more of the cluster than the Backup itself.
  unfoldable pub reconcile_backup : Backup → Action W ℕ
  reconcile_backup backup =
      if is_some (set_time backup.meta.deletion_timestamp)
      then pure 0
      else if not (engine_implemented backup.spec.engine)
      then report_and r backup
          (refusal phase_unsupported "UnsupportedEngine"
            ("engine "
              ++ r.external.quote (effective_engine backup.spec.engine)
              ++ " is not implemented")
            event_type_warning)
          0
      else check_spec backup

  unfoldable pub reconcile : ObjectKey → Action W ℕ
  reconcile req =
      try (read (r.client.get_backup req)) (λ e. lift (ignore_not_found 0 e)) reconcile_backup

  -- Reconcile
  unfoldable pub reconcile_request : ObjectKey → Action W ℕ
  reconcile_request req s = let (res, s') = reconcile req s in (requeue_on_conflict res, s')
