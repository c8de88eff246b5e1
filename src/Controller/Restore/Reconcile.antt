-- ===== src/Controller/Restore/Reconcile.antt =====
-- internal/controller/restore_controller.go: Reconcile, from the last step to the first
use Prim.Native.String.{◌++◌}
use karkive.Prelude.{ℕ, not, none, some, is_some, if◌then◌else◌}
use karkive.Errors.{Error, message, is_not_found}
use karkive.Kube.Objects.{CronJob}
use karkive.Api.Restore.{Restore}
use karkive.Api.Backup.{phase_pending, phase_error, phase_unsupported}
use karkive.Validation.{validate_restore_spec}
use karkive.Resources.Names.{restore_owned_name}
use karkive.Resources.Engine.{effective_engine, restore_engine_implemented}
use karkive.Resources.Labels.{restore_labels, kind_restore}
use karkive.Resources.Runtime.{
  needs_volume_holder, volume_holder_name, volume_holder_match_labels, with_runtime_role,
  runtime_role_volume_holder,
}
use karkive.Resources.Defaults.{restore_workdir, restore_target_secret}
use karkive.Resources.ConfigMap.{mutate_restore_config_map}
use karkive.Resources.RestoreCronJob.{mutate_restore_cron_job}
use karkive.Resources.Holder.{mutate_volume_holder_deployment}
use karkive.JobStatus.{set_time}
use karkive.Controller.Client.{ObjectKey}
use karkive.Controller.Action.{Action, pure, lift, read, try}
use karkive.Controller.Status.{event_type_warning}
use karkive.Controller.Owned.{
  OwnedResources, ensure_owned, delete_legacy_owned, owned_reason, requeue_on_conflict,
  ignore_not_found, volume_holder_available,
}
use karkive.Controller.Report.{secret_requeue, holder_requeue, refusal, synced, waiting, Reconciler}
use karkive.Controller.Restore.Status.{report_and, fail}
use karkive.Controller.Restore.Inputs.{ensure_job_secret, ensure_target_secret}

module _ {W : Type 0} (r : Reconciler W) where
  -- The argument of ensureOwned.
  unfoldable pub owned_resources : Restore → OwnedResources
  owned_resources restore =
      let owned = restore_owned_name restore in
      let holder_name = volume_holder_name owned in
      record {
        owner = restore.meta;
        name = owned;
        persistence = restore.spec.persistence;
        labels = restore_labels restore;
        volume_holder = needs_volume_holder restore.spec.runtime;
        holder_name = holder_name;
        mutate_config_map = λ cm. mutate_restore_config_map cm restore r.config;
        mutate_cron_job = λ cj. mutate_restore_cron_job r.scripts r.quantities cj restore r.config;
        mutate_volume_holder = λ deploy.
            mutate_volume_holder_deployment deploy
              (record {
                name = holder_name;
                labels = with_runtime_role (restore_labels restore) runtime_role_volume_holder;
                selector = volume_holder_match_labels kind_restore restore.meta.name;
                claim_name = owned;
                mount_path = restore_workdir restore;
                images = restore.spec.images;
                affinity = none;
              })
              r.config;
      }

  -- The end of reconcile: wait for the holder, if there is one, and report that all is in place.
  unfoldable pub finish : Restore → CronJob → Action W ℕ
  finish restore cron =
      let holder = volume_holder_name (restore_owned_name restore) in
      if needs_volume_holder restore.spec.runtime
      then (try
          (read (
            r.client.get_deployment (record { namespace = restore.meta.namespace; name = holder })))
          (λ e. fail r restore "VolumeHolderError" e)
          λ deploy.
            if not (volume_holder_available deploy)
            then report_and r restore (waiting cron holder) holder_requeue
            else report_and r restore (synced cron holder) 0)
      else report_and r restore (synced cron "") 0

  -- From ensureOwned on.
  unfoldable pub apply_owned : Restore → Action W ℕ
  apply_owned restore =
      try (ensure_owned r.client r.quantities (owned_resources restore))
        (λ e. fail r restore (owned_reason e) e)
        λ cron.
          try (delete_legacy_owned r.client restore.meta (restore_owned_name restore))
            (λ e. fail r restore "LegacyCleanupError" e) λ _. finish restore cron

  -- The branches of reconcile on an error of ensureTargetSecret.
  unfoldable pub refused_target : Restore → Error → Action W ℕ
  refused_target restore e =
      let target = restore_target_secret restore in
      if is_not_found e
      then report_and r restore
          (refusal phase_pending "TargetSecretNotFound"
            ("target secret " ++ r.external.quote target.name ++ " not found") event_type_warning)
          secret_requeue
      else report_and r restore
          (refusal phase_error "TargetSecretInvalid" (message e) event_type_warning) 0

  -- The block of reconcile on the target's Secret.
  unfoldable pub check_target : Restore → Action W ℕ
  check_target restore =
      try (read (ensure_target_secret r restore)) (λ e. refused_target restore e)
        λ _. apply_owned restore

  -- The branches of reconcile on an error of ensureJobSecret.
  unfoldable pub refused_secret : Restore → Error → Action W ℕ
  refused_secret restore e =
      if is_not_found e
      then report_and r restore
          (refusal phase_pending "SecretNotFound"
            ("secret " ++ r.external.quote restore.spec.secret_ref.name ++ " not found")
            event_type_warning)
          secret_requeue
      else report_and r restore (refusal phase_error "SecretInvalid" (message e) event_type_warning)
          0

  -- The block of reconcile on the Secret of the pipeline.
  unfoldable pub check_secret : Restore → Action W ℕ
  check_secret restore =
      try (read (ensure_job_secret r restore)) (λ e. refused_secret restore e)
        λ _. check_target restore

  -- From ValidateRestoreSpec on.
  unfoldable pub check_spec : Restore → Action W ℕ
  check_spec restore = elim (validate_restore_spec r.external restore.spec) [
    | some e ↦ report_and r restore (refusal phase_error "InvalidSpec" e event_type_warning) 0
    | none ↦ check_secret restore
  ]

  -- The tests of reconcile that need no more of the cluster than the Restore itself.
  unfoldable pub reconcile_restore : Restore → Action W ℕ
  reconcile_restore restore =
      if is_some (set_time restore.meta.deletion_timestamp)
      then pure 0
      else if not (restore_engine_implemented restore.spec.engine)
      then report_and r restore
          (refusal phase_unsupported "UnsupportedEngine"
            ("engine "
              ++ r.external.quote (effective_engine restore.spec.engine)
              ++ " is not implemented")
            event_type_warning)
          0
      else check_spec restore

  unfoldable pub reconcile : ObjectKey → Action W ℕ
  reconcile req =
      try (read (r.client.get_restore req)) (λ e. lift (ignore_not_found 0 e)) reconcile_restore

  -- Reconcile
  unfoldable pub reconcile_request : ObjectKey → Action W ℕ
  reconcile_request req s = let (res, s') = reconcile req s in (requeue_on_conflict res, s')
