-- ===== src/Controller/Backup/Reported.antt =====
-- What setStatus of internal/controller/backup_controller.go does for a Backup whose owned objects are
-- in place: the end of the path on which every check of Reconcile passes.
use Prim.Native.String.{◌++◌}
use karkive.Prelude.{
  ℕ, ◌≡◌, refl, ◌⊎◌, inl, inr, true, false, ◌&&◌, Option, ◌∷◌, Bool-cases, arith, eq_iff, int_eq,
  if◌then◌else◌,
}
use karkive.Errors.{Error, Result, ok, err, Result-cases, is_conflict}
use karkive.Kube.Meta.{Condition}
use karkive.Kube.Objects.{CronJob}
use karkive.Api.Common.{LastJobStatus, condition_backup_succeeded}
use karkive.Api.Backup.{Backup, BackupStatus}
use karkive.Controller.Client.{ObjectKey}
use karkive.Controller.Action.{update_status, event, Machine, try, resume, pure, raise, write}
use karkive.Controller.Status.{
  generation_changed, should_record_event, status_needs_patch, job_succeeded_condition,
}
use karkive.Controller.Owned.{requeue_on_conflict, conflict_requeue}
use karkive.Controller.Report.{Reconciler, synced}
use karkive.Controller.Backup.Status.{
  plan_status, record_event, set_status, report_and, copy_cron, cron_changed, set_conditions,
}
use karkive.Controller.Backup.Reconcile.{reconcile_request}
use karkive.Controller.Backup.Ready.{IsAdmitted, Wrote, applied-Wrote}
use karkive.Controller.Backup.Synced.{reconcile_synced, after_writes, status_holder}
use karkive.Controller.Backup.Converged.{last_job_at}

-- The condition Ready of a Backup whose CronJob is in place.
abbrev pub ready_condition : Backup → CronJob → Condition
ready_condition backup cron = record {
  type = "Ready";
  status = "True";
  reason = "Synced";
  message = "CronJob " ++ cron.meta.name ++ " is synced";
  observed_generation = backup.meta.generation;
  last_transition_time = 0;
}

module _ {W : Type 0} (r : Reconciler W) (backup : Backup) (cron : CronJob) where
  -- The status says that the Backup is Ready in its generation, with what the CronJob, the holder
  -- and the last Job are; and meta.SetStatusCondition has set the two conditions.
  pub record IsReadyStatus (last : Option LastJobStatus) (status : BackupStatus) : Type 0 where
    pub phase : status.phase ≡ "Ready"
    pub generation : status.observed_generation ≡ backup.meta.generation
    pub cron_job : status.cron_job_name ≡ cron.meta.name
    pub holder : status.volume_holder_name ≡ status_holder r backup
    pub schedule : status.last_schedule_time ≡ cron.last_schedule_time
    pub success : status.last_successful_time ≡ cron.last_successful_time
    pub last_job : status.last_job ≡ last
    pub conditions :
        status.conditions
        ≡ (r.ops.set_status_condition
            (r.ops.set_status_condition backup.status.conditions (ready_condition backup cron)).0
            (job_succeeded_condition condition_backup_succeeded backup.meta.generation last)).0

  -- The status that the Backup has says so already, as far as the comparisons of setStatus tell.
  pub record IsUpToDate (last : Option LastJobStatus) : Type 0 where
    pub phase : backup.status.phase ≡ "Ready"
    pub generation : int_eq backup.status.observed_generation backup.meta.generation ≡ true
    pub cron_job : backup.status.cron_job_name ≡ cron.meta.name
    pub holder : backup.status.volume_holder_name ≡ status_holder r backup
    pub schedule :
        r.ops.meta_time_equal backup.status.last_schedule_time cron.last_schedule_time ≡ true
    pub success :
        r.ops.meta_time_equal backup.status.last_successful_time cron.last_successful_time ≡ true
    pub last_job : r.ops.last_job_equal backup.status.last_job last ≡ true
    pub ready :
        (r.ops.set_status_condition backup.status.conditions (ready_condition backup cron)).1
        ≡ false

  -- The event Normal Synced is recorded for a new generation, if there is a recorder.
  abbrev pub announced : Machine W → Machine W
  announced s =
      let status = backup.status in
      if r.has_recorder
        && generation_changed backup.meta.generation status.observed_generation status.phase
      then record {
        world =
            r.client.event backup.meta "Normal" "Synced"
              ("CronJob " ++ cron.meta.name ++ " is synced") s.world;
        calls = event "Normal" "Synced" ∷ s.calls;
      }
      else s

  -- The status is written, after the event. An error of the write is returned; a conflict is a requeue.
  abbrev pub IsStored : BackupStatus → Machine W → Result ℕ × Machine W → Type 0
  IsStored status s outcome =
      let stored =
        r.client.update_backup_status (record backup { status = status }) (announced s).world in
      (outcome.1 ≡ record { world = stored.1; calls = update_status "Ready" ∷ (announced s).calls })
      × (((stored.0 ≡ ok tt) × (outcome.0 ≡ ok 0))
          ⊎ ((e : Error) × (stored.0 ≡ err e)
              × (outcome.0 ≡ (if is_conflict e then ok conflict_requeue else err e))))

  -- Either nothing is written, as the status is up to date, or a status is that says Ready.
  abbrev pub ReportsReady : Machine W → Result ℕ × Machine W → Type 0
  ReportsReady s outcome =
      let last = last_job_at r backup s in
      (IsUpToDate last × (outcome ≡ (ok 0, s)))
      ⊎ ((status : BackupStatus) × IsReadyStatus last status × IsStored status s outcome)

  plan_ready :
      (last : Option LastJobStatus)
      → IsReadyStatus last
          (plan_status r.ops backup (synced cron (status_holder r backup)) last).status
  unfolding plan_status copy_cron set_conditions
  plan_ready last = record {
    phase = refl;
    generation = refl;
    cron_job = refl;
    holder = refl;
    schedule = refl;
    success = refl;
    last_job = refl;
    conditions = refl;
  }

  plan_quiet :
      (last : Option LastJobStatus)
      → (plan_status r.ops backup (synced cron (status_holder r backup)) last).patch ≡ false
      → IsUpToDate last
  unfolding plan_status cron_changed set_conditions status_needs_patch generation_changed
  plan_quiet last quiet = record {
    phase = ground (arith, quiet, eq_iff backup.status.phase "Ready");
    generation = ground (arith, quiet);
    cron_job = ground (arith, quiet, eq_iff backup.status.cron_job_name cron.meta.name);
    holder =
        ground (arith, quiet, eq_iff backup.status.volume_holder_name (status_holder r backup));
    schedule = ground (arith, quiet);
    success = ground (arith, quiet);
    last_job = ground (arith, quiet);
    ready = ground (arith, quiet);
  }

  plan_event :
      (last : Option LastJobStatus)
      → (plan_status r.ops backup (synced cron (status_holder r backup)) last).event
        ≡ generation_changed backup.meta.generation backup.status.observed_generation
            backup.status.phase
  unfolding plan_status should_record_event
  plan_event last = refl

  plan_quiet_event :
      (last : Option LastJobStatus)
      → (plan_status r.ops backup (synced cron (status_holder r backup)) last).patch ≡ false
      → (plan_status r.ops backup (synced cron (status_holder r backup)) last).event ≡ false
  unfolding plan_status should_record_event status_needs_patch
  plan_quiet_event last quiet = ground (arith, quiet)

  record_event-announced :
      (s : Machine W)
      → record_event r
          (plan_status r.ops backup
            (synced cron (status_holder r backup))
            (last_job_at r backup s)).event
          backup
          (synced cron (status_holder r backup))
          s
        ≡ announced s
  unfolding record_event
  record_event-announced s = rw (plan_event (last_job_at r backup s)) refl

  set_status-stored :
      (s : Machine W)
      → (let plan =
            plan_status r.ops backup
              (synced cron (status_holder r backup))
              (last_job_at r backup s) in
          plan.patch ≡ true
          → set_status r backup (synced cron (status_holder r backup)) s ≡ (
              let stored =
                r.client.update_backup_status
                  (record backup { status = plan.status })
                  (announced s).world in
              (
                stored.0,
                record { world = stored.1; calls = update_status "Ready" ∷ (announced s).calls },
              )))
  unfolding set_status write
  set_status-stored s patch =
      rw (patch, record_event-announced s, (plan_ready (last_job_at r backup s)).phase) refl

  set_status-quiet :
      (s : Machine W)
      → (plan_status r.ops backup
          (synced cron (status_holder r backup))
          (last_job_at r backup s)).patch
        ≡ false
      → set_status r backup (synced cron (status_holder r backup)) s ≡ (ok tt, s)
  unfolding set_status record_event
  set_status-quiet s quiet =
      let silent = plan_quiet_event (last_job_at r backup s) quiet in ground (arith, quiet, silent)

  report_and-ReportsReady :
      (s : Machine W)
      → (let outcome = report_and r backup (synced cron (status_holder r backup)) 0 s in
          ReportsReady s (requeue_on_conflict outcome.0, outcome.1))
  unfolding report_and try raise pure requeue_on_conflict
  report_and-ReportsReady s =
      let last = last_job_at r backup s in
      let plan = plan_status r.ops backup (synced cron (status_holder r backup)) last in
      elim (Bool-cases plan.patch) [
        | inr quiet ↦ inl (plan_quiet last quiet, rw (set_status-quiet s quiet, resume) refl)
        | inl patch ↦
            let stored =
              r.client.update_backup_status (record backup { status = plan.status })
                (announced s).world in
            let written = set_status-stored s patch in
            inr (
              plan.status,
              plan_ready last,
              elim (Result-cases stored.0) [
                | inl (u, done) ↦ rw (written) (rw (done, resume) (refl, inl (refl, refl)))
                | inr (e, failed) ↦ rw (written) (rw (failed, resume) (refl, inr (e, refl, refl)))
              ],
            )
      ]

-- For a Backup that passes every check, whose owned objects can all be written, and whose holder,
-- if any, is available, Reconcile applies every owned object, in order, and deals with the
-- ConfigMap and the CronJob of the old name, if that differs. Then either the status of the Backup
-- is up to date, with the phase Ready, the generation, the CronJob that was applied, the holder,
-- the last Job and the condition Ready, and Reconcile succeeds without a further write; or it
-- writes a status that is, after an event Normal Synced for a new generation if there is a
-- recorder. An error of that write is returned, but a conflict becomes a requeue.
pub reconcile-ReportsReady :
    {W : Type 0} (r : Reconciler W) (req : ObjectKey) (s : Machine W) (backup : Backup)
    → r.client.get_backup req s.world ≡ ok backup
    → (admitted : IsAdmitted r backup s)
    → Wrote r backup s
      × ReportsReady r backup admitted.applied.0
          (after_writes r backup s)
          (reconcile_request r req s)
reconcile-ReportsReady r req s backup found admitted = (
  applied-Wrote r backup s admitted.applied,
  rw (reconcile_synced r req s backup found admitted)
      (report_and-ReportsReady r backup admitted.applied.0 (after_writes r backup s)),
)
