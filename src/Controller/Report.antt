-- ===== src/Controller/Report.antt =====
-- internal/controller/backup_controller.go and restore_controller.go: what the two reconcilers share.
pub mod Unready
pub mod Guarded
pub mod Colocated
pub mod Table
use Prim.Native.String.{◌++◌}
use karkive.Prelude.{ℕ, String, Bool, Option, none, some}
use karkive.Kube.Meta.{QuantityOps, condition_true, condition_false}
use karkive.Kube.Objects.{CronJob}
use karkive.Api.Backup.{phase_pending, phase_ready}
use karkive.Validation.{External}
use karkive.Resources.Config.{Config}
use karkive.Resources.Pipeline.{Scripts}
use karkive.Controller.Client.{Client, StatusOps}
use karkive.Controller.Status.{event_type_normal}

-- secretRequeue, sourceRequeue and holderRequeue, in seconds
abbrev pub secret_requeue : ℕ
secret_requeue = 30

abbrev pub source_requeue : ℕ
source_requeue = 30

abbrev pub holder_requeue : ℕ
holder_requeue = 10

-- The arguments of setStatus behind the object.
pub record Report : Type 0 where
  pub phase : String
  pub ready : String
  pub reason : String
  pub text : String
  pub event_type : String
  pub cron : Option CronJob
  pub holder_name : String

-- A report of a failed admission: no CronJob, no holder, the condition Ready is False.
abbrev pub refusal : String → String → String → String → Report
refusal phase reason text event_type = record {
  phase = phase;
  ready = condition_false;
  reason = reason;
  text = text;
  event_type = event_type;
  cron = none;
  holder_name = "";
}

-- The report of a CR whose owned objects are in place.
abbrev pub synced : CronJob → String → Report
synced cron holder = record {
  phase = phase_ready;
  ready = condition_true;
  reason = "Synced";
  text = "CronJob " ++ cron.meta.name ++ " is synced";
  event_type = event_type_normal;
  cron = some cron;
  holder_name = holder;
}

abbrev pub waiting : CronJob → String → Report
waiting cron holder = record {
  phase = phase_pending;
  ready = condition_false;
  reason = "VolumeHolderNotReady";
  text = "waiting for volume holder Deployment " ++ holder;
  event_type = event_type_normal;
  cron = some cron;
  holder_name = holder;
}

-- BackupReconciler and RestoreReconciler, with the operations that it calls outside the repository
pub record Reconciler (W : Type 0) : Type 0 where
  pub client : Client W
  pub external : External
  pub ops : StatusOps
  pub quantities : QuantityOps
  pub scripts : Scripts
  pub config : Config
  -- r.Recorder != nil
  pub has_recorder : Bool
