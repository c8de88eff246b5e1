-- ===== src/Controller/Report/Unready.antt =====
-- That no status with the phase Ready has been written, and the writes of owned objects.
use karkive.Prelude.{String, ◌≢◌, List, All, arith, eq_iff}
use karkive.Api.Backup.{phase_pending, phase_ready, phase_error, phase_unsupported}
use karkive.Controller.Action.{Call, update_status}
use karkive.Controller.Owned.Keeps.{KeptByWrites}

-- No status with the phase Ready has been written.
abbrev pub NoReady : List Call → Type 0
NoReady calls = All (λ call. call ≢ update_status phase_ready) calls

pub error-ne-ready : ◌≢◌ {A = String} phase_error phase_ready
error-ne-ready = ground (arith, eq_iff phase_error phase_ready)

pub pending-ne-ready : ◌≢◌ {A = String} phase_pending phase_ready
pending-ne-ready = ground (arith, eq_iff phase_pending phase_ready)

pub unsupported-ne-ready : ◌≢◌ {A = String} phase_unsupported phase_ready
unsupported-ne-ready = ground (arith, eq_iff phase_unsupported phase_ready)

pub writes-NoReady : KeptByWrites NoReady
writes-NoReady = record {
  applied_config_map = λ n cs h. ((λ e. cc e), h);
  applied_claim = λ n cs h. ((λ e. cc e), h);
  applied_deployment = λ n cs h. ((λ e. cc e), h);
  applied_cron_job = λ n cs h. ((λ e. cc e), h);
  deleted_config_map = λ n cs h. ((λ e. cc e), h);
  deleted_deployment = λ n cs h. ((λ e. cc e), h);
  deleted_cron_job = λ n cs h. ((λ e. cc e), h);
}
