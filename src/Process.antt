-- ===== src/Process.antt =====
-- cmd/main.go: the flags, the options of the manager, and the order of the start
pub mod Start
mod Tests
use karkive.Prelude.{
  Bool, true, false, ℕ, String, not, Option, none, some, List, [], ◌∷◌, ◌++◌, ◌==◌, if◌then◌else◌,
}
use karkive.Errors.{Result, ok, err}
use karkive.Resources.Config.{
  Config, default_busy_box_image, default_gnu_pg_image, default_postgres_image, default_mc_image,
  default_mariadb_image, default_redis_image, default_tar_image,
}

-- The variables that the flags set. The flags of the logger are left out.
pub record Flags : Type 0 where
  pub metrics_addr : String
  pub probe_addr : String
  pub enable_leader_election : Bool
  pub secure_metrics : Bool
  pub enable_http2 : Bool
  pub enable_webhooks : Bool
  pub cfg : Config

-- The values of the variables where no flag is given.
abbrev pub default_flags : Flags
default_flags = record {
  metrics_addr = ":8080";
  probe_addr = ":8081";
  enable_leader_election = false;
  secure_metrics = false;
  enable_http2 = false;
  enable_webhooks = false;
  cfg = record {
    busy_box_image = default_busy_box_image;
    gnu_pg_image = default_gnu_pg_image;
    postgres_image = default_postgres_image;
    mc_image = default_mc_image;
    mariadb_image = default_mariadb_image;
    redis_image = default_redis_image;
    tar_image = default_tar_image;
    default_s3_endpoint = "";
    default_s3_bucket = "";
  };
}

-- metricsserver.Options: the fields that main sets, and the ones that decide on TLS
pub record MetricsOptions : Type 0 where
  pub bind_address : String
  -- FilterProvider is WithAuthenticationAndAuthorization, and not nil
  pub authenticates : Bool
  pub secure_serving : Bool
  -- the NextProtos that each function of TLSOpts sets
  pub tls_opts : List (List String)

-- ctrl.Options without the scheme
pub record ManagerOptions : Type 0 where
  pub metrics : MetricsOptions
  pub health_probe_bind_address : String
  pub leader_election : Bool
  pub leader_election_id : String
  -- the TLSOpts of the webhook server that main makes
  pub webhook_server : Option (List (List String))
  -- the key of Cache.DefaultNamespaces
  pub default_namespace : Option String

unfoldable pub tls_opts : Bool → List (List String)
tls_opts enable_http2 = if not enable_http2 then ("http/1.1" ∷ []) ∷ [] else []

-- The fields that main does not set have Go's zero value. The second argument is WATCH_NAMESPACE.
unfoldable pub manager_options : Flags → String → ManagerOptions
unfolding tls_opts
manager_options flags ns = record {
  metrics = record {
    bind_address = flags.metrics_addr;
    authenticates = flags.secure_metrics;
    secure_serving = false;
    tls_opts = [];
  };
  health_probe_bind_address = flags.probe_addr;
  leader_election = flags.enable_leader_election;
  leader_election_id = "karkive.io";
  webhook_server = if flags.enable_webhooks then some (tls_opts flags.enable_http2) else none;
  default_namespace = if ns == "" then none else some ns;
}

-- The calls of main that can fail.
pub data Step : Type 0 where
  new_manager : ManagerOptions → Step
  setup_backup_controller setup_restore_controller : Config → Step
  setup_backup_webhook setup_restore_webhook : Step
  register_metrics : Step
  add_healthz_check add_readyz_check : Step
  start_manager : Step

unfoldable pub webhook_steps : Bool → List Step
webhook_steps enable_webhooks =
    if enable_webhooks then setup_backup_webhook ∷ setup_restore_webhook ∷ [] else []

-- The calls in the order in which main makes them, while none fails.
unfoldable pub steps : Flags → String → List Step
unfolding manager_options webhook_steps
steps flags ns =
    (new_manager (manager_options flags ns)
      ∷ setup_backup_controller flags.cfg
      ∷ setup_restore_controller flags.cfg
      ∷ [])
    ++ (webhook_steps flags.enable_webhooks
        ++ register_metrics ∷ add_healthz_check ∷ add_readyz_check ∷ start_manager ∷ [])

-- The status of the process after a failed call: Register panics, the others lead to os.Exit(1).
unfoldable pub exit_code : Step → ℕ
exit_code register_metrics = 2
exit_code _ = 1

-- Where the process stands when main has ended: its status, the calls that it has made, and the state
-- of what is around it.
pub record Ended (W : Type 0) : Type 0 where
  pub status : ℕ
  pub made : List Step
  pub world : W

module _ {W : Type 0} (run : Step → W → Result (Unit {0}) × W) where
  unfoldable pub run_steps : List Step → W → Ended W
  unfolding exit_code
  run_steps [] w = record { status = 0; made = []; world = w }
  run_steps (step ∷ rest) w =
      let (res, w') = run step w in
      let later = run_steps rest w' in
      elim res [
        | err e ↦ record { status = exit_code step; made = step ∷ []; world = w' }
        | ok u ↦ record later { made = step ∷ later.made }
      ]

  unfoldable pub main : Flags → String → W → Ended W
  unfolding run_steps steps
  main flags ns w = run_steps (steps flags ns) w
