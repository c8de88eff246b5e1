-- ===== src/Process/Start.antt =====
-- Which calls main of cmd/main.go makes, in which order, and how it ends.
use karkive.Prelude.{
  String, Bool, ◌≡◌, ◌≢◌, ◌⊎◌, refl, inl, inr, List, [], ◌∷◌, ◌++◌, some, none, false, ◌==◌,
  Bool-cases, arith, ap, if◌then◌else◌,
}
use karkive.Errors.{Error, Result, ok, err, Result-cases}
use karkive.Process.{
  Flags, Step, Ended, ManagerOptions, tls_opts, manager_options, webhook_steps, steps, exit_code,
  run_steps, main,
}

-- The webhooks, where their flag is set, then the metrics, the probes, and the manager itself.
abbrev last_calls : Bool → List Step
last_calls webhooks =
    let ready =
      Step.register_metrics ∷ Step.add_healthz_check ∷ Step.add_readyz_check ∷ Step.start_manager
      ∷ [] in
    if webhooks then Step.setup_backup_webhook ∷ Step.setup_restore_webhook ∷ ready else ready

-- The options of the manager: the addresses and the leader election of the flags, authentication of the
-- metrics by their flag, a webhook server by its flag, there without HTTP/2 unless its flag is set,
-- and the cache of the one namespace that WATCH_NAMESPACE gives.
abbrev pub options_of : Flags → String → ManagerOptions
options_of flags ns = record {
  metrics = record {
    bind_address = flags.metrics_addr;
    authenticates = flags.secure_metrics;
    secure_serving = false;
    tls_opts = [];
  };
  health_probe_bind_address = flags.probe_addr;
  leader_election = flags.enable_leader_election;
  leader_election_id = "karkive.io";
  webhook_server =
      if flags.enable_webhooks
      then some (if flags.enable_http2 then [] else ("http/1.1" ∷ []) ∷ [])
      else none;
  default_namespace = if ns == "" then none else some ns;
}

options_of-manager_options :
    (flags : Flags) (ns : String) → manager_options flags ns ≡ options_of flags ns
unfolding manager_options tls_opts
options_of-manager_options flags ns = elim (Bool-cases flags.enable_http2) [
  | inl on ↦ rw on refl
  | inr off ↦ rw off refl
]

-- The calls of a start on which nothing fails.
abbrev pub start_order : Flags → String → List Step
start_order flags ns =
    Step.new_manager (options_of flags ns)
    ∷ Step.setup_backup_controller flags.cfg
    ∷ Step.setup_restore_controller flags.cfg
    ∷ last_calls flags.enable_webhooks

start_order-steps : (flags : Flags) (ns : String) → steps flags ns ≡ start_order flags ns
unfolding steps webhook_steps
start_order-steps flags ns = elim (Bool-cases flags.enable_webhooks) [
  | inl on ↦ rw (options_of-manager_options flags ns, on) refl
  | inr off ↦ rw (options_of-manager_options flags ns, off) refl
]

module _ {W : Type 0} (run : Step → W → Result (Unit {0}) × W) where
  -- The calls succeed one after the other, from the first state to the second.
  abbrev pub Succeeds : List Step → W → W → Type 0
  Succeeds [] w w' = w ≡ w'
  Succeeds (step ∷ rest) w w' = ((run step w).0 ≡ ok tt) × Succeeds rest (run step w).1 w'

  -- The call failed, or none is left after it.
  abbrev pub StopsAt : Step → List Step → W → Ended W → Type 0
  StopsAt last left w ended =
      ((e : Error) × ((run last w).0 ≡ err e) × (ended.status ≢ 0))
      ⊎ (((run last w).0 ≡ ok tt) × (left ≡ []) × (ended.status ≡ 0))

  -- The calls `order` are made from the state `w` up to the first one that fails.
  abbrev pub RunsInOrder : List Step → W → Ended W → Type 0
  RunsInOrder order w ended =
      (done : List Step) × (last : Step) × (left : List Step) × (before : W) × (order
        ≡ done ++ last ∷ left)
      × (ended.made ≡ done ++ last ∷ [])
      × Succeeds done w before
      × StopsAt last left before ended

  failed_status : (step : Step) → exit_code step ≢ 0
  unfolding exit_code
  failed_status (Step.new_manager options) = λ e. ground (arith, e)
  failed_status (Step.setup_backup_controller cfg) = λ e. ground (arith, e)
  failed_status (Step.setup_restore_controller cfg) = λ e. ground (arith, e)
  failed_status Step.setup_backup_webhook = λ e. ground (arith, e)
  failed_status Step.setup_restore_webhook = λ e. ground (arith, e)
  failed_status Step.register_metrics = λ e. ground (arith, e)
  failed_status Step.add_healthz_check = λ e. ground (arith, e)
  failed_status Step.add_readyz_check = λ e. ground (arith, e)
  failed_status Step.start_manager = λ e. ground (arith, e)

  run_steps-InOrder :
      (step : Step) (rest : List Step) (w : W)
      → RunsInOrder (step ∷ rest) w (run_steps run (step ∷ rest) w)
  unfolding run_steps
  run_steps-InOrder step [] w = elim (Result-cases (run step w).0) [
    | inr (e, bad) ↦
        rw (run_steps, bad) ([], step, [], w, refl, refl, refl, inl (e, bad, failed_status step))
    | inl (u, good) ↦
        rw (run_steps, good) ([], step, [], w, refl, refl, refl, inr (good, refl, refl))
  ]
  run_steps-InOrder step (next ∷ rest) w = elim (Result-cases (run step w).0) [
    | inr (e, bad) ↦
        rw (run_steps, bad)
          ([], step, next ∷ rest, w, refl, refl, refl, inl (e, bad, failed_status step))
    | inl (u, good) ↦
        let (done, last, left, before, order, made, succeeds, stops) =
          run_steps-InOrder next rest (run step w).1 in
        let front = λ (l : List Step). step ∷ l in
        rw (run_steps, good)
          (step ∷ done, last, left, before, ap front order, ap front made, (good, succeeds), stops)
  ]

  -- main makes the calls of the start in this order: NewManager with the options that the flags and
  -- WATCH_NAMESPACE ask for, the setup of the Backup and of the Restore controller with the config of
  -- the flags, that of the two webhooks if their flag is set, Register, the two probes, and Start. It
  -- makes each call only after every one before it has succeeded, ends at the first one that fails,
  -- then with a status other than 0, and ends with status 0 only if all have been made and have
  -- succeeded.
  pub main-InOrder :
      (flags : Flags) (ns : String) (w : W)
      → RunsInOrder (start_order flags ns) w (main run flags ns w)
  unfolding main
  main-InOrder flags ns w = rw (← start_order-steps flags ns) (run_steps-InOrder _ _ w)
