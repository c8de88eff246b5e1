-- ===== src/Lib.antt =====
-- KArkive is a Kubernetes operator for database backups. A Backup or a Restore is a custom
-- resource; the operator validates it, builds a ConfigMap, a claim, a CronJob and, in one runtime
-- mode, a Deployment that holds the volume, keeps them in step with the spec, and reports a
-- status. This library models the decisions of the operator.
--
-- The parts, and where they are:
--
-- - Prelude: Go's maps, integers, strings and paths as the source uses them (internal/ptr/ptr.go
--   is deref). A nil pointer is `none`, a map is an association list in which the first pair
--   counts.
-- - Errors: Go's error values: those of the API server, texts, and the wrapped error of
--   ensureOwned.
-- - Kube: the records of k8s.io/api that the operator reads or writes, with the fields that it
--   uses.
-- - Api: api/v1alpha1/common_types.go, backup_types.go and restore_types.go.
-- - Validation: api/v1alpha1/validation.go. Validation/Predicates describes the valid specs
--   without the checks. Validation/Webhook is backup_webhook.go and restore_webhook.go.
-- - Resources: internal/config/config.go, internal/pipeline/embed.go and internal/resources, one
--   module for each file or for each group of functions of defaults.go: what a spec becomes in
--   the cluster. MutateBackupCronJob is mutate_backup_cron_job, and so on.
-- - JobStatus: internal/jobstatus/jobstatus.go, which Job finished last and how it ended.
-- - Controller: internal/controller. Controller/Client holds what the reconcilers call in
--   controller-runtime. Controller/Action is the effect: a state of the cluster, an error or a
--   value, and the list of the requested writes. Controller/Status and Controller/LastJob are
--   status.go and last_job.go, Controller/Owned is owned.go, Controller/Backup is
--   backup_controller.go and Controller/Restore is restore_controller.go, each with
--   reconcile_request as Reconcile; Controller/Report is what they share.
--   Controller/Backup/Table and Controller/Restore/Table describe their checks as decision
--   tables.
-- - Metrics: internal/metrics/collector.go. A scrape is the list of the metrics that Collect
--   sends, in order; Metrics/Descriptions holds the descriptions. A value is an exact number of
--   billionths.
-- - Process: cmd/main.go, the flags, the options of the manager, and the calls up to its start;
--   what a call does is an argument.
-- - Samples: objects and a small cluster on which the theorems are tried, in the modules Tests.
--
-- A reconcile reads the Backup or Restore, passes it through engine, spec (Validation), Secrets
-- and, for a Backup of engine pvc, the source claim, then applies the owned objects
-- (Controller/Owned with the builders of Resources), removes the objects of the old names, waits
-- for the volume holder, and writes a status that includes the last Job (JobStatus). The webhooks
-- use the same Validation.
--
-- What is not in the repository is an argument: the API server with CreateOrUpdate, owner
-- references and the event recorder (Client, over any type of cluster states),
-- meta.SetStatusCondition and deep equality (StatusOps), the parsers of schedules and label
-- selectors and the verb %q (External), the order of quantities (QuantityOps), and the texts of
-- the scripts (Scripts). Where a theorem needs a law of one of these it is a named hypothesis:
-- Controller/Status/Steady.IsLawful, and the order in Resources/Pvc/Growth.
--
-- Integers are the source's int32 and int64 values, which it only compares, prints and copies; no
-- operation on them can overflow. Times are nanoseconds, delays are seconds. All functions are
-- structurally recursive. Only the formatter behind itoa (Prelude/Int) takes fuel, the number
-- itself: each round divides it by ten, so it reaches a single digit before the fuel ends. Log
-- lines, and the read of the legacy claim that only decides one of them, are left out.
--
-- Not modelled: what the Setup functions and Register hand to controller-runtime, the scheme and
-- the logger; the rounding of a metric to float64 and the timeout of a scrape;
-- api/v1alpha1/zz_generated.deepcopy.go, which is generated; the shell scripts of the pipeline,
-- the charts and the manifests.
pub mod Prelude
pub mod Errors
pub mod Kube
pub mod Api
pub mod Validation
pub mod Resources
pub mod JobStatus
pub mod Controller
pub mod Metrics
pub mod Process
pub mod Samples
