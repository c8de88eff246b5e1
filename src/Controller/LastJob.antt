-- ===== src/Controller/LastJob.antt =====
-- internal/controller/last_job.go
pub mod Owner
pub mod Stamped
use karkive.Prelude.{
  String, StringMap, not, Option, none, some, List, [], ◌∷◌, ◌==◌, get_or_empty, if◌then◌else◌,
}
use karkive.Errors.{Result, ok, err}
use karkive.Kube.Meta.{ObjectMeta}
use karkive.Kube.Objects.{Job}
use karkive.Api.Common.{LastJobStatus}
use karkive.Resources.Labels.{label_kind, label_app_managed_by, managed_by}
use karkive.JobStatus.{summarize, last_finished}
use karkive.Controller.Client.{ObjectKey, Client}

-- The handler that mapJobToOwner returns.
unfoldable pub map_job_to_owner : String → String → ObjectMeta → List ObjectKey
map_job_to_owner kind name_label obj =
    let name = get_or_empty name_label obj.labels in
    if not (get_or_empty label_kind obj.labels == kind)
    then []
    else if name == ""
    then []
    else record { namespace = obj.namespace; name = name } ∷ []

-- The rest of lastJobStatus, at what List returned.
unfoldable pub last_job_of :
    Result (List Job) → String → String → String → String → Option LastJobStatus
last_job_of (err e) namespace name_label name kind = none
last_job_of (ok jobs) namespace name_label name kind =
    summarize (last_finished namespace name_label name kind jobs)

unfoldable pub last_job_status :
    {W : Type 0} → Client W → String → String → String → String → W → Option LastJobStatus
unfolding last_job_of
last_job_status client namespace name_label name kind w =
    last_job_of
      (client.list_jobs namespace
        ((label_app_managed_by, managed_by) ∷ (label_kind, kind) ∷ (name_label, name) ∷ []) w)
      namespace name_label name kind
