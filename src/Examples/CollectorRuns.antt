-- ===== src/Examples/CollectorRuns.antt =====
-- The theorems on the collector's status texts, applied to a workload and a job.
use mirops.Prelude.{◌≡◌, [], ◌∷◌, ltb, leb, eqb, count_if, if◌then◌else◌}
use mirops.Prelude.Maps.{empty}
use mirops.Graph.{Component, workload}
use mirops.Graph.Risk.{base_risk}
use mirops.Collector.{Job, replica_status, is_failure, job_status}
use mirops.Collector.Status.{with_status, replica_status-base_risk, job_status-base_risk}

abbrev web : Component
web = record {
  id = "Deployment/shop/web";
  kind = "Deployment";
  name = "web";
  namespace = "shop";
  type = workload;
  version = "";
  status = "";
  risk = 0;
}

replica_status_example :
    base_risk (with_status web (replica_status 1 3)) empty
    ≡ (if eqb 3 0 then 10 else if leb 3 1 then 0 else if eqb 1 0 then 70 else 40)
replica_status_example = replica_status-base_risk web empty 1 3

abbrev failed_job : Job
failed_job = record {
  active = 0;
  succeeded = 0;
  conditions = record { type = "Failed"; status = "True"; reason = "BackoffLimitExceeded" } ∷ [];
}

job_status_example :
    base_risk (with_status web (job_status failed_job)) empty
    ≡ (if ltb 0 (count_if is_failure failed_job.conditions) then 70 else 0)
job_status_example = job_status-base_risk web empty failed_job
