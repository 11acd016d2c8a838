-- ===== src/Collector/Scoped/Whole.antt =====
-- What the collector returns lies in its scope.
use mirops.Prelude.{◌≡◌, refl, arith, String, List, ok}
use mirops.Prelude.Maps.{Map}
use mirops.Cluster.{ClusterSnapshot}
use mirops.Collector.Objects.{Api, Deployment, StatefulSet, DaemonSet, JobObject, CronJob}
use mirops.Collector.Inventory.{
  deployment_entry, stateful_set_entry, daemon_set_entry, job_entry, cron_job_entry,
}
use mirops.Collector.Walk.{Scope, excluded_of, new_walk}
use mirops.Collector.Collect.{collect}
use mirops.Collector.Outcomes.{Ensures-ok}
use mirops.Collector.Kept.{IsKept, collect-Ensures}
use mirops.Collector.Scoped.{IsExcluded, not-IsExcluded}
use mirops.Collector.Scoped.Pods.{new_walk-WalkInside, walk_pods-WalkInside}
use mirops.Collector.Scoped.Steps.{
  LiesInside, new_snapshot-LiesInside, put_pods-LiesInside, put_resources-LiesInside,
  put_nodes-LiesInside, put_deprecated-LiesInside, put_deployments-LiesInside,
  put_budgets-LiesInside, put_stateful_sets-LiesInside, put_daemon_sets-LiesInside,
  put_jobs-LiesInside, put_services-LiesInside, put_ingresses-LiesInside, put_claims-LiesInside,
  put_workloads-LiesInside,
}

-- An entry of the inventory keeps its namespace.

deployment_kept :
    (nodes : Map (List String)) (d : Deployment)
    → (deployment_entry nodes d).namespace ≡ d.namespace
unfolding deployment_entry
deployment_kept nodes d = refl

stateful_set_kept :
    (nodes : Map (List String)) (t : StatefulSet)
    → (stateful_set_entry nodes t).namespace ≡ t.namespace
unfolding stateful_set_entry
stateful_set_kept nodes t = refl

daemon_set_kept :
    (nodes : Map (List String)) (d : DaemonSet) → (daemon_set_entry nodes d).namespace ≡ d.namespace
unfolding daemon_set_entry
daemon_set_kept nodes d = refl

job_kept : (nodes : Map (List String)) (j : JobObject) → (job_entry nodes j).namespace ≡ j.namespace
unfolding job_entry
job_kept nodes j = refl

cron_job_kept :
    (nodes : Map (List String)) (c : CronJob) → (cron_job_entry nodes c).namespace ≡ c.namespace
unfolding cron_job_entry
cron_job_kept nodes c = refl

module _ (scope : Scope) where
  LiesInside-IsKept : IsKept (excluded_of scope) (LiesInside (λ ns. ¬ IsExcluded scope ns))
  LiesInside-IsKept =
      let O = λ (ns : String). ¬ IsExcluded scope ns in
      let e = excluded_of scope in
      let i = not-IsExcluded scope in
      record {
        resources = put_resources-LiesInside O;
        nodes = put_nodes-LiesInside O;
        deprecated = put_deprecated-LiesInside O;
        addons = λ found snap h. ground arith;
        deployments = put_deployments-LiesInside O e i;
        budgets = put_budgets-LiesInside O e i;
        stateful_sets = put_stateful_sets-LiesInside O e i;
        daemon_sets = put_daemon_sets-LiesInside O e i;
        jobs = put_jobs-LiesInside O e i;
        services = put_services-LiesInside O e i;
        ingresses = put_ingresses-LiesInside O e i;
        claims = put_claims-LiesInside O e i;
        deployments_listed = λ nodes. put_workloads-LiesInside O e i _ _ (deployment_kept nodes);
        stateful_sets_listed =
            λ nodes. put_workloads-LiesInside O e i _ _ (stateful_set_kept nodes);
        daemon_sets_listed = λ nodes. put_workloads-LiesInside O e i _ _ (daemon_set_kept nodes);
        jobs_listed = λ nodes. put_workloads-LiesInside O e i _ _ (job_kept nodes);
        cron_jobs_listed = λ nodes. put_workloads-LiesInside O e i _ _ (cron_job_kept nodes);
      }

-- Whatever the server answers: if the collector returns a snapshot, then no pod issue, bare pod,
-- deployment, disruption budget, stateful or daemon set, job, service, ingress, workload or volume
-- claim of it lies in a namespace that the scope names or, in the mode `application`, in one of the
-- system's.
pub collect-LiesInside :
    (A : Api) (scope : Scope) (s : A.State) (snap : ClusterSnapshot)
    → (collect A scope s).0 ≡ ok snap
    → LiesInside (λ ns. ¬ IsExcluded scope ns) snap
collect-LiesInside A scope s snap e =
    let O = λ (ns : String). ¬ IsExcluded scope ns in
    Ensures-ok A (LiesInside O) (collect A scope s) snap
      (collect-Ensures A scope (LiesInside O) (LiesInside-IsKept scope)
        (λ rs pods version n t.
          put_pods-LiesInside O _ _
            (walk_pods-WalkInside O (excluded_of scope) (not-IsExcluded scope) A rs pods new_walk t
              (new_walk-WalkInside O))
            (new_snapshot-LiesInside O version n))
        s)
      e
