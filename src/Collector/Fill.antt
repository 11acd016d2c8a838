-- ===== src/Collector/Fill.antt =====
-- internal/collector/cluster_collector.go, workload_inventory.go and network_collector.go: what each
-- step of `Collect` adds to the snapshot, once its request has been answered.
use mirops.Prelude.{
  ℕ, ◌+◌, String, Bool, true, false, ◌||◌, List, [], ◌∷◌, ◌++◌, map, select, length,
}
use mirops.Prelude.Maps.{Map}
use mirops.Float64.{of_ℕ}
use mirops.Cluster.{ClusterSnapshot, WorkloadPod, Workload}
use mirops.Collector.Objects.{
  Deployment, StatefulSet, DaemonSet, JobObject, Node, DisruptionBudget, Service, Ingress,
  VolumeClaim, ApiResourceList,
}
use mirops.Collector.Walk.{Walk}
use mirops.Collector.Inventory.{
  within, resource, deployment_workload, cpu_capacity, memory_capacity, node_issues, node_workload,
  is_blocking, pdb_issue, is_short, stateful_set_issue, is_unavailable, daemon_set_issue,
  is_job_issue, job_issue, service_ref, ingress_ref, pvc_ref, deprecated_list,
}

unfoldable pub new_snapshot : String → ℕ → ClusterSnapshot
unfolding of_ℕ
new_snapshot version namespaces = record {
  cluster_name = "";
  cluster_version = version;
  namespace_count = namespaces;
  resources = [];
  total_pods = 0;
  not_ready_pods = 0;
  total_restarts = 0;
  pod_issues = [];
  restarting_pods = 0;
  cpu_requests = of_ℕ 0;
  cpu_capacity = of_ℕ 0;
  mem_requests = of_ℕ 0;
  mem_capacity = of_ℕ 0;
  node_issues = [];
  previous_total_pods = 0;
  previous_restarts = 0;
  deprecated_apis = 0;
  deprecated_api_list = [];
  addon_issues = 0;
  pdb_blocking = false;
  pdb_issues = [];
  services = [];
  ingresses = [];
  detected_addons = [];
  workloads = [];
  bare_pods = [];
  pvcs = [];
  node_workloads = [];
  deployment_workloads = [];
  stateful_set_issues = [];
  daemon_set_issues = [];
  job_issues = [];
}

-- What each step adds to the snapshot.

unfoldable pub put_pods : Walk → ClusterSnapshot → ClusterSnapshot
put_pods w snap = record snap {
  total_pods = w.total_pods;
  not_ready_pods = w.not_ready_pods;
  total_restarts = w.total_restarts;
  pod_issues = w.pod_issues;
  restarting_pods = w.restarting_pods;
  cpu_requests = w.cpu_requests;
  mem_requests = w.mem_requests;
  bare_pods = w.bare_pods;
}

-- The collector of deployments knows no scope.
unfoldable pub put_resources : List Deployment → ClusterSnapshot → ClusterSnapshot
put_resources items snap = record snap {
  resources =
      snap.resources ++ map (λ (d : Deployment). resource "Deployment" d.namespace d.name) items;
}

unfoldable pub put_nodes : List Node → ClusterSnapshot → ClusterSnapshot
unfolding cpu_capacity memory_capacity node_issues node_workload
put_nodes items snap = record snap {
  cpu_capacity = cpu_capacity snap.cpu_capacity items;
  mem_capacity = memory_capacity snap.mem_capacity items;
  node_issues = snap.node_issues ++ node_issues items;
  node_workloads = snap.node_workloads ++ map node_workload items;
}

abbrev pub any_blocking : List DisruptionBudget → Bool
any_blocking [] = false
any_blocking (_ ∷ _) = true

unfoldable pub put_deprecated : List ApiResourceList → ClusterSnapshot → ClusterSnapshot
unfolding deprecated_list
put_deprecated lists snap = record snap {
  deprecated_apis = snap.deprecated_apis + length (deprecated_list lists);
  deprecated_api_list = snap.deprecated_api_list ++ deprecated_list lists;
}

module _ (excluded : Map Bool) where
  unfoldable pub put_deployments :
      Map (List WorkloadPod) → List Deployment → ClusterSnapshot → ClusterSnapshot
  unfolding deployment_workload
  put_deployments pods items snap = record snap {
    deployment_workloads =
        snap.deployment_workloads
        ++ map (deployment_workload pods) (within (λ (d : Deployment). d.namespace) excluded items);
  }

  unfoldable pub put_budgets : List DisruptionBudget → ClusterSnapshot → ClusterSnapshot
  put_budgets items snap =
      let blocking =
        select is_blocking (within (λ (b : DisruptionBudget). b.namespace) excluded items) in
      record snap {
        pdb_blocking = snap.pdb_blocking || any_blocking blocking;
        pdb_issues = snap.pdb_issues ++ map pdb_issue blocking;
      }

  unfoldable pub put_stateful_sets :
      Map (List WorkloadPod) → List StatefulSet → ClusterSnapshot → ClusterSnapshot
  put_stateful_sets pods items snap =
      let kept = within (λ (s : StatefulSet). s.namespace) excluded items in
      record snap {
        resources =
            snap.resources
            ++ map (λ (s : StatefulSet). resource "StatefulSet" s.namespace s.name) kept;
        stateful_set_issues =
            snap.stateful_set_issues ++ map (stateful_set_issue pods) (select is_short kept);
      }

  unfoldable pub put_daemon_sets :
      Map (List WorkloadPod) → List DaemonSet → ClusterSnapshot → ClusterSnapshot
  put_daemon_sets pods items snap =
      let kept = within (λ (d : DaemonSet). d.namespace) excluded items in
      record snap {
        resources =
            snap.resources ++ map (λ (d : DaemonSet). resource "DaemonSet" d.namespace d.name) kept;
        daemon_set_issues =
            snap.daemon_set_issues ++ map (daemon_set_issue pods) (select is_unavailable kept);
      }

  unfoldable pub put_jobs :
      Map (List WorkloadPod) → List JobObject → ClusterSnapshot → ClusterSnapshot
  unfolding job_issue
  put_jobs pods items snap = record snap {
    job_issues =
        snap.job_issues
        ++ map (job_issue pods)
            (select is_job_issue (within (λ (j : JobObject). j.namespace) excluded items));
  }

  unfoldable pub put_services : List Service → ClusterSnapshot → ClusterSnapshot
  put_services items snap = record snap {
    services =
        snap.services ++ map service_ref (within (λ (s : Service). s.namespace) excluded items);
  }

  unfoldable pub put_ingresses : List Ingress → ClusterSnapshot → ClusterSnapshot
  unfolding ingress_ref
  put_ingresses items snap = record snap {
    ingresses =
        snap.ingresses ++ map ingress_ref (within (λ (i : Ingress). i.namespace) excluded items);
  }

  unfoldable pub put_claims :
      Map String × String → List VolumeClaim → ClusterSnapshot → ClusterSnapshot
  unfolding pvc_ref
  put_claims classes items snap = record snap {
    pvcs =
        snap.pvcs
        ++ map (pvc_ref classes) (within (λ (c : VolumeClaim). c.namespace) excluded items);
  }

  -- One of the five loops of the inventory.
  unfoldable pub put_workloads :
      {A : Type 0} → (A → String) → (A → Workload) → List A → ClusterSnapshot → ClusterSnapshot
  put_workloads namespace entry items snap = record snap {
    workloads = snap.workloads ++ map entry (within namespace excluded items);
  }
