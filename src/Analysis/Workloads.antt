-- ===== src/Analysis/Workloads.antt =====
-- internal/analysis/score.go and mirror_report.go: the workloads of the two reports.
use mirops.Prelude.{Bool, [], map, select, ◌==◌}
use mirops.Cluster.{
  WorkloadPod, NodeWorkload, DeploymentWorkload, StatefulSetIssue, DaemonSetIssue, JobIssue,
  PdbIssue, PvcRef, BarePod, DeprecatedApi, ClusterSnapshot, job_status_failed,
}
use mirops.Analysis.{
  NodeReport, WorkloadPodReport, DeploymentReport, StatefulSetReport, DaemonSetReport, JobReport,
  PdbReport, PvcReport, BarePodReport, DeprecatedApiReport, ReportWorkloads,
}

abbrev pod_report : WorkloadPod → WorkloadPodReport
pod_report p = record { name = p.name; reason = p.reason; restarts = p.restarts }

abbrev node_report : NodeWorkload → NodeReport
node_report n = record { name = n.name; status = n.status; conditions = n.conditions }

abbrev deployment_report : DeploymentWorkload → DeploymentReport
deployment_report d = record {
  namespace = d.namespace;
  name = d.name;
  ready_replicas = d.ready_replicas;
  desired_replicas = d.desired_replicas;
  pods = map pod_report d.pods;
}

abbrev stateful_set_report : StatefulSetIssue → StatefulSetReport
stateful_set_report ss = record {
  namespace = ss.namespace;
  name = ss.name;
  ready_replicas = ss.ready_replicas;
  desired_replicas = ss.total_replicas;
  pods = map pod_report ss.pods;
}

abbrev daemon_set_report : DaemonSetIssue → DaemonSetReport
daemon_set_report ds = record {
  namespace = ds.namespace;
  name = ds.name;
  number_unavailable = ds.number_unavailable;
  pods = map pod_report ds.pods;
}

abbrev pub job_report : JobIssue → JobReport
job_report j = record {
  namespace = j.namespace;
  name = j.name;
  active = j.active;
  status = j.status;
  reason = j.reason;
  pods = map pod_report j.pods;
}

abbrev pdb_report : PdbIssue → PdbReport
pdb_report p = record { namespace = p.namespace; name = p.name }

abbrev pvc_report : PvcRef → PvcReport
pvc_report p = record {
  namespace = p.namespace;
  name = p.name;
  storage_class = p.storage_class;
  phase = p.phase;
}

abbrev bare_pod_report : BarePod → BarePodReport
bare_pod_report p = record { namespace = p.namespace; name = p.name; status = p.status }

abbrev api_report : DeprecatedApi → DeprecatedApiReport
api_report a = record {
  group = a.group;
  version = a.version;
  resource = a.resource;
  removed_in = a.removed_in;
}

unfoldable pub build_workloads : ClusterSnapshot → ReportWorkloads
build_workloads snap = record {
  nodes = map node_report snap.node_workloads;
  deployments = map deployment_report snap.deployment_workloads;
  stateful_sets = map stateful_set_report snap.stateful_set_issues;
  daemon_sets = map daemon_set_report snap.daemon_set_issues;
  jobs = map job_report snap.job_issues;
  pdbs = map pdb_report snap.pdb_issues;
  pvcs = map pvc_report snap.pvcs;
  bare_pods = map bare_pod_report snap.bare_pods;
  deprecated_apis = map api_report snap.deprecated_api_list;
}

abbrev pub report_failed : JobReport → Bool
report_failed j = j.status == job_status_failed

-- The workloads without what only matters to an upgrade.
unfoldable pub state_workloads : ClusterSnapshot → ReportWorkloads
unfolding build_workloads
state_workloads snap =
    let w = build_workloads snap in
    record w { pdbs = []; deprecated_apis = []; jobs = select report_failed w.jobs }
