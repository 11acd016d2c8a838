-- ===== src/Analysis/Issues.antt =====
-- internal/analysis/score.go: what a report lists as issues.
pub mod Count
pub mod Problems
use mirops.Prelude.{ℕ, String, ◌<>◌, Bool, not, List, [], ◌∷◌, ◌++◌, map, select, ◌==◌}
use mirops.Prelude.Text.{decimal}
use mirops.Cluster.{
  PodIssue, NodeIssue, StatefulSetIssue, DaemonSetIssue, JobIssue, PdbIssue, DeprecatedApi,
  ClusterSnapshot, job_status_failed,
}

abbrev pub job_failed : JobIssue → Bool
job_failed j = j.status == job_status_failed

abbrev pub pod_line : PodIssue → String
pod_line p =
    "pod "
    <> p.namespace
    <> "/"
    <> p.name
    <> ": "
    <> p.reason
    <> " (restarts: "
    <> decimal p.restarts
    <> ")"

abbrev pub node_line : NodeIssue → String
node_line n = "node " <> n.name <> ": " <> n.reason

abbrev pub stateful_set_line : StatefulSetIssue → String
stateful_set_line ss =
    "statefulset "
    <> ss.namespace
    <> "/"
    <> ss.name
    <> ": "
    <> decimal ss.ready_replicas
    <> "/"
    <> decimal ss.total_replicas
    <> " replicas ready"

abbrev pub daemon_set_line : DaemonSetIssue → String
daemon_set_line ds =
    "daemonset "
    <> ds.namespace
    <> "/"
    <> ds.name
    <> ": "
    <> decimal ds.number_unavailable
    <> " pod(s) unavailable"

abbrev pub failed_job_line : JobIssue → String
failed_job_line j = "job " <> j.namespace <> "/" <> j.name <> ": failed (" <> j.reason <> ")"

abbrev pub running_job_line : JobIssue → String
running_job_line j =
    "job "
    <> j.namespace
    <> "/"
    <> j.name
    <> ": "
    <> decimal j.active
    <> " active pod(s) may be interrupted"

abbrev pub pdb_line : PdbIssue → String
pdb_line p = "pdb " <> p.namespace <> "/" <> p.name <> ": would block drain"

abbrev pub api_line : DeprecatedApi → String
api_line a =
    "deprecated API " <> a.resource <> " (" <> a.version <> ") removed in k8s " <> a.removed_in

unfoldable pub state_issues : ClusterSnapshot → List String
state_issues snap =
    map pod_line snap.pod_issues
    ++ map node_line snap.node_issues
    ++ map stateful_set_line snap.stateful_set_issues
    ++ map daemon_set_line snap.daemon_set_issues
    ++ map failed_job_line (select job_failed snap.job_issues)

abbrev pub job_running : JobIssue → Bool
job_running j = not (job_failed j)

unfoldable pub build_issues : ClusterSnapshot → List String
unfolding state_issues
build_issues snap =
    state_issues snap
    ++ map pdb_line snap.pdb_issues
    ++ map running_job_line (select job_running snap.job_issues)
    ++ map api_line snap.deprecated_api_list
