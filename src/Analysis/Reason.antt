-- ===== src/Analysis/Reason.antt =====
-- internal/analysis/score.go: the one-line reason of a report. Each function is one of the tests of
-- `buildReason` with all that follow it.
use mirops.Prelude.{
  String, ◌<>◌, Bool, true, false, List, [], ◌∷◌, map, ltb, length, count_if, ◌==◌, if◌then◌else◌,
}
use mirops.Prelude.Text.{decimal, join}
use mirops.Float64.{Float64, of_ℕ, ◌*F◌, format0}
use mirops.Cluster.{
  PodIssue, NodeIssue, StatefulSetIssue, DaemonSetIssue, JobIssue, PdbIssue, ClusterSnapshot,
}
use mirops.Analysis.{Conditions, Metrics}
use mirops.Analysis.Issues.{job_failed}

abbrev pub percent : Float64 → String
unfolding format0 of_ℕ ◌*F◌
percent x = format0 (x *F of_ℕ 100) <> "%"

compatibility_reason : String → Metrics → String
compatibility_reason level m =
    if ltb 0 m.compatibility.deprecated_apis
    then "Risk detected: " <> decimal m.compatibility.deprecated_apis <> " deprecated API(s) in use"
    else if ltb 0 m.compatibility.addon_issues
    then "Risk detected: " <> decimal m.compatibility.addon_issues <> " addon issue(s)"
    else if level == "SAFE"
    then "Cluster is ready for upgrade"
    else "Cluster upgrade requires attention"

job_reason : List JobIssue → String → String
job_reason [] rest = rest
job_reason (j ∷ js) rest =
    let failed = count_if job_failed (j ∷ js) in
    if ltb 0 failed
    then decimal failed <> " job(s) failed after exhausting retries"
    else decimal (length (j ∷ js)) <> " active job(s) may be interrupted during upgrade"

daemon_set_reason : List DaemonSetIssue → String → String
daemon_set_reason [] rest = rest
daemon_set_reason (ds ∷ _) rest =
    "DaemonSet "
    <> ds.namespace
    <> "/"
    <> ds.name
    <> " has "
    <> decimal ds.number_unavailable
    <> " unavailable pod(s)"

stateful_set_reason : List StatefulSetIssue → String → String
stateful_set_reason [] rest = rest
stateful_set_reason (ss ∷ _) rest =
    "StatefulSet "
    <> ss.namespace
    <> "/"
    <> ss.name
    <> " not fully ready ("
    <> decimal ss.ready_replicas
    <> "/"
    <> decimal ss.total_replicas
    <> " replicas)"

abbrev pod_message : PodIssue → String
pod_message p = p.namespace <> "/" <> p.name <> " (" <> p.reason <> ")"

pod_reason : Bool → List PodIssue → String → String
pod_reason false ps rest = rest
pod_reason true [] rest = rest
pod_reason true (p ∷ ps) rest =
    decimal (length (p ∷ ps)) <> " pod(s) not ready: " <> join (map pod_message (p ∷ ps)) ", "

abbrev node_message : NodeIssue → String
node_message n = n.name <> " (" <> n.reason <> ")"

node_reason : List NodeIssue → String → String
node_reason [] rest = rest
node_reason (n ∷ ns) rest =
    decimal (length (n ∷ ns)) <> " node(s) with issues: " <> join (map node_message (n ∷ ns)) ", "

pdb_reason : Bool → List PdbIssue → String → String
pdb_reason false ps rest = rest
pdb_reason true [] rest = "Blocked by PodDisruptionBudget"
pdb_reason true (p ∷ _) rest = "Blocked by PodDisruptionBudget " <> p.namespace <> "/" <> p.name

unfoldable pub build_reason : String → Conditions → Metrics → ClusterSnapshot → String
unfolding pdb_reason node_reason pod_reason stateful_set_reason daemon_set_reason job_reason
    compatibility_reason
build_reason level c m snap =
    let from_jobs = job_reason snap.job_issues (compatibility_reason level m) in
    let from_sets =
      stateful_set_reason snap.stateful_set_issues
        (daemon_set_reason snap.daemon_set_issues from_jobs) in
    let from_pods = pod_reason c.unstable_cluster snap.pod_issues from_sets in
    let from_pressure =
      if c.high_cpu_pressure
      then "High CPU pressure detected (" <> percent m.resources.cpu_pressure <> " of capacity)"
      else if c.high_memory_pressure
      then "High memory pressure detected ("
        <> percent m.resources.memory_pressure
        <> " of capacity)"
      else from_pods in
    pdb_reason c.pdb_blocking snap.pdb_issues (node_reason snap.node_issues from_pressure)
