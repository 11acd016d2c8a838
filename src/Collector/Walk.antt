-- ===== src/Collector/Walk.antt =====
-- internal/collector/cluster_collector.go: the loop over the pods. Go's snapshot and maps, which
-- the loop changes, are the record `Walk`.
use mathlib.Core.List.{foldl}
use mirops.Prelude.{
  ℕ, ◌+◌, String, ◌<>◌, Bool, true, false, not, ◌&&◌, Option, none, some, List, [], ◌∷◌, ◌++◌, ◌==◌,
  if◌then◌else◌,
}
use mirops.Prelude.Maps.{Map, empty, insert, get_or, append_at}
use mirops.Float64.{Float64, of_ℕ, ◌+F◌}
use mirops.Cluster.{PodIssue, WorkloadPod, BarePod}
use mirops.Collector.Objects.{OwnerReference, Container, Pod, ReplicaSet, Api}
use mirops.Collector.Pods.{
  is_pod_ready, pod_not_ready_reason, total_restarts, is_restarting_abnormally, resolve_workload,
  key2,
}
use mirops.Collector.Specs.{add_key}

pub record Scope : Type 0 where
  pub mode : String
  pub exclude_namespaces : List String

abbrev pub system_namespaces : List String
system_namespaces = "kube-system" ∷ "kube-public" ∷ "kube-node-lease" ∷ []

abbrev pub mark : Map Bool → String → Map Bool
mark m ns = insert ns true m

unfoldable pub excluded_of : Scope → Map Bool
excluded_of scope =
    let asked = foldl mark empty scope.exclude_namespaces in
    if scope.mode == "application" then foldl mark asked system_namespaces else asked

abbrev pub in_scope : Map Bool → String → Bool
in_scope excluded ns = not (get_or excluded ns false)

-- The first owner that is a Deployment.
unfoldable pub owning_deployment : List OwnerReference → Option String
owning_deployment [] = none
owning_deployment (ref ∷ rest) =
    let more = owning_deployment rest in if ref.kind == "Deployment" then some ref.name else more

abbrev add_replica_set : Map String → ReplicaSet → Map String
add_replica_set m rs = elim (owning_deployment rs.owners) [
  | none ↦ m
  | some d ↦ insert (key2 rs.namespace rs.name) d m
]

unfoldable pub rs_to_deploy_map : List ReplicaSet → Map String
unfolding owning_deployment
rs_to_deploy_map = foldl add_replica_set empty

-- The fields of the snapshot that the loop fills, and the maps beside it.
pub record Walk : Type 0 where
  pub total_pods : ℕ
  pub not_ready_pods : ℕ
  pub total_restarts : ℕ
  pub restarting_pods : ℕ
  pub cpu_requests : Float64
  pub mem_requests : Float64
  pub pod_issues : List PodIssue
  pub bare_pods : List BarePod
  pub by_deployment : Map (List WorkloadPod)
  pub by_stateful_set : Map (List WorkloadPod)
  pub by_daemon_set : Map (List WorkloadPod)
  pub by_job : Map (List WorkloadPod)
  pub nodes_by_workload : Map (List String)

unfoldable pub new_walk : Walk
unfolding of_ℕ
new_walk = record {
  total_pods = 0;
  not_ready_pods = 0;
  total_restarts = 0;
  restarting_pods = 0;
  cpu_requests = of_ℕ 0;
  mem_requests = of_ℕ 0;
  pod_issues = [];
  bare_pods = [];
  by_deployment = empty;
  by_stateful_set = empty;
  by_daemon_set = empty;
  by_job = empty;
  nodes_by_workload = empty;
}

abbrev add_request : Float64 → Option ℕ → Float64
add_request sum none = sum
add_request sum (some quantity) = sum +F of_ℕ quantity

unfoldable pub add_cpu : Float64 → List Container → Float64
unfolding ◌+F◌ of_ℕ
add_cpu = foldl (λ sum (c : Container). add_request sum c.cpu_request)

unfoldable pub add_memory : Float64 → List Container → Float64
unfolding ◌+F◌ of_ℕ
add_memory = foldl (λ sum (c : Container). add_request sum c.memory_request)

unfoldable pub add_pod_node : Map (List String) → Option (String × String) → Pod → Map (List String)
unfolding add_key
add_pod_node nodes none pod = nodes
add_pod_node nodes (some (kind, name)) pod =
    let key = kind <> ("/" <> key2 pod.namespace name) in
    insert key (add_key pod.spec.node_name (get_or nodes key [])) nodes

unfoldable pub record_pod_node : Pod → Map String → Map (List String) → Map (List String)
unfolding resolve_workload add_pod_node
record_pod_node pod rs_to_deploy nodes =
    if pod.spec.node_name == ""
    then nodes
    else add_pod_node nodes (resolve_workload pod rs_to_deploy) pod

-- The maps in which a pod that is not ready may be filed.
pub data Shelf : Type 0 where
  deployments stateful_sets daemon_sets jobs : Shelf

-- The cases of the switch on the owner's kind: the map and the key. A ReplicaSet without a
-- Deployment leads nowhere.
unfoldable pub destination : Map String → String → OwnerReference → Option (Shelf × String)
destination rs_to_deploy namespace ref =
    let key = key2 namespace ref.name in
    if ref.kind == "ReplicaSet"
    then (elim (rs_to_deploy key) [ none ↦ none | some d ↦ some (deployments, key2 namespace d) ])
    else if ref.kind == "StatefulSet"
    then some (stateful_sets, key)
    else if ref.kind == "DaemonSet"
    then some (daemon_sets, key)
    else if ref.kind == "Job"
    then some (jobs, key)
    else none

unfoldable pub shelve : WorkloadPod → Walk → Option (Shelf × String) → Walk
shelve wp w none = w
shelve wp w (some (deployments, key)) = record w {
  by_deployment = append_at key wp w.by_deployment;
}
shelve wp w (some (stateful_sets, key)) = record w {
  by_stateful_set = append_at key wp w.by_stateful_set;
}
shelve wp w (some (daemon_sets, key)) = record w {
  by_daemon_set = append_at key wp w.by_daemon_set;
}
shelve wp w (some (jobs, key)) = record w { by_job = append_at key wp w.by_job }

-- One round of the loop over the owners of a pod that is not ready.
unfoldable pub file_under : Pod → WorkloadPod → Map String → Walk → OwnerReference → Walk
unfolding destination shelve
file_under pod wp rs_to_deploy w ref = shelve wp w (destination rs_to_deploy pod.namespace ref)

unfoldable pub group_not_ready_pod : Pod → WorkloadPod → Map String → Walk → Walk
unfolding file_under
group_not_ready_pod pod wp rs_to_deploy w = foldl (file_under pod wp rs_to_deploy) w pod.owners

abbrev pub pod_issue : Pod → PodIssue
pod_issue pod = record {
  namespace = pod.namespace;
  name = pod.name;
  reason = pod_not_ready_reason pod;
  restarts = total_restarts pod.container_statuses;
}

abbrev pub workload_pod : Pod → WorkloadPod
workload_pod pod = record {
  name = pod.name;
  reason = pod_not_ready_reason pod;
  restarts = total_restarts pod.container_statuses;
}

abbrev pub bare_pod : Pod → BarePod
bare_pod pod = record {
  namespace = pod.namespace;
  name = pod.name;
  status = if is_pod_ready pod then "Running" else "Down";
}

abbrev pub has_owner : Pod → Bool
has_owner pod = elim pod.owners [ [] ↦ false | _ ∷ _ ↦ true ]

-- What is counted of each pod.
unfoldable pub count_pod : Pod → ℕ → Map String → Walk → Walk
unfolding total_restarts add_cpu add_memory is_restarting_abnormally record_pod_node
count_pod pod at rs_to_deploy w = record w {
  total_pods = w.total_pods + 1;
  total_restarts = w.total_restarts + total_restarts pod.container_statuses;
  cpu_requests = add_cpu w.cpu_requests pod.spec.containers;
  mem_requests = add_memory w.mem_requests pod.spec.containers;
  restarting_pods =
      if is_restarting_abnormally pod at then w.restarting_pods + 1 else w.restarting_pods;
  nodes_by_workload = record_pod_node pod rs_to_deploy w.nodes_by_workload;
}

unfoldable pub mirror_bare : Pod → Walk → Walk
unfolding is_pod_ready
mirror_bare pod w =
    if has_owner pod then w else record w { bare_pods = w.bare_pods ++ bare_pod pod ∷ [] }

unfoldable pub report_not_ready : Pod → Map String → Walk → Walk
unfolding is_pod_ready pod_not_ready_reason total_restarts group_not_ready_pod
report_not_ready pod rs_to_deploy w =
    if is_pod_ready pod
    then w
    else group_not_ready_pod pod (workload_pod pod) rs_to_deploy (record w {
      not_ready_pods = w.not_ready_pods + 1;
      pod_issues = w.pod_issues ++ pod_issue pod ∷ [];
    })

-- The pods that the loop does not leave out: a pod that has succeeded is done.
abbrev pub is_counted : Map Bool → Pod → Bool
is_counted excluded pod = in_scope excluded pod.namespace && not (pod.phase == "Succeeded")

unfoldable pub visit_pod : Map Bool → Map String → ℕ → Walk → Pod → Walk
unfolding count_pod mirror_bare report_not_ready
visit_pod excluded rs_to_deploy at w pod =
    if is_counted excluded pod
    then report_not_ready pod rs_to_deploy (mirror_bare pod (count_pod pod at rs_to_deploy w))
    else w

module _ (A : Api) where
  open A use {State, now}

  -- The clock is read for each pod that is counted.
  abbrev pub tick : Bool → State → ℕ × State
  tick true s = now s
  tick false s = (0, s)

  unfoldable pub walk_pods : Map Bool → Map String → List Pod → Walk → State → Walk × State
  unfolding visit_pod
  walk_pods excluded rs_to_deploy [] w s = (w, s)
  walk_pods excluded rs_to_deploy (pod ∷ rest) w s =
      let (at, t) = tick (is_counted excluded pod) s in
      walk_pods excluded rs_to_deploy rest (visit_pod excluded rs_to_deploy at w pod) t
