-- ===== src/Collector/Inventory.antt =====
-- internal/collector/cluster_collector.go, workload_inventory.go and network_collector.go: what
-- the collector makes of each listed object. A loop that skips the objects of excluded namespaces is
-- `within`.
mod Network
mod Storage
mod Deprecated
unfoldable pub use Network.*
unfoldable pub use Storage.*
unfoldable pub use Deprecated.*
use mathlib.Core.List.{foldl}
use mirops.Prelude.{
  ℕ, String, ◌<>◌, Bool, false, not, ◌&&◌, ◌||◌, Option, none, some, List, [], ◌∷◌, ◌++◌, map,
  select, ltb, eqb, ◌==◌, if◌then◌else◌,
}
use mirops.Prelude.Maps.{Map, empty, insert, get_or}
use mirops.Float64.{Float64, of_ℕ, ◌+F◌}
use mirops.Cluster.{
  ResourceRef, NodeIssue, PdbIssue, WorkloadPod, NodeWorkload, DeploymentWorkload, StatefulSetIssue,
  DaemonSetIssue, JobIssue, DeprecatedApi, ServiceRef, IngressRef, PvcRef, Workload,
  job_status_active, job_status_failed,
}
use mirops.Graph.Build.{label}
use mirops.Collector.{replica_status, job_failed_reason, job_status}
use mirops.Collector.Objects.{
  Condition, Deployment, StatefulSet, DaemonSet, JobObject, CronJob, Node, DisruptionBudget,
  Service, Backend, Ingress, VolumeClaim, StorageClass, ApiResource, ApiResourceList,
}
use mirops.Collector.Pods.{key2}
use mirops.Collector.Specs.{
  Seen, nothing_seen, note, pod_spec_config_refs, uses_istio_sidecar, new_workload, sorted_keys,
}
use mirops.Collector.Walk.{in_scope}

module _ {A : Type 0} (namespace : A → String) where
  abbrev pub within : Map Bool → List A → List A
  within excluded = select (λ x. in_scope excluded (namespace x))

abbrev pub or_one : Option ℕ → ℕ
or_one none = 1
or_one (some n) = n

abbrev pub resource : String → String → String → ResourceRef
resource kind namespace name = record {
  namespace = namespace;
  name = name;
  api_version = "apps/v1";
  kind = kind;
}

unfoldable pub deployment_workload : Map (List WorkloadPod) → Deployment → DeploymentWorkload
unfolding pod_spec_config_refs uses_istio_sidecar
deployment_workload pods d = record {
  namespace = d.namespace;
  name = d.name;
  ready_replicas = d.ready_replicas;
  desired_replicas = or_one d.replicas;
  pods = get_or pods (key2 d.namespace d.name) [];
  pod_labels = d.template.labels;
  config_refs = pod_spec_config_refs d.template.spec;
  nodes = [];
  uses_istio_sidecar = uses_istio_sidecar d.template.labels d.template.annotations;
}

-- Nodes are the cluster's: no scope leaves one out.

abbrev add_quantity : Float64 → Option ℕ → Float64
add_quantity sum none = sum
add_quantity sum (some quantity) = sum +F of_ℕ quantity

unfoldable pub cpu_capacity : Float64 → List Node → Float64
unfolding ◌+F◌ of_ℕ
cpu_capacity = foldl (λ sum (n : Node). add_quantity sum n.cpu)

unfoldable pub memory_capacity : Float64 → List Node → Float64
unfolding ◌+F◌ of_ℕ
memory_capacity = foldl (λ sum (n : Node). add_quantity sum n.memory)

abbrev pressure_type : String → List String
pressure_type type =
    if (type == "MemoryPressure") || ((type == "DiskPressure") || (type == "PIDPressure"))
    then type ∷ []
    else []

-- The first loop over a node's conditions.
unfoldable pub pressures : List Condition → List String
pressures [] = []
pressures (c ∷ rest) =
    (if not (c.status == "True") then [] else pressure_type c.type) ++ pressures rest

abbrev pub is_unready : Condition → Bool
is_unready c = (c.type == "Ready") && not (c.status == "True")

-- The second loop.
unfoldable pub unready : List Condition → List String
unready cs = map (λ _. "NotReady") (select is_unready cs)

unfoldable pub node_conditions : Node → List String
unfolding pressures unready
node_conditions n = pressures n.conditions ++ unready n.conditions

unfoldable pub node_issues : List Node → List NodeIssue
unfolding node_conditions
node_issues [] = []
node_issues (n ∷ rest) =
    map (λ reason. record { name = n.name; reason = reason }) (node_conditions n)
    ++ node_issues rest

abbrev any_unready : List Condition → Bool
any_unready [] = false
any_unready (c ∷ rest) = is_unready c || any_unready rest

unfoldable pub node_workload : Node → NodeWorkload
unfolding node_conditions
node_workload n = record {
  name = n.name;
  status = if any_unready n.conditions then "NotReady" else "Ready";
  conditions = node_conditions n;
}

abbrev pub is_blocking : DisruptionBudget → Bool
is_blocking b = eqb b.disruptions_allowed 0

abbrev pub pdb_issue : DisruptionBudget → PdbIssue
pdb_issue b = record { namespace = b.namespace; name = b.name }

abbrev pub is_short : StatefulSet → Bool
is_short s = ltb s.ready_replicas (or_one s.replicas)

abbrev pub stateful_set_issue : Map (List WorkloadPod) → StatefulSet → StatefulSetIssue
stateful_set_issue pods s = record {
  namespace = s.namespace;
  name = s.name;
  ready_replicas = s.ready_replicas;
  total_replicas = or_one s.replicas;
  pods = get_or pods (key2 s.namespace s.name) [];
}

abbrev pub is_unavailable : DaemonSet → Bool
is_unavailable d = ltb 0 d.number_unavailable

abbrev pub daemon_set_issue : Map (List WorkloadPod) → DaemonSet → DaemonSetIssue
daemon_set_issue pods d = record {
  namespace = d.namespace;
  name = d.name;
  number_unavailable = d.number_unavailable;
  pods = get_or pods (key2 d.namespace d.name) [];
}

abbrev pub has_failed : JobObject → Bool
has_failed j = (job_failed_reason j.status.conditions).0

abbrev pub is_job_issue : JobObject → Bool
is_job_issue j = ltb 0 j.status.active || has_failed j

unfoldable pub job_issue : Map (List WorkloadPod) → JobObject → JobIssue
unfolding job_failed_reason
job_issue pods j = record {
  namespace = j.namespace;
  name = j.name;
  active = j.status.active;
  status = if has_failed j then job_status_failed else job_status_active;
  reason = (job_failed_reason j.status.conditions).1;
  pods = get_or pods (key2 j.namespace j.name) [];
}

-- The inventory: every workload of every kind.
module _ (nodes_by_workload : Map (List String)) where
  abbrev pub nodes_of : String → String → String → List String
  nodes_of kind ns name = sorted_keys (get_or nodes_by_workload (kind <> ("/" <> key2 ns name)) [])

  unfoldable pub deployment_entry : Deployment → Workload
  unfolding new_workload replica_status sorted_keys
  deployment_entry d = record (new_workload "Deployment" d.namespace d.name d.template nodes_of) {
    status = replica_status d.ready_replicas (or_one d.replicas);
  }

  unfoldable pub stateful_set_entry : StatefulSet → Workload
  unfolding new_workload replica_status sorted_keys
  stateful_set_entry s =
      record (new_workload "StatefulSet" s.namespace s.name s.template nodes_of) {
        status = replica_status s.ready_replicas (or_one s.replicas);
      }

  unfoldable pub daemon_set_entry : DaemonSet → Workload
  unfolding new_workload replica_status sorted_keys
  daemon_set_entry d = record (new_workload "DaemonSet" d.namespace d.name d.template nodes_of) {
    status = replica_status d.number_ready d.desired_number_scheduled;
  }

  unfoldable pub job_entry : JobObject → Workload
  unfolding new_workload job_status sorted_keys
  job_entry j = record (new_workload "Job" j.namespace j.name j.template nodes_of) {
    status = job_status j.status;
  }

  abbrev is_suspended : Option Bool → Bool
  is_suspended none = false
  is_suspended (some b) = b

  -- A cron job has no pods of its own that stay.
  unfoldable pub cron_job_entry : CronJob → Workload
  unfolding new_workload sorted_keys
  cron_job_entry c = record (new_workload "CronJob" c.namespace c.name c.template nodes_of) {
    status = if is_suspended c.suspend then "Suspended" else "Scheduled";
    nodes = [];
  }

-- Storage classes: their binding modes, and the default one.
