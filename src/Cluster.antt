-- ===== src/Cluster.antt =====
-- internal/collector/model.go: the snapshot of a cluster, which the collector fills and the
-- analysis and the graph read. Counts are natural numbers, since the collector counts them up from
-- zero; a Go map of labels is a list of pairs with distinct keys.
use mirops.Prelude.{ℕ, String, Bool, List}
use mirops.Float64.{Float64}

abbrev pub Labels : Type 0
Labels = List (String × String)

pub record ResourceRef : Type 0 where
  pub namespace : String
  pub name : String
  pub api_version : String
  pub kind : String

pub record PodIssue : Type 0 where
  pub namespace : String
  pub name : String
  pub reason : String
  pub restarts : ℕ

pub record NodeIssue : Type 0 where
  pub name : String
  pub reason : String

pub record PdbIssue : Type 0 where
  pub namespace : String
  pub name : String

pub record WorkloadPod : Type 0 where
  pub name : String
  pub reason : String
  pub restarts : ℕ

pub record NodeWorkload : Type 0 where
  pub name : String
  pub status : String
  pub conditions : List String

pub record ConfigRef : Type 0 where
  pub kind : String
  pub name : String

pub record Workload : Type 0 where
  pub kind : String
  pub namespace : String
  pub name : String
  pub status : String
  pub pod_labels : Labels
  pub config_refs : List ConfigRef
  pub pvcs : List String
  pub nodes : List String
  pub uses_istio_sidecar : Bool

pub record BarePod : Type 0 where
  pub namespace : String
  pub name : String
  pub status : String

pub record PvcRef : Type 0 where
  pub namespace : String
  pub name : String
  pub storage_class : String
  pub phase : String
  pub binding_mode : String

pub record DeploymentWorkload : Type 0 where
  pub namespace : String
  pub name : String
  pub ready_replicas : ℕ
  pub desired_replicas : ℕ
  pub pods : List WorkloadPod
  pub pod_labels : Labels
  pub config_refs : List ConfigRef
  pub nodes : List String
  pub uses_istio_sidecar : Bool

pub record StatefulSetIssue : Type 0 where
  pub namespace : String
  pub name : String
  pub ready_replicas : ℕ
  pub total_replicas : ℕ
  pub pods : List WorkloadPod

pub record DaemonSetIssue : Type 0 where
  pub namespace : String
  pub name : String
  pub number_unavailable : ℕ
  pub pods : List WorkloadPod

abbrev pub job_status_active : String
job_status_active = "Active"

abbrev pub job_status_failed : String
job_status_failed = "Failed"

abbrev pub job_status_completed : String
job_status_completed = "Completed"

abbrev pub job_status_pending : String
job_status_pending = "Pending"

pub record JobIssue : Type 0 where
  pub namespace : String
  pub name : String
  pub active : ℕ
  pub status : String
  pub reason : String
  pub pods : List WorkloadPod

pub record DeprecatedApi : Type 0 where
  pub group : String
  pub version : String
  pub resource : String
  pub removed_in : String

pub record ServiceRef : Type 0 where
  pub namespace : String
  pub name : String
  pub type : String
  pub selector : Labels

pub record IngressRef : Type 0 where
  pub namespace : String
  pub name : String
  pub services : List String
  pub has_tls : Bool

pub record DetectedAddon : Type 0 where
  pub name : String
  pub version : String
  pub namespace : String
  pub detected_via : String

pub record ClusterSnapshot : Type 0 where
  pub cluster_name : String
  pub cluster_version : String
  pub namespace_count : ℕ
  pub resources : List ResourceRef
  pub total_pods : ℕ
  pub not_ready_pods : ℕ
  pub total_restarts : ℕ
  pub pod_issues : List PodIssue
  pub restarting_pods : ℕ
  pub cpu_requests : Float64
  pub cpu_capacity : Float64
  pub mem_requests : Float64
  pub mem_capacity : Float64
  pub node_issues : List NodeIssue
  pub previous_total_pods : ℕ
  pub previous_restarts : ℕ
  pub deprecated_apis : ℕ
  pub deprecated_api_list : List DeprecatedApi
  pub addon_issues : ℕ
  pub pdb_blocking : Bool
  pub pdb_issues : List PdbIssue
  pub services : List ServiceRef
  pub ingresses : List IngressRef
  pub detected_addons : List DetectedAddon
  pub workloads : List Workload
  pub bare_pods : List BarePod
  pub pvcs : List PvcRef
  pub node_workloads : List NodeWorkload
  pub deployment_workloads : List DeploymentWorkload
  pub stateful_set_issues : List StatefulSetIssue
  pub daemon_set_issues : List DaemonSetIssue
  pub job_issues : List JobIssue
