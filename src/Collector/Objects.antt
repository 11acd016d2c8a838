-- ===== src/Collector/Objects.antt =====
-- What the collector reads of the API server: the fields of Kubernetes' objects, and the requests.
-- The objects and the client belong to k8s.io/api and controller-runtime. A quantity of cpu is in
-- thousandths and one of memory in bytes; times are nanoseconds.
use mirops.Prelude.{ℕ, String, Bool, Option, List, Result}
use mirops.Cluster.{Labels}
use mirops.Collector.{Job}

pub record OwnerReference : Type 0 where
  pub kind : String
  pub name : String

pub record Condition : Type 0 where
  pub type : String
  pub status : String

-- The states that a container may be in, with their reasons.
pub record ContainerStatus : Type 0 where
  pub restart_count : ℕ
  pub waiting : Option String
  pub terminated : Option String

-- A reference to a ConfigMap, to a Secret, or to neither.
pub record ConfigSource : Type 0 where
  pub config_map : Option String
  pub secret : Option String

pub record Container : Type 0 where
  pub image : String
  pub cpu_request : Option ℕ
  pub memory_request : Option ℕ
  pub env_from : List ConfigSource
  pub env : List (Option ConfigSource)

pub record Volume : Type 0 where
  pub source : ConfigSource
  pub claim : Option String

pub record PodSpec : Type 0 where
  pub node_name : String
  pub restart_policy : String
  pub containers : List Container
  pub volumes : List Volume

pub record PodTemplate : Type 0 where
  pub labels : Labels
  pub annotations : Labels
  pub spec : PodSpec

pub record Pod : Type 0 where
  pub namespace : String
  pub name : String
  pub created : ℕ
  pub owners : List OwnerReference
  pub spec : PodSpec
  pub phase : String
  pub conditions : List Condition
  pub container_statuses : List ContainerStatus

pub record ReplicaSet : Type 0 where
  pub namespace : String
  pub name : String
  pub owners : List OwnerReference

-- `replicas` is a pointer in the source.
pub record Deployment : Type 0 where
  pub namespace : String
  pub name : String
  pub labels : Labels
  pub replicas : Option ℕ
  pub ready_replicas : ℕ
  pub template : PodTemplate

pub record StatefulSet : Type 0 where
  pub namespace : String
  pub name : String
  pub replicas : Option ℕ
  pub ready_replicas : ℕ
  pub template : PodTemplate

pub record DaemonSet : Type 0 where
  pub namespace : String
  pub name : String
  pub labels : Labels
  pub number_ready : ℕ
  pub number_unavailable : ℕ
  pub desired_number_scheduled : ℕ
  pub template : PodTemplate

pub record JobObject : Type 0 where
  pub namespace : String
  pub name : String
  pub status : Job
  pub template : PodTemplate

pub record CronJob : Type 0 where
  pub namespace : String
  pub name : String
  pub suspend : Option Bool
  pub template : PodTemplate

pub record Node : Type 0 where
  pub name : String
  pub cpu : Option ℕ
  pub memory : Option ℕ
  pub conditions : List Condition

pub record DisruptionBudget : Type 0 where
  pub namespace : String
  pub name : String
  pub disruptions_allowed : ℕ

pub record Service : Type 0 where
  pub namespace : String
  pub name : String
  pub type : String
  pub selector : Labels

-- A backend names a service or something else.
abbrev pub Backend : Type 0
Backend = Option String

-- A rule may have no paths over HTTP.
pub record Ingress : Type 0 where
  pub namespace : String
  pub name : String
  pub has_tls : Bool
  pub rules : List (Option (List Backend))
  pub default_backend : Option Backend

pub record VolumeClaim : Type 0 where
  pub namespace : String
  pub name : String
  pub storage_class : Option String
  pub phase : String

pub record StorageClass : Type 0 where
  pub name : String
  pub annotations : Labels
  pub binding_mode : Option String

pub record ApiResource : Type 0 where
  pub group : String
  pub name : String

pub record ApiResourceList : Type 0 where
  pub group_version : String
  pub resources : List ApiResource

-- The requests, over the state of the API server and the clock. The discovery of resources may fail
-- and give some of them all the same.
pub record Api : Type 1 where
  pub State : Type 0
  pub now : State → ℕ × State
  pub server_version : State → Result String × State
  pub list_namespaces : State → Result (List String) × State
  pub list_replica_sets : State → Result (List ReplicaSet) × State
  pub list_pods : State → Result (List Pod) × State
  pub list_deployments : State → Result (List Deployment) × State
  pub list_nodes : State → Result (List Node) × State
  pub list_budgets : State → Result (List DisruptionBudget) × State
  pub list_stateful_sets : State → Result (List StatefulSet) × State
  pub list_daemon_sets : State → Result (List DaemonSet) × State
  pub list_jobs : State → Result (List JobObject) × State
  pub list_cron_jobs : State → Result (List CronJob) × State
  pub list_services : State → Result (List Service) × State
  pub list_ingresses : State → Result (List Ingress) × State
  pub list_claims : State → Result (List VolumeClaim) × State
  pub list_storage_classes : State → Result (List StorageClass) × State
  pub server_resources : State → List ApiResourceList × State
  pub server_groups : State → Result (List String) × State
