-- ===== src/Examples.antt =====
-- A small cluster on which the theorems are applied: a web server that runs on a node with issues,
-- stores its data on a lost volume claim and sits behind an ingress with certificates.
pub mod CollectorRuns
pub mod CollectRuns
pub mod AiRuns
pub mod ReconcileRuns
pub mod MirrorRuns
pub mod GraphRuns
pub mod AnalysisRuns
pub mod CompatRuns
pub mod RemediationRuns
pub mod UpgradeRuns
use mirops.Prelude.{String, Bool, true, false, List, [], ◌∷◌}
use mirops.Float64.{of_ℕ}
use mirops.Cluster.{
  ClusterSnapshot, DetectedAddon, NodeWorkload, Workload, ServiceRef, IngressRef, PvcRef, PodIssue,
  JobIssue,
}

abbrev pub cert_manager : DetectedAddon
cert_manager = record {
  name = "cert-manager";
  version = "1.12.0";
  namespace = "cert-manager";
  detected_via = "image";
}

abbrev web : Workload
web = record {
  kind = "Deployment";
  namespace = "shop";
  name = "web";
  status = "Degraded (1/2)";
  pod_labels = ("app", "web") ∷ [];
  config_refs = record { kind = "ConfigMap"; name = "web-config" } ∷ [];
  pvcs = "data" ∷ [];
  nodes = "node-1" ∷ [];
  uses_istio_sidecar = true;
}

abbrev backup : JobIssue
backup = record {
  namespace = "shop";
  name = "backup";
  active = 1;
  status = "Active";
  reason = "";
  pods = [];
}

abbrev crashing : PodIssue
crashing = record { namespace = "shop"; name = "web-1"; reason = "CrashLoopBackOff"; restarts = 12 }

abbrev pub shop : ClusterSnapshot
shop = record {
  cluster_name = "shop";
  cluster_version = "v1.29.4";
  namespace_count = 2;
  resources = [];
  total_pods = 40;
  not_ready_pods = 1;
  total_restarts = 12;
  pod_issues = crashing ∷ [];
  restarting_pods = 1;
  cpu_requests = of_ℕ 4000;
  cpu_capacity = of_ℕ 8000;
  mem_requests = of_ℕ 3000;
  mem_capacity = of_ℕ 16000;
  node_issues = [];
  previous_total_pods = 42;
  previous_restarts = 10;
  deprecated_apis = 0;
  deprecated_api_list = [];
  addon_issues = 0;
  pdb_blocking = false;
  pdb_issues = [];
  services =
      record {
        namespace = "shop";
        name = "web";
        type = "ClusterIP";
        selector = ("app", "web") ∷ [];
      }
      ∷ [];
  ingresses =
      record { namespace = "shop"; name = "front"; services = "web" ∷ []; has_tls = true } ∷ [];
  detected_addons = cert_manager ∷ [];
  workloads = web ∷ [];
  bare_pods = [];
  pvcs =
      record {
        namespace = "shop";
        name = "data";
        storage_class = "standard";
        phase = "Lost";
        binding_mode = "Immediate";
      }
      ∷ [];
  node_workloads = record { name = "node-1"; status = "NotReady"; conditions = [] } ∷ [];
  deployment_workloads = [];
  stateful_set_issues = [];
  daemon_set_issues = [];
  job_issues = backup ∷ [];
}
