-- ===== src/Collector/Scoped/Steps.antt =====
-- Each step that fills the snapshot adds only what lies in the scope.
use mathlib.Core.Path.{subst}
use mirops.Prelude.{
  arith, ℕ, ◌≡◌, refl, sym, String, Bool, true, List, map, select, All, All-append, All-select,
  All-select_test, All-map,
}
use mirops.Prelude.Maps.{Map}
use mirops.Cluster.{
  ClusterSnapshot, PodIssue, BarePod, DeploymentWorkload, PdbIssue, StatefulSetIssue,
  DaemonSetIssue, JobIssue, ServiceRef, IngressRef, PvcRef, Workload, WorkloadPod,
}
use mirops.Collector.Objects.{
  Deployment, StatefulSet, DaemonSet, JobObject, Node, DisruptionBudget, Service, Ingress,
  VolumeClaim, ApiResourceList,
}
use mirops.Collector.Walk.{Walk, in_scope}
use mirops.Collector.Inventory.{
  within, deployment_workload, is_blocking, pdb_issue, is_short, stateful_set_issue, is_unavailable,
  daemon_set_issue, is_job_issue, job_issue, service_ref, ingress_ref, pvc_ref,
}
use mirops.Collector.Fill.{
  new_snapshot, put_pods, put_resources, put_deployments, put_nodes, put_budgets, put_stateful_sets,
  put_daemon_sets, put_jobs, put_services, put_ingresses, put_workloads, put_claims, put_deprecated,
}
use mirops.Collector.Scoped.Pods.{WalkInside}

module _ (Inside : String → Type 0) where
  -- All that a snapshot reports of namespaced objects lies in namespaces with a property.
  pub record LiesInside (snap : ClusterSnapshot) : Type 0 where
    pub pod_issues : All (λ (x : PodIssue). Inside x.namespace) snap.pod_issues
    pub bare_pods : All (λ (x : BarePod). Inside x.namespace) snap.bare_pods
    pub deployment_workloads :
        All (λ (x : DeploymentWorkload). Inside x.namespace) snap.deployment_workloads
    pub pdb_issues : All (λ (x : PdbIssue). Inside x.namespace) snap.pdb_issues
    pub stateful_set_issues :
        All (λ (x : StatefulSetIssue). Inside x.namespace) snap.stateful_set_issues
    pub daemon_set_issues : All (λ (x : DaemonSetIssue). Inside x.namespace) snap.daemon_set_issues
    pub job_issues : All (λ (x : JobIssue). Inside x.namespace) snap.job_issues
    pub services : All (λ (x : ServiceRef). Inside x.namespace) snap.services
    pub ingresses : All (λ (x : IngressRef). Inside x.namespace) snap.ingresses
    pub workloads : All (λ (x : Workload). Inside x.namespace) snap.workloads
    pub pvcs : All (λ (x : PvcRef). Inside x.namespace) snap.pvcs

  pub new_snapshot-LiesInside : (version : String) (n : ℕ) → LiesInside (new_snapshot version n)
  unfolding new_snapshot
  new_snapshot-LiesInside version n = ground arith

  pub put_pods-LiesInside :
      (w : Walk) (snap : ClusterSnapshot)
      → WalkInside Inside w
      → LiesInside snap
      → LiesInside (put_pods w snap)
  unfolding put_pods
  put_pods-LiesInside w snap k h = ground arith

  pub put_resources-LiesInside :
      (items : List Deployment) (snap : ClusterSnapshot)
      → LiesInside snap
      → LiesInside (put_resources items snap)
  unfolding put_resources
  put_resources-LiesInside items snap h = ground arith

  pub put_nodes-LiesInside :
      (items : List Node) (snap : ClusterSnapshot)
      → LiesInside snap
      → LiesInside (put_nodes items snap)
  unfolding put_nodes
  put_nodes-LiesInside items snap h = ground arith

  pub put_deprecated-LiesInside :
      (lists : List ApiResourceList) (snap : ClusterSnapshot)
      → LiesInside snap
      → LiesInside (put_deprecated lists snap)
  unfolding put_deprecated
  put_deprecated-LiesInside lists snap h = ground arith

  module _ (excluded : Map Bool)
      (inside : (ns : String) → in_scope excluded ns ≡ true → Inside ns) where
    within-Inside :
        {A : Type 0} (namespace : A → String) (xs : List A)
        → All (λ x. Inside (namespace x)) (within namespace excluded xs)
    within-Inside namespace xs = All-select_test _ _ (λ x e. inside (namespace x) e) xs

    -- Entries that keep the namespace of what they are made of.
    made_of :
        {A B : Type 0} (namespace : A → String) (field : B → String) (f : A → B)
        → ((x : A) → field (f x) ≡ namespace x)
        → (p : A → Bool) (xs : List A)
        → All (λ y. Inside (field y)) (map f (select p (within namespace excluded xs)))
    made_of namespace field f same p xs =
        All-map _ _ f (λ x k. subst Inside (sym (same x)) k) _
          (All-select _ p _ (within-Inside namespace xs))

    made_of_all :
        {A B : Type 0} (namespace : A → String) (field : B → String) (f : A → B)
        → ((x : A) → field (f x) ≡ namespace x)
        → (xs : List A) → All (λ y. Inside (field y)) (map f (within namespace excluded xs))
    made_of_all namespace field f same xs =
        All-map _ _ f (λ x k. subst Inside (sym (same x)) k) _ (within-Inside namespace xs)

    pub put_deployments-LiesInside :
        (pods : Map (List WorkloadPod)) (items : List Deployment) (snap : ClusterSnapshot)
        → LiesInside snap
        → LiesInside (put_deployments excluded pods items snap)
    unfolding put_deployments deployment_workload
    put_deployments-LiesInside pods items snap h =
        let added = All-append _ snap.deployment_workloads _ h.deployment_workloads (
          made_of_all (λ (x : Deployment). x.namespace) (λ (y : DeploymentWorkload). y.namespace)
            (deployment_workload pods) (λ x. refl) items) in
        ground arith

    pub put_budgets-LiesInside :
        (items : List DisruptionBudget) (snap : ClusterSnapshot)
        → LiesInside snap
        → LiesInside (put_budgets excluded items snap)
    unfolding put_budgets
    put_budgets-LiesInside items snap h =
        let added = All-append _ snap.pdb_issues _ h.pdb_issues (
          made_of (λ (x : DisruptionBudget). x.namespace) (λ (y : PdbIssue). y.namespace) pdb_issue
            (λ x. refl) is_blocking items) in
        ground arith

    pub put_stateful_sets-LiesInside :
        (pods : Map (List WorkloadPod)) (items : List StatefulSet) (snap : ClusterSnapshot)
        → LiesInside snap
        → LiesInside (put_stateful_sets excluded pods items snap)
    unfolding put_stateful_sets
    put_stateful_sets-LiesInside pods items snap h =
        let added = All-append _ snap.stateful_set_issues _ h.stateful_set_issues (
          made_of (λ (x : StatefulSet). x.namespace) (λ (y : StatefulSetIssue). y.namespace)
            (stateful_set_issue pods) (λ x. refl) is_short items) in
        ground arith

    pub put_daemon_sets-LiesInside :
        (pods : Map (List WorkloadPod)) (items : List DaemonSet) (snap : ClusterSnapshot)
        → LiesInside snap
        → LiesInside (put_daemon_sets excluded pods items snap)
    unfolding put_daemon_sets
    put_daemon_sets-LiesInside pods items snap h =
        let added = All-append _ snap.daemon_set_issues _ h.daemon_set_issues (
          made_of (λ (x : DaemonSet). x.namespace) (λ (y : DaemonSetIssue). y.namespace)
            (daemon_set_issue pods) (λ x. refl) is_unavailable items) in
        ground arith

    pub put_jobs-LiesInside :
        (pods : Map (List WorkloadPod)) (items : List JobObject) (snap : ClusterSnapshot)
        → LiesInside snap
        → LiesInside (put_jobs excluded pods items snap)
    unfolding put_jobs job_issue
    put_jobs-LiesInside pods items snap h =
        let added = All-append _ snap.job_issues _ h.job_issues (
          made_of (λ (x : JobObject). x.namespace) (λ (y : JobIssue). y.namespace) (job_issue pods)
            (λ x. refl) is_job_issue items) in
        ground arith

    pub put_services-LiesInside :
        (items : List Service) (snap : ClusterSnapshot)
        → LiesInside snap
        → LiesInside (put_services excluded items snap)
    unfolding put_services
    put_services-LiesInside items snap h =
        let added = All-append _ snap.services _ h.services (
          made_of_all (λ (x : Service). x.namespace) (λ (y : ServiceRef). y.namespace) service_ref
            (λ x. refl) items) in
        ground arith

    pub put_ingresses-LiesInside :
        (items : List Ingress) (snap : ClusterSnapshot)
        → LiesInside snap
        → LiesInside (put_ingresses excluded items snap)
    unfolding put_ingresses ingress_ref
    put_ingresses-LiesInside items snap h =
        let added = All-append _ snap.ingresses _ h.ingresses (
          made_of_all (λ (x : Ingress). x.namespace) (λ (y : IngressRef). y.namespace) ingress_ref
            (λ x. refl) items) in
        ground arith

    pub put_claims-LiesInside :
        (classes : Map String × String) (items : List VolumeClaim) (snap : ClusterSnapshot)
        → LiesInside snap
        → LiesInside (put_claims excluded classes items snap)
    unfolding put_claims pvc_ref
    put_claims-LiesInside classes items snap h =
        let added = All-append _ snap.pvcs _ h.pvcs (
          made_of_all (λ (x : VolumeClaim). x.namespace) (λ (y : PvcRef). y.namespace)
            (pvc_ref classes) (λ x. refl) items) in
        ground arith

    pub put_workloads-LiesInside :
        {A : Type 0} (namespace : A → String) (entry : A → Workload)
        → ((x : A) → (entry x).namespace ≡ namespace x)
        → (items : List A) (snap : ClusterSnapshot) → LiesInside snap
        → LiesInside (put_workloads excluded namespace entry items snap)
    unfolding put_workloads
    put_workloads-LiesInside namespace entry same items snap h =
        let added =
          All-append _ snap.workloads _ h.workloads
            (made_of_all namespace (λ (y : Workload). y.namespace) entry same items) in
        ground arith
