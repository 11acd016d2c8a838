-- ===== src/Collector/Kept.antt =====
-- What each step of `Collect` keeps, the whole of it keeps.
use mirops.Prelude.{ℕ, ◌++◌, String, Bool, List, Result, ok, err}
use mirops.Prelude.Maps.{Map}
use mirops.Cluster.{ClusterSnapshot, WorkloadPod, DetectedAddon}
use mirops.Collector.Objects.{
  Api, Pod, Deployment, StatefulSet, DaemonSet, JobObject, CronJob, Node, DisruptionBudget, Service,
  Ingress, VolumeClaim, ApiResourceList,
}
use mirops.Collector.Inventory.{
  deployment_entry, stateful_set_entry, daemon_set_entry, job_entry, cron_job_entry,
}
use mirops.Collector.Walk.{Scope, Walk, excluded_of, rs_to_deploy_map, new_walk, walk_pods}
use mirops.Collector.Fill.{
  new_snapshot, put_pods, put_resources, put_deployments, put_nodes, put_budgets, put_stateful_sets,
  put_daemon_sets, put_jobs, put_services, put_ingresses, put_workloads, put_claims, put_deprecated,
}
use mirops.Collector.Collect.{
  collect, collect_workloads, collect_issues, with_ingresses, collect_ingresses, modes_of,
  with_claims, collect_claims, detect_deprecated_apis, detect_addons, after_pods, ◌>>=◌,
}
use mirops.Collector.Outcomes.{Ensures, Ensures-bind, Ensures-any}

-- A property of snapshots that no step breaks.
pub record IsKept (excluded : Map Bool) (Q : ClusterSnapshot → Type 0) : Type 0 where
  pub resources :
      (items : List Deployment) (snap : ClusterSnapshot) → Q snap → Q (put_resources items snap)
  pub nodes : (items : List Node) (snap : ClusterSnapshot) → Q snap → Q (put_nodes items snap)
  pub deprecated :
      (lists : List ApiResourceList) (snap : ClusterSnapshot)
      → Q snap
      → Q (put_deprecated lists snap)
  pub addons :
      (found : List DetectedAddon) (snap : ClusterSnapshot)
      → Q snap
      → Q (record snap { detected_addons = snap.detected_addons ++ found })
  pub deployments :
      (pods : Map (List WorkloadPod)) (items : List Deployment) (snap : ClusterSnapshot)
      → Q snap
      → Q (put_deployments excluded pods items snap)
  pub budgets :
      (items : List DisruptionBudget) (snap : ClusterSnapshot)
      → Q snap
      → Q (put_budgets excluded items snap)
  pub stateful_sets :
      (pods : Map (List WorkloadPod)) (items : List StatefulSet) (snap : ClusterSnapshot)
      → Q snap
      → Q (put_stateful_sets excluded pods items snap)
  pub daemon_sets :
      (pods : Map (List WorkloadPod)) (items : List DaemonSet) (snap : ClusterSnapshot)
      → Q snap
      → Q (put_daemon_sets excluded pods items snap)
  pub jobs :
      (pods : Map (List WorkloadPod)) (items : List JobObject) (snap : ClusterSnapshot)
      → Q snap
      → Q (put_jobs excluded pods items snap)
  pub services :
      (items : List Service) (snap : ClusterSnapshot)
      → Q snap
      → Q (put_services excluded items snap)
  pub ingresses :
      (items : List Ingress) (snap : ClusterSnapshot)
      → Q snap
      → Q (put_ingresses excluded items snap)
  pub claims :
      (classes : Map String × String) (items : List VolumeClaim) (snap : ClusterSnapshot)
      → Q snap
      → Q (put_claims excluded classes items snap)
  pub deployments_listed :
      (nodes : Map (List String)) (items : List Deployment) (snap : ClusterSnapshot)
      → Q snap
      → Q (
          put_workloads excluded
            (λ (x : Deployment). x.namespace)
            (deployment_entry nodes)
            items
            snap)
  pub stateful_sets_listed :
      (nodes : Map (List String)) (items : List StatefulSet) (snap : ClusterSnapshot)
      → Q snap
      → Q (
          put_workloads excluded
            (λ (x : StatefulSet). x.namespace)
            (stateful_set_entry nodes)
            items
            snap)
  pub daemon_sets_listed :
      (nodes : Map (List String)) (items : List DaemonSet) (snap : ClusterSnapshot)
      → Q snap
      → Q (
          put_workloads excluded
            (λ (x : DaemonSet). x.namespace)
            (daemon_set_entry nodes)
            items
            snap)
  pub jobs_listed :
      (nodes : Map (List String)) (items : List JobObject) (snap : ClusterSnapshot)
      → Q snap
      → Q (put_workloads excluded (λ (x : JobObject). x.namespace) (job_entry nodes) items snap)
  pub cron_jobs_listed :
      (nodes : Map (List String)) (items : List CronJob) (snap : ClusterSnapshot)
      → Q snap
      → Q (put_workloads excluded (λ (x : CronJob). x.namespace) (cron_job_entry nodes) items snap)

module _ (A : Api) (excluded : Map Bool) (Q : ClusterSnapshot → Type 0)
    (keep : IsKept excluded Q) where
  collect_issues-Ensures :
      (w : Walk) (snap : ClusterSnapshot) (s : A.State)
      → Q snap
      → Ensures A Q (collect_issues A excluded w snap s)
  unfolding collect_issues
  collect_issues-Ensures w snap s h = Ensures-any A Q A.list_deployments _ s λ deps s1.
      Ensures-any A Q A.list_nodes _ s1 λ nodes s2.
        Ensures-any A Q A.list_budgets _ s2 λ budgets s3.
          Ensures-any A Q A.list_stateful_sets _ s3 λ sets s4.
            Ensures-any A Q A.list_daemon_sets _ s4 λ dsets s5.
              Ensures-any A Q A.list_jobs _ s5 λ jobs s6.
                Ensures-any A Q A.list_services _ s6 λ services s7. keep.services services _ (
                  keep.jobs w.by_job jobs _ (
                    keep.daemon_sets w.by_daemon_set dsets _ (
                      keep.stateful_sets w.by_stateful_set sets _ (
                        keep.budgets budgets _
                          (keep.nodes nodes _ (keep.deployments w.by_deployment deps snap h))))))

  collect_workloads-Ensures :
      (nodes : Map (List String)) (snap : ClusterSnapshot) (s : A.State)
      → Q snap
      → Ensures A Q (collect_workloads A excluded nodes snap s)
  unfolding collect_workloads
  collect_workloads-Ensures nodes snap s h = Ensures-any A Q A.list_deployments _ s λ deps s1.
      Ensures-any A Q A.list_stateful_sets _ s1 λ sets s2.
        Ensures-any A Q A.list_daemon_sets _ s2 λ dsets s3.
          Ensures-any A Q A.list_jobs _ s3 λ jobs s4.
            Ensures-any A Q A.list_cron_jobs _ s4 λ crons s5. keep.cron_jobs_listed nodes crons _ (
              keep.jobs_listed nodes jobs _ (
                keep.daemon_sets_listed nodes dsets _ (
                  keep.stateful_sets_listed nodes sets _
                    (keep.deployments_listed nodes deps snap h))))

  with_ingresses-keeps :
      (snap : ClusterSnapshot) (items : Result (List Ingress))
      → Q snap
      → Q (with_ingresses A excluded snap items)
  unfolding with_ingresses
  with_ingresses-keeps snap (ok items) h = keep.ingresses items snap h
  with_ingresses-keeps snap (err e) h = h

  with_claims-Ensures :
      (snap : ClusterSnapshot) (items : Result (List VolumeClaim)) (s : A.State)
      → Q snap
      → Ensures A Q (with_claims A excluded snap items s)
  unfolding with_claims
  with_claims-Ensures snap (err e) s h = h
  with_claims-Ensures snap (ok items) s h =
      keep.claims (modes_of A excluded (A.list_storage_classes s).0) items snap h

  detect_addons-Ensures :
      (snap : ClusterSnapshot) (s : A.State) → Q snap → Ensures A Q (detect_addons A snap s)
  unfolding detect_addons
  detect_addons-Ensures snap s h = keep.addons _ snap h

  -- The part of `Collect` after the pods.
  after_pods-Ensures :
      (w : Walk) (snap : ClusterSnapshot) (s : A.State)
      → Q snap
      → Ensures A Q (after_pods A excluded w snap s)
  unfolding after_pods collect_ingresses collect_claims detect_deprecated_apis
  after_pods-Ensures w snap s h =
      let fourth =
        λ (x : ClusterSnapshot). ◌>>=◌ A (detect_deprecated_apis A x) (detect_addons A) in
      let third = λ (x : ClusterSnapshot). ◌>>=◌ A (collect_claims A excluded x) fourth in
      let second = λ (x : ClusterSnapshot).
        ◌>>=◌ A (collect_workloads A excluded w.nodes_by_workload x) third in
      let first = λ (x : ClusterSnapshot). ◌>>=◌ A (collect_ingresses A excluded x) second in
      Ensures-any A Q A.list_deployments _ s λ deps s1.
        Ensures-bind A Q Q (collect_issues A excluded w (put_resources deps snap)) first s1
          (collect_issues-Ensures w _ s1 (keep.resources deps snap h))
          λ snap2 h2 s2.
            Ensures-bind A Q Q (collect_ingresses A excluded snap2) second s2
              (with_ingresses-keeps snap2 _ h2)
              λ snap3 h3 s3.
                Ensures-bind A Q Q (collect_workloads A excluded w.nodes_by_workload snap3) third s3
                  (collect_workloads-Ensures w.nodes_by_workload snap3 s3 h3)
                  λ snap4 h4 s4.
                    Ensures-bind A Q Q (collect_claims A excluded snap4) fourth s4
                      (with_claims-Ensures snap4 _ _ h4)
                      λ snap5 h5 s5.
                        Ensures-bind A Q Q (detect_deprecated_apis A snap5) (detect_addons A) s5
                          (keep.deprecated (A.server_resources s5).0 snap5 h5)
                          λ snap6 h6 s6. detect_addons-Ensures snap6 s6 h6

-- A property that no step breaks holds of what the collector returns, if it holds of the snapshot
-- that has the pods and nothing else.
pub collect-Ensures :
    (A : Api) (scope : Scope) (Q : ClusterSnapshot → Type 0)
    → IsKept (excluded_of scope) Q
    → ((rs : Map String) (pods : List Pod) (version : String) (n : ℕ) (s : A.State)
        → Q (
            put_pods
              (walk_pods A (excluded_of scope) rs pods new_walk s).0
              (new_snapshot version n)))
    → (s : A.State) → Ensures A Q (collect A scope s)
unfolding collect
collect-Ensures A scope Q keep first s = Ensures-any A Q A.server_version _ s λ version s1.
    Ensures-any A Q A.list_namespaces _ s1 λ namespaces s2.
      Ensures-any A Q A.list_replica_sets _ s2 λ sets s3.
        Ensures-any A Q A.list_pods _ s3 λ pods s4.
          let w = (walk_pods A (excluded_of scope) (rs_to_deploy_map sets) pods new_walk s4).0 in
          after_pods-Ensures A (excluded_of scope) Q keep w _ _
            (first (rs_to_deploy_map sets) pods version _ s4)
