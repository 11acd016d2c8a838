-- ===== src/Collector/Collect.antt =====
-- internal/collector/cluster_collector.go, `Collect`, and the requests of workload_collector.go,
-- workload_inventory.go, network_collector.go and addon_detector.go. A Go method that fills the
-- snapshot returns the new one.
use mathlib.Core.List.{foldl}
use mirops.Prelude.{String, Bool, List, [], ◌++◌, Result, ok, err, length}
use mirops.Prelude.Maps.{Map, empty}
use mirops.Cluster.{ClusterSnapshot}
use mirops.Collector.Objects.{
  Api, Deployment, StatefulSet, DaemonSet, JobObject, CronJob, StorageClass, Ingress, VolumeClaim,
}
use mirops.Collector.Addons.{addon_signatures, matched}
use mirops.Collector.Walk.{Scope, Walk, mark, excluded_of, rs_to_deploy_map, new_walk, walk_pods}
use mirops.Collector.Inventory.{
  deployment_entry, stateful_set_entry, daemon_set_entry, job_entry, cron_job_entry,
  storage_class_binding_modes,
}
use mirops.Collector.Fill.{
  new_snapshot, put_pods, put_resources, put_deployments, put_nodes, put_budgets, put_stateful_sets,
  put_daemon_sets, put_jobs, put_services, put_ingresses, put_workloads, put_claims, put_deprecated,
}

module _ (A : Api) where
  open A use {
    State, now, server_version, list_namespaces, list_replica_sets, list_pods, list_deployments,
    list_nodes, list_budgets, list_stateful_sets, list_daemon_sets, list_jobs, list_cron_jobs,
    list_services, list_ingresses, list_claims, list_storage_classes, server_resources,
    server_groups,
  }

  -- A request that may fail, over the state of the API server.
  abbrev pub M : Type 0 → Type 0
  M B = State → Result B × State

  abbrev pub return : {B : Type 0} → B → State → Result B × State
  return b s = (ok b, s)

  abbrev pub follow : {B C : Type 0} → Result B → (B → M C) → State → Result C × State
  follow (ok b) f s = f b s
  follow (err e) f s = (err e, s)

  infixl 5 ◌>>=◌
  abbrev pub ◌>>=◌ : {B C : Type 0} → M B → (B → M C) → State → Result C × State
  (m >>= f) s = let (r, t) = m s in follow r f t

  -- What is left of a request whose error is dropped.
  abbrev pub soft : {B : Type 0} → M B → State → Result (Result B) × State
  soft m s = let (r, t) = m s in (ok r, t)

  abbrev pub or_nothing : {B : Type 0} → Result (List B) → List B
  or_nothing (ok items) = items
  or_nothing (err e) = []

  abbrev pub total : {B : Type 0} → (State → B × State) → State → Result B × State
  total m s = let (b, t) = m s in (ok b, t)

  module _ (excluded : Map Bool) where
    -- The inventory: five requests, of which each must succeed.
    unfoldable pub collect_workloads : Map (List String) → ClusterSnapshot → M ClusterSnapshot
    unfolding put_workloads deployment_entry stateful_set_entry daemon_set_entry job_entry
        cron_job_entry
    collect_workloads nodes snap = do
      deps ← list_deployments
      let snap =
          put_workloads excluded (λ (d : Deployment). d.namespace) (deployment_entry nodes) deps
            snap
      sets ← list_stateful_sets
      let snap =
          put_workloads excluded (λ (s : StatefulSet). s.namespace) (stateful_set_entry nodes) sets
            snap
      dsets ← list_daemon_sets
      let snap =
          put_workloads excluded (λ (d : DaemonSet). d.namespace) (daemon_set_entry nodes) dsets
            snap
      jobs ← list_jobs
      let snap = put_workloads excluded (λ (j : JobObject). j.namespace) (job_entry nodes) jobs snap
      crons ← list_cron_jobs
      return
          (put_workloads excluded (λ (c : CronJob). c.namespace) (cron_job_entry nodes) crons snap)

    -- The problems of the workloads, with the pods that the walk has filed under them.
    unfoldable pub collect_issues : Walk → ClusterSnapshot → M ClusterSnapshot
    unfolding put_deployments put_nodes put_budgets put_stateful_sets put_daemon_sets put_jobs
        put_services
    collect_issues w snap = do
      deps ← list_deployments
      let snap = put_deployments excluded w.by_deployment deps snap
      nodes ← list_nodes
      let snap = put_nodes nodes snap
      budgets ← list_budgets
      let snap = put_budgets excluded budgets snap
      sets ← list_stateful_sets
      let snap = put_stateful_sets excluded w.by_stateful_set sets snap
      dsets ← list_daemon_sets
      let snap = put_daemon_sets excluded w.by_daemon_set dsets snap
      jobs ← list_jobs
      let snap = put_jobs excluded w.by_job jobs snap
      services ← list_services
      return (put_services excluded services snap)

    -- Without an answer there are no ingresses, and no error.
    unfoldable pub with_ingresses : ClusterSnapshot → Result (List Ingress) → ClusterSnapshot
    unfolding put_ingresses
    with_ingresses snap (ok items) = put_ingresses excluded items snap
    with_ingresses snap (err e) = snap

    unfoldable pub collect_ingresses : ClusterSnapshot → M ClusterSnapshot
    unfolding with_ingresses
    collect_ingresses snap = do items ← soft list_ingresses; return (with_ingresses snap items)

    abbrev pub modes_of : Result (List StorageClass) → Map String × String
    modes_of (ok classes) = storage_class_binding_modes classes
    modes_of (err e) = (empty, "")

    -- Nor are a claim's or a storage class's errors passed on; the classes are asked for only once
    -- the claims are there.
    unfoldable pub with_claims : ClusterSnapshot → Result (List VolumeClaim) → M ClusterSnapshot
    unfolding put_claims storage_class_binding_modes
    with_claims snap (err e) = return snap
    with_claims snap (ok items) = do
      classes ← soft list_storage_classes
      return (put_claims excluded (modes_of classes) items snap)

    unfoldable pub collect_claims : ClusterSnapshot → M ClusterSnapshot
    unfolding with_claims
    collect_claims snap = do items ← soft list_claims; with_claims snap items

  unfoldable pub detect_deprecated_apis : ClusterSnapshot → M ClusterSnapshot
  unfolding put_deprecated
  detect_deprecated_apis snap = do
    lists ← total server_resources
    return (put_deprecated lists snap)

  -- Add-ons are looked for everywhere, whatever the scope.
  unfoldable pub detect_addons : ClusterSnapshot → M ClusterSnapshot
  unfolding matched
  detect_addons snap = do
    groups ← soft server_groups
    deps ← soft list_deployments
    dsets ← soft list_daemon_sets
    let group_set = foldl mark empty (or_nothing groups)
    return (record snap {
      detected_addons =
          snap.detected_addons
          ++ matched addon_signatures (or_nothing deps) (or_nothing dsets) group_set;
    })

  -- `Collect` after the loop over the pods.
  unfoldable pub after_pods : Map Bool → Walk → ClusterSnapshot → M ClusterSnapshot
  unfolding put_resources collect_issues collect_ingresses collect_workloads collect_claims
      detect_deprecated_apis detect_addons
  after_pods excluded w snap = do
    deps ← list_deployments
    snap ← collect_issues excluded w (put_resources deps snap)
    snap ← collect_ingresses excluded snap
    snap ← collect_workloads excluded w.nodes_by_workload snap
    snap ← collect_claims excluded snap
    snap ← detect_deprecated_apis snap
    detect_addons snap

  unfoldable pub collect : Scope → M ClusterSnapshot
  unfolding new_snapshot excluded_of rs_to_deploy_map new_walk walk_pods put_pods after_pods
  collect scope = do
    version ← server_version
    namespaces ← list_namespaces
    let excluded = excluded_of scope
    sets ← list_replica_sets
    pods ← list_pods
    w ← total (walk_pods A excluded (rs_to_deploy_map sets) pods new_walk)
    after_pods excluded w (put_pods w (new_snapshot version (length namespaces)))
