-- ===== src/Collector/Grouped.antt =====
-- internal/collector/cluster_collector.go: the result of the loop over the pods, described by what is
-- selected from the list.
pub mod Filing
pub mod Visit
pub mod Whole
use mathlib.Core.List.{foldl, append-nil, append_assoc}
use mirops.Prelude.{
  ℕ, ◌+◌, ◌≡◌, refl, sym, ap, ◌∙◌, String, Bool, true, false, not, ◌&&◌, Option, none, some, List,
  [], ◌∷◌, ◌++◌, map, select, length, count_if, length-select, foldl_keeps, ◌==◌, eq_of_==,
  if◌then◌else◌, Bool-cases, Option-cases, inl, inr, arith,
}
use mirops.Prelude.Maps.{Map, insert, get_or, append_at, get_or-insert}
use mirops.Cluster.{WorkloadPod, PodIssue, BarePod}
use mirops.Collector.Objects.{Api, Pod, OwnerReference}
use mirops.Collector.Pods.{is_pod_ready, key2}
use mirops.Collector.Walk.{
  Walk, Shelf, deployments, stateful_sets, daemon_sets, jobs, destination, shelve, new_walk,
  file_under, group_not_ready_pod, pod_issue, bare_pod, has_owner, workload_pod, count_pod,
  mirror_bare, report_not_ready, is_counted, visit_pod, walk_pods,
}

abbrev pub same_shelf : Shelf → Shelf → Bool
same_shelf deployments deployments = true
same_shelf stateful_sets stateful_sets = true
same_shelf daemon_sets daemon_sets = true
same_shelf jobs jobs = true
same_shelf _ _ = false

abbrev pub leads_to : Shelf → String → Option (Shelf × String) → Bool
leads_to shelf k none = false
leads_to shelf k (some (other, j)) = same_shelf shelf other && (k == j)

abbrev pub shelf_of : Shelf → Walk → Map (List WorkloadPod)
shelf_of deployments w = w.by_deployment
shelf_of stateful_sets w = w.by_stateful_set
shelf_of daemon_sets w = w.by_daemon_set
shelf_of jobs w = w.by_job

module _ (rs : Map String) (shelf : Shelf) (k : String) where
  -- A pod is filed once for each owner that leads there.
  abbrev pub under : String → WorkloadPod → List OwnerReference → List WorkloadPod
  under namespace wp [] = []
  under namespace wp (ref ∷ rest) =
      (if leads_to shelf k (destination rs namespace ref) then wp ∷ [] else [])
      ++ under namespace wp rest

  -- The pods that are filed under a key.
  abbrev pub filed : List Pod → List WorkloadPod
  filed [] = []
  filed (pod ∷ rest) = under pod.namespace (workload_pod pod) pod.owners ++ filed rest

module _ (excluded : Map Bool) where
  abbrev pub is_broken : Pod → Bool
  is_broken pod = is_counted excluded pod && not (is_pod_ready pod)

  abbrev pub is_bare : Pod → Bool
  is_bare pod = is_counted excluded pod && not (has_owner pod)

module _ (excluded : Map Bool) (rs : Map String) where
  -- What the loop adds to a walk for a list of pods.
  pub record Adds (pods : List Pod) (v w : Walk) : Type 0 where
    pub total : w.total_pods ≡ v.total_pods + count_if (is_counted excluded) pods
    pub not_ready : w.not_ready_pods ≡ v.not_ready_pods + count_if (is_broken excluded) pods
    pub issues : w.pod_issues ≡ v.pod_issues ++ map pod_issue (select (is_broken excluded) pods)
    pub bare : w.bare_pods ≡ v.bare_pods ++ map bare_pod (select (is_bare excluded) pods)
    pub shelves :
        (shelf : Shelf) (k : String)
        → get_or (shelf_of shelf w) k []
          ≡ get_or (shelf_of shelf v) k [] ++ filed rs shelf k (select (is_broken excluded) pods)
