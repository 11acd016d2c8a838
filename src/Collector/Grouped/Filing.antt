-- ===== src/Collector/Grouped/Filing.antt =====
-- How the owners of a pod file it.
use mathlib.Core.List.{foldl, append-nil, append_assoc}
use mirops.Prelude.{
  ◌≡◌, refl, sym, ap, ◌∙◌, String, Option, none, some, List, [], ◌∷◌, ◌++◌, foldl_keeps, ◌==◌,
  eq_of_==, if◌then◌else◌, Bool-cases, inl, inr, arith,
}
use mirops.Prelude.Maps.{Map, get_or, append_at, get_or-insert}
use mirops.Cluster.{WorkloadPod}
use mirops.Collector.Objects.{Pod, OwnerReference}
use mirops.Collector.Walk.{
  Walk, Shelf, deployments, stateful_sets, daemon_sets, jobs, destination, shelve, file_under,
  group_not_ready_pod,
}
use mirops.Collector.Grouped.{leads_to, shelf_of, under}

pub append_at_lem :
    {V : Type 0} (j : String) (v : V) (m : Map (List V)) (k : String)
    → get_or (append_at j v m) k [] ≡ get_or m k [] ++ (if k == j then v ∷ [] else [])
append_at_lem j v m k =
    get_or-insert j (get_or m j [] ++ v ∷ []) m k [] ∙ elim (Bool-cases (k == j)) [
      | inl e ↦ rw (e, eq_of_== k j e) refl
      | inr e ↦ rw e (sym (append-nil (get_or m k [])))
    ]

pub stays : (m : Map (List WorkloadPod)) (k : String) → get_or m k [] ≡ get_or m k [] ++ []
stays m k = sym (append-nil (get_or m k []))

pub shelve_lem :
    (shelf : Shelf) (k : String) (wp : WorkloadPod) (w : Walk) (to : Option (Shelf × String))
    → get_or (shelf_of shelf (shelve wp w to)) k []
      ≡ get_or (shelf_of shelf w) k [] ++ (if leads_to shelf k to then wp ∷ [] else [])
unfolding shelve
shelve_lem deployments k wp w (some (deployments, j)) = append_at_lem j wp w.by_deployment k
shelve_lem stateful_sets k wp w (some (stateful_sets, j)) = append_at_lem j wp w.by_stateful_set k
shelve_lem daemon_sets k wp w (some (daemon_sets, j)) = append_at_lem j wp w.by_daemon_set k
shelve_lem jobs k wp w (some (jobs, j)) = append_at_lem j wp w.by_job k
shelve_lem shelf k wp w none = stays (shelf_of shelf w) k
shelve_lem shelf k wp w (some (other, j)) = stays (shelf_of shelf w) k

pub group_lem :
    (shelf : Shelf) (k : String) (pod : Pod) (wp : WorkloadPod) (rs : Map String)
    (refs : List OwnerReference) (w : Walk)
    → get_or (shelf_of shelf (foldl (file_under pod wp rs) w refs)) k []
      ≡ get_or (shelf_of shelf w) k [] ++ under rs shelf k pod.namespace wp refs
unfolding file_under
group_lem shelf k pod wp rs [] w = stays (shelf_of shelf w) k
group_lem shelf k pod wp rs (ref ∷ rest) w =
    let to = destination rs pod.namespace ref in
    group_lem shelf k pod wp rs rest (shelve wp w to)
    ∙ ap (λ l. l ++ under rs shelf k pod.namespace wp rest) (shelve_lem shelf k wp w to)
    ∙ append_assoc (get_or (shelf_of shelf w) k []) (if leads_to shelf k to then wp ∷ [] else [])
        (under rs shelf k pod.namespace wp rest)

-- What filing leaves alone.
pub record SameCounts (v w : Walk) : Type 0 where
  pub total : w.total_pods ≡ v.total_pods
  pub not_ready : w.not_ready_pods ≡ v.not_ready_pods
  pub issues : w.pod_issues ≡ v.pod_issues
  pub bare : w.bare_pods ≡ v.bare_pods

shelve-SameCounts :
    (v : Walk) (wp : WorkloadPod) (w : Walk) (to : Option (Shelf × String))
    → SameCounts v w
    → SameCounts v (shelve wp w to)
unfolding shelve
shelve-SameCounts v wp w none h = h
shelve-SameCounts v wp w (some (deployments, j)) h = ground arith
shelve-SameCounts v wp w (some (other, j)) h = ground arith

pub group-SameCounts :
    (pod : Pod) (wp : WorkloadPod) (rs : Map String) (w : Walk)
    → SameCounts w (group_not_ready_pod pod wp rs w)
unfolding group_not_ready_pod file_under
group-SameCounts pod wp rs w =
    foldl_keeps (SameCounts w) (file_under pod wp rs)
      (λ v ref h. shelve-SameCounts w wp v (destination rs pod.namespace ref) h) pod.owners w
      (record { total = refl; not_ready = refl; issues = refl; bare = refl })
