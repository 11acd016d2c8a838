-- ===== src/Collector/Scoped/Pods.antt =====
-- The loop over the pods adds none of an excluded namespace.
use mirops.Prelude.{
  ℕ, ◌≡◌, String, Bool, true, List, [], ◌∷◌, All, All-append, foldl_keeps, Bool-cases, inl, inr,
  arith,
}
use mirops.Prelude.Maps.{Map}
use mirops.Cluster.{PodIssue, BarePod, WorkloadPod}
use mirops.Collector.Objects.{Api, Pod, OwnerReference}
use mirops.Collector.Pods.{is_pod_ready}
use mirops.Collector.Walk.{
  Walk, in_scope, new_walk, file_under, group_not_ready_pod, has_owner, workload_pod, count_pod,
  mirror_bare, report_not_ready, is_counted, visit_pod, walk_pods,
}

-- What the walk reports lies in namespaces with a property.
module _ (Inside : String → Type 0) where
  pub record WalkInside (w : Walk) : Type 0 where
    pub issues : All (λ (i : PodIssue). Inside i.namespace) w.pod_issues
    pub bare : All (λ (p : BarePod). Inside p.namespace) w.bare_pods

  file_under-WalkInside :
      (pod : Pod) (wp : WorkloadPod) (rs : Map String) (w : Walk) (ref : OwnerReference)
      → WalkInside w
      → WalkInside (file_under pod wp rs w ref)
  unfolding file_under
  file_under-WalkInside pod wp rs w ref h = ground arith

  group_not_ready_pod-WalkInside :
      (pod : Pod) (wp : WorkloadPod) (rs : Map String) (w : Walk)
      → WalkInside w
      → WalkInside (group_not_ready_pod pod wp rs w)
  unfolding group_not_ready_pod
  group_not_ready_pod-WalkInside pod wp rs w h =
      foldl_keeps WalkInside _ (λ v ref k. file_under-WalkInside pod wp rs v ref k) pod.owners w h

  count_pod-WalkInside :
      (pod : Pod) (at : ℕ) (rs : Map String) (w : Walk)
      → WalkInside w
      → WalkInside (count_pod pod at rs w)
  unfolding count_pod
  count_pod-WalkInside pod at rs w h = record { issues = h.issues; bare = h.bare }

  mirror_bare-WalkInside :
      (pod : Pod) (w : Walk) → Inside pod.namespace → WalkInside w → WalkInside (mirror_bare pod w)
  unfolding mirror_bare
  mirror_bare-WalkInside pod w i h = elim (Bool-cases (has_owner pod)) [
    | inl e ↦ rw (e, mirror_bare) h
    | inr e ↦
        rw (e, mirror_bare)
          (record { issues = h.issues; bare = All-append _ w.bare_pods _ h.bare (i, tt) })
  ]

  report_not_ready-WalkInside :
      (pod : Pod) (rs : Map String) (w : Walk)
      → Inside pod.namespace
      → WalkInside w
      → WalkInside (report_not_ready pod rs w)
  unfolding report_not_ready
  report_not_ready-WalkInside pod rs w i h = elim (Bool-cases (is_pod_ready pod)) [
    | inl e ↦ rw (e, report_not_ready) h
    | inr e ↦
        rw (e, report_not_ready)
          (group_not_ready_pod-WalkInside pod (workload_pod pod) rs _
            (record { issues = All-append _ w.pod_issues _ h.issues (i, tt); bare = h.bare }))
  ]

  module _ (excluded : Map Bool)
      (inside : (ns : String) → in_scope excluded ns ≡ true → Inside ns) where
    counted-Inside : (pod : Pod) → is_counted excluded pod ≡ true → Inside pod.namespace
    counted-Inside pod e = inside pod.namespace (ground arith)

    visit_pod-WalkInside :
        (rs : Map String) (at : ℕ) (w : Walk) (pod : Pod)
        → WalkInside w
        → WalkInside (visit_pod excluded rs at w pod)
    unfolding visit_pod
    visit_pod-WalkInside rs at w pod h = elim (Bool-cases (is_counted excluded pod)) [
      | inl e ↦
          let i = counted-Inside pod e in
          rw (e, visit_pod)
            (report_not_ready-WalkInside pod rs _ i
              (mirror_bare-WalkInside pod _ i (count_pod-WalkInside pod at rs w h)))
      | inr e ↦ rw (e, visit_pod) h
    ]

    pub walk_pods-WalkInside :
        (A : Api) (rs : Map String) (pods : List Pod) (w : Walk) (s : A.State)
        → WalkInside w
        → WalkInside (walk_pods A excluded rs pods w s).0
    unfolding walk_pods
    walk_pods-WalkInside A rs [] w s h = h
    walk_pods-WalkInside A rs (pod ∷ rest) w s h =
        walk_pods-WalkInside A rs rest _ _ (visit_pod-WalkInside rs _ w pod h)

  pub new_walk-WalkInside : WalkInside new_walk
  unfolding new_walk
  new_walk-WalkInside = record { issues = tt; bare = tt }
