-- ===== src/Collector/Grouped/Visit.antt =====
-- One round of the loop over the pods.
use mathlib.Core.List.{append-nil}
use mirops.Prelude.{
  ℕ, ◌+◌, ◌≡◌, refl, sym, ap, ◌∙◌, String, Bool, true, false, not, List, [], ◌∷◌, ◌++◌, map, select,
  length, count_if, length-select, if◌then◌else◌, Bool-cases, inl, inr, arith,
}
use mirops.Prelude.Maps.{Map, get_or}
use mirops.Cluster.{WorkloadPod, PodIssue, BarePod}
use mirops.Collector.Objects.{Pod}
use mirops.Collector.Pods.{is_pod_ready}
use mirops.Collector.Walk.{
  Walk, Shelf, deployments, group_not_ready_pod, pod_issue, bare_pod, has_owner, workload_pod,
  count_pod, mirror_bare, report_not_ready, is_counted, visit_pod,
}
use mirops.Collector.Grouped.{shelf_of, under, filed, is_broken, is_bare, Adds}
use mirops.Collector.Grouped.Filing.{stays, group_lem, group-SameCounts}

module _ (excluded : Map Bool) (rs : Map String) where
  -- The same, when what is selected is known.
  Adds-of :
      (pods broken bare : List Pod) (v w : Walk)
      → select (is_broken excluded) pods ≡ broken
      → select (is_bare excluded) pods ≡ bare
      → w.total_pods ≡ v.total_pods + count_if (is_counted excluded) pods
      → w.not_ready_pods ≡ v.not_ready_pods + length broken
      → w.pod_issues ≡ v.pod_issues ++ map pod_issue broken
      → w.bare_pods ≡ v.bare_pods ++ map bare_pod bare
      → ((shelf : Shelf) (k : String)
          → get_or (shelf_of shelf w) k []
            ≡ get_or (shelf_of shelf v) k [] ++ filed rs shelf k broken)
      → Adds excluded rs pods v w
  Adds-of pods broken bare v w e f total not_ready issues bares shelves = record {
    total = total;
    not_ready =
        not_ready
        ∙ ap (λ n. v.not_ready_pods + n)
            (ap length (sym e) ∙ length-select (is_broken excluded) pods);
    issues = issues ∙ ap (λ l. v.pod_issues ++ map pod_issue l) (sym e);
    bare = bares ∙ ap (λ l. v.bare_pods ++ map bare_pod l) (sym f);
    shelves = λ shelf k.
        shelves shelf k ∙ ap (λ l. get_or (shelf_of shelf v) k [] ++ filed rs shelf k l) (sym e);
  }

  bare_shelf :
      (w : Walk) (l : List BarePod) (shelf : Shelf)
      → shelf_of shelf (record w { bare_pods = l }) ≡ shelf_of shelf w
  bare_shelf w l deployments = refl
  bare_shelf w l other = refl

  noted_shelf :
      (w : Walk) (n : ℕ) (l : List PodIssue) (shelf : Shelf)
      → shelf_of shelf (record w { not_ready_pods = n; pod_issues = l }) ≡ shelf_of shelf w
  noted_shelf w n l deployments = refl
  noted_shelf w n l other = refl

  module _ (pod : Pod) where
    -- Nothing, or what the pod adds.
    abbrev unless : {B : Type 0} → Bool → B → List B
    unless b x = if b then [] else x ∷ []

    record Counted (w v : Walk) : Type 0 where
      total : v.total_pods ≡ w.total_pods + 1
      not_ready : v.not_ready_pods ≡ w.not_ready_pods
      issues : v.pod_issues ≡ w.pod_issues
      bare : v.bare_pods ≡ w.bare_pods
      shelves : (shelf : Shelf) → shelf_of shelf v ≡ shelf_of shelf w

    count_shelf :
        (at : ℕ) (w : Walk) (shelf : Shelf)
        → shelf_of shelf (count_pod pod at rs w) ≡ shelf_of shelf w
    unfolding count_pod
    count_shelf at w deployments = refl
    count_shelf at w other = refl

    count_pod-Counted : (at : ℕ) (w : Walk) → Counted w (count_pod pod at rs w)
    unfolding count_pod
    count_pod-Counted at w = record {
      total = refl;
      not_ready = refl;
      issues = refl;
      bare = refl;
      shelves = count_shelf at w;
    }

    record Mirrored (w v : Walk) : Type 0 where
      total : v.total_pods ≡ w.total_pods
      not_ready : v.not_ready_pods ≡ w.not_ready_pods
      issues : v.pod_issues ≡ w.pod_issues
      bare : v.bare_pods ≡ w.bare_pods ++ unless (has_owner pod) (bare_pod pod)
      shelves : (shelf : Shelf) → shelf_of shelf v ≡ shelf_of shelf w

    mirror_bare-Mirrored : (w : Walk) → Mirrored w (mirror_bare pod w)
    unfolding mirror_bare
    mirror_bare-Mirrored w = elim (Bool-cases (has_owner pod)) [
      | inl e ↦
          rw (e, mirror_bare)
            (record {
              total = refl;
              not_ready = refl;
              issues = refl;
              bare = rw e (sym (append-nil w.bare_pods));
              shelves = λ shelf. refl;
            })
      | inr e ↦
          rw (e, mirror_bare)
            (record {
              total = refl;
              not_ready = refl;
              issues = refl;
              bare = rw e refl;
              shelves = bare_shelf w _;
            })
    ]

    abbrev filed_here : Shelf → String → List WorkloadPod
    filed_here shelf k = under rs shelf k pod.namespace (workload_pod pod) pod.owners

    record Reported (w v : Walk) : Type 0 where
      total : v.total_pods ≡ w.total_pods
      not_ready : v.not_ready_pods ≡ w.not_ready_pods + length (unless (is_pod_ready pod) pod)
      issues : v.pod_issues ≡ w.pod_issues ++ unless (is_pod_ready pod) (pod_issue pod)
      bare : v.bare_pods ≡ w.bare_pods
      shelves :
          (shelf : Shelf) (k : String)
          → get_or (shelf_of shelf v) k []
            ≡ get_or (shelf_of shelf w) k [] ++ filed rs shelf k (unless (is_pod_ready pod) pod)

    report_not_ready-Reported : (w : Walk) → Reported w (report_not_ready pod rs w)
    unfolding report_not_ready group_not_ready_pod
    report_not_ready-Reported w = elim (Bool-cases (is_pod_ready pod)) [
      | inl e ↦
          rw (e, report_not_ready)
            (record {
              total = refl;
              not_ready = rw e (omega arith);
              issues = rw e (sym (append-nil w.pod_issues));
              bare = refl;
              shelves = λ shelf k. rw e (stays (shelf_of shelf w) k);
            })
      | inr e ↦
          let noted = record w {
            not_ready_pods = w.not_ready_pods + 1;
            pod_issues = w.pod_issues ++ pod_issue pod ∷ [];
          } in
          let same = group-SameCounts pod (workload_pod pod) rs noted in
          rw (e, report_not_ready)
            (record {
              total = same.total;
              not_ready = same.not_ready ∙ (rw e refl);
              issues = same.issues ∙ (rw e refl);
              bare = same.bare;
              shelves = λ shelf k.
                  group_lem shelf k pod (workload_pod pod) rs pod.owners noted
                  ∙ ap (λ (m : Map (List WorkloadPod)). get_or m k [] ++ filed_here shelf k)
                      (noted_shelf w noted.not_ready_pods noted.pod_issues shelf)
                  ∙ (rw e (
                      ap (λ l. get_or (shelf_of shelf w) k [] ++ l)
                        (sym (append-nil (filed_here shelf k)))));
            })
    ]

    map-unless : {B : Type 0} (f : Pod → B) (b : Bool) → map f (unless b pod) ≡ unless b (f pod)
    map-unless f true = refl
    map-unless f false = refl

    select_one : (p : Pod → Bool) (b : Bool) → p pod ≡ not b → select p (pod ∷ []) ≡ unless b pod
    select_one p true e = rw (e, select) refl
    select_one p false e = rw (e, select) refl

    visit_counted :
        (at : ℕ) (w : Walk)
        → is_counted excluded pod ≡ true
        → Adds excluded rs
            (pod ∷ [])
            w
            (report_not_ready pod rs (mirror_bare pod (count_pod pod at rs w)))
    visit_counted at w e =
        let c = count_pod-Counted at w in
        let m = mirror_bare-Mirrored (count_pod pod at rs w) in
        let r = report_not_ready-Reported (mirror_bare pod (count_pod pod at rs w)) in
        let broken = unless (is_pod_ready pod) pod in
        let bare = unless (has_owner pod) pod in
        Adds-of (pod ∷ []) broken bare w _
          (select_one (is_broken excluded) (is_pod_ready pod) (rw e refl))
          (select_one (is_bare excluded) (has_owner pod) (rw e refl))
          (r.total ∙ m.total ∙ c.total ∙ (rw (e, count_if) refl))
          (r.not_ready ∙ ap (λ n. n + length broken) (m.not_ready ∙ c.not_ready))
          (r.issues
            ∙ ap (λ l. l ++ unless (is_pod_ready pod) (pod_issue pod)) (m.issues ∙ c.issues)
            ∙ ap (λ l. w.pod_issues ++ l) (sym (map-unless pod_issue (is_pod_ready pod))))
          (r.bare
            ∙ m.bare
            ∙ ap (λ l. l ++ unless (has_owner pod) (bare_pod pod)) c.bare
            ∙ ap (λ l. w.bare_pods ++ l) (sym (map-unless bare_pod (has_owner pod))))
          (λ shelf k.
            r.shelves shelf k
            ∙ ap (λ (n : Map (List WorkloadPod)). get_or n k [] ++ filed rs shelf k broken)
                (m.shelves shelf ∙ c.shelves shelf))

  pub visit_pod-Adds :
      (at : ℕ) (w : Walk) (pod : Pod)
      → Adds excluded rs (pod ∷ []) w (visit_pod excluded rs at w pod)
  unfolding visit_pod
  visit_pod-Adds at w pod = elim (Bool-cases (is_counted excluded pod)) [
    | inl e ↦ rw (e, visit_pod) (visit_counted pod at w e)
    | inr e ↦
        rw (e, visit_pod)
          (Adds-of (pod ∷ []) [] [] w w (rw (e, select) refl) (rw (e, select) refl)
            (rw (e, count_if) (omega arith)) (omega arith) (sym (append-nil w.pod_issues))
            (sym (append-nil w.bare_pods)) (λ shelf k. stays (shelf_of shelf w) k))
  ]
