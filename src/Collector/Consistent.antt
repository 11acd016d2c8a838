-- ===== src/Collector/Consistent.antt =====
-- The counts of a collected snapshot agree with its lists.
use mirops.Prelude.{
  ℕ, ◌+◌, ◌≤◌, ◌<◌, ◌≡◌, ◌⊎◌, inl, inr, refl, String, Bool, true, false, ◌||◌, List, [], ◌∷◌, ◌++◌,
  map, select, length, length-append, All, All-append, All-select_test, All-map, foldl_keeps,
  ltb→lt, if◌then◌else◌, Bool-cases, ok, arith,
}
use mirops.Prelude.Maps.{Map}
use mirops.Cluster.{
  ClusterSnapshot, PdbIssue, StatefulSetIssue, DaemonSetIssue, JobIssue, WorkloadPod,
  job_status_active, job_status_failed,
}
use mirops.Collector.Objects.{
  Api, Pod, OwnerReference, StatefulSet, DaemonSet, JobObject, DisruptionBudget,
}
use mirops.Collector.Pods.{is_pod_ready, is_restarting_abnormally}
use mirops.Collector.Walk.{
  Scope, Walk, excluded_of, new_walk, file_under, group_not_ready_pod, has_owner, workload_pod,
  pod_issue, count_pod, mirror_bare, report_not_ready, is_counted, visit_pod, walk_pods,
}
use mirops.Collector.Inventory.{
  within, is_blocking, pdb_issue, is_short, stateful_set_issue, is_unavailable, daemon_set_issue,
  has_failed, is_job_issue, job_issue, deprecated_list,
}
use mirops.Collector.Fill.{
  new_snapshot, put_pods, put_resources, put_deployments, put_nodes, put_budgets, put_stateful_sets,
  put_daemon_sets, put_jobs, put_services, put_ingresses, put_workloads, put_claims, put_deprecated,
  any_blocking,
}
use mirops.Collector.Collect.{collect}
use mirops.Collector.Outcomes.{Ensures-ok}
use mirops.Collector.Kept.{IsKept, collect-Ensures}

record WalkConsistent (w : Walk) : Type 0 where
  listed : w.not_ready_pods ≡ length w.pod_issues
  not_ready : w.not_ready_pods ≤ w.total_pods
  restarting : w.restarting_pods ≤ w.total_pods

file_under-WalkConsistent :
    (pod : Pod) (wp : WorkloadPod) (rs : Map String) (w : Walk) (ref : OwnerReference)
    → WalkConsistent w
    → WalkConsistent (file_under pod wp rs w ref)
unfolding file_under
file_under-WalkConsistent pod wp rs w ref h = ground arith

group_not_ready_pod-WalkConsistent :
    (pod : Pod) (wp : WorkloadPod) (rs : Map String) (w : Walk)
    → WalkConsistent w
    → WalkConsistent (group_not_ready_pod pod wp rs w)
unfolding group_not_ready_pod
group_not_ready_pod-WalkConsistent pod wp rs w h =
    foldl_keeps WalkConsistent _ (λ v ref k. file_under-WalkConsistent pod wp rs v ref k) pod.owners
      w h

-- One more pod is counted, and then listed if it is not ready.
record WalkOpen (w : Walk) : Type 0 where
  listed : w.not_ready_pods ≡ length w.pod_issues
  not_ready : w.not_ready_pods < w.total_pods
  restarting : w.restarting_pods ≤ w.total_pods

one_more : (b : Bool) (n m : ℕ) → n ≤ m → (if b then n + 1 else n) ≤ m + 1
one_more b n m h = ground arith

count_pod-WalkOpen :
    (pod : Pod) (at : ℕ) (rs : Map String) (w : Walk)
    → WalkConsistent w
    → WalkOpen (count_pod pod at rs w)
unfolding count_pod
count_pod-WalkOpen pod at rs w h = record {
  listed = h.listed;
  not_ready = omega arith;
  restarting =
      one_more (is_restarting_abnormally pod at) w.restarting_pods w.total_pods h.restarting;
}

mirror_bare-WalkOpen : (pod : Pod) (w : Walk) → WalkOpen w → WalkOpen (mirror_bare pod w)
unfolding mirror_bare
mirror_bare-WalkOpen pod w h = elim (Bool-cases (has_owner pod)) [
  | inl e ↦ rw (e, mirror_bare) h
  | inr e ↦ rw (e, mirror_bare) (ground arith)
]

report_not_ready-WalkConsistent :
    (pod : Pod) (rs : Map String) (w : Walk)
    → WalkOpen w
    → WalkConsistent (report_not_ready pod rs w)
unfolding report_not_ready
report_not_ready-WalkConsistent pod rs w h = elim (Bool-cases (is_pod_ready pod)) [
  | inl e ↦ rw (e, report_not_ready) (ground arith)
  | inr e ↦
      rw (e, report_not_ready)
        (group_not_ready_pod-WalkConsistent pod (workload_pod pod) rs _
          (ground (arith, length-append w.pod_issues (pod_issue pod ∷ []))))
]

visit_pod-WalkConsistent :
    (excluded : Map Bool) (rs : Map String) (at : ℕ) (w : Walk) (pod : Pod)
    → WalkConsistent w
    → WalkConsistent (visit_pod excluded rs at w pod)
unfolding visit_pod
visit_pod-WalkConsistent excluded rs at w pod h = elim (Bool-cases (is_counted excluded pod)) [
  | inl e ↦
      rw (e, visit_pod)
        (report_not_ready-WalkConsistent pod rs _
          (mirror_bare-WalkOpen pod _ (count_pod-WalkOpen pod at rs w h)))
  | inr e ↦ rw (e, visit_pod) h
]

walk_pods-WalkConsistent :
    (A : Api) (excluded : Map Bool) (rs : Map String) (pods : List Pod) (w : Walk) (s : A.State)
    → WalkConsistent w
    → WalkConsistent (walk_pods A excluded rs pods w s).0
unfolding walk_pods
walk_pods-WalkConsistent A excluded rs [] w s h = h
walk_pods-WalkConsistent A excluded rs (pod ∷ rest) w s h =
    walk_pods-WalkConsistent A excluded rs rest _ _ (visit_pod-WalkConsistent excluded rs _ w pod h)

new_walk-WalkConsistent : WalkConsistent new_walk
unfolding new_walk
new_walk-WalkConsistent = ground arith

-- The kinds of entries that the lists of problems may hold.

abbrev pub IsShort : StatefulSetIssue → Type 0
IsShort i = i.ready_replicas < i.total_replicas

abbrev pub IsUnavailable : DaemonSetIssue → Type 0
IsUnavailable i = 0 < i.number_unavailable

abbrev pub IsJobProblem : JobIssue → Type 0
IsJobProblem i = (i.status ≡ job_status_failed) ⊎ ((i.status ≡ job_status_active) × (0 < i.active))

abbrev pub is_nonempty : List PdbIssue → Bool
is_nonempty [] = false
is_nonempty (_ ∷ _) = true

pub record IsConsistent (snap : ClusterSnapshot) : Type 0 where
  pub listed : snap.not_ready_pods ≡ length snap.pod_issues
  pub not_ready : snap.not_ready_pods ≤ snap.total_pods
  pub restarting : snap.restarting_pods ≤ snap.total_pods
  pub deprecated : snap.deprecated_apis ≡ length snap.deprecated_api_list
  pub blocking : snap.pdb_blocking ≡ is_nonempty snap.pdb_issues
  pub short : All IsShort snap.stateful_set_issues
  pub unavailable : All IsUnavailable snap.daemon_set_issues
  pub jobs : All IsJobProblem snap.job_issues

put_pods-IsConsistent :
    (w : Walk) (version : String) (n : ℕ)
    → WalkConsistent w
    → IsConsistent (put_pods w (new_snapshot version n))
unfolding put_pods new_snapshot
put_pods-IsConsistent w version n h = ground arith

IsShort-issues :
    (pods : Map (List WorkloadPod)) (xs : List StatefulSet)
    → All IsShort (map (stateful_set_issue pods) (select is_short xs))
IsShort-issues pods xs =
    All-map _ IsShort _ (λ x e. ltb→lt _ _ e) _
      (All-select_test (λ x. is_short x ≡ true) is_short (λ x e. e) xs)

IsUnavailable-issues :
    (pods : Map (List WorkloadPod)) (xs : List DaemonSet)
    → All IsUnavailable (map (daemon_set_issue pods) (select is_unavailable xs))
IsUnavailable-issues pods xs =
    All-map _ IsUnavailable _ (λ x e. ltb→lt _ _ e) _
      (All-select_test (λ x. is_unavailable x ≡ true) is_unavailable (λ x e. e) xs)

left_of_or : (a b : Bool) → b ≡ false → (a || b) ≡ true → a ≡ true
left_of_or true b f e = refl
left_of_or false b f e = cc (f, e)

job_problem :
    (pods : Map (List WorkloadPod)) (j : JobObject)
    → is_job_issue j ≡ true
    → IsJobProblem (job_issue pods j)
unfolding job_issue
job_problem pods j e = elim (Bool-cases (has_failed j)) [
  | inl f ↦ rw (f, job_issue) (inl refl)
  | inr f ↦ rw (f, job_issue) (inr (refl, ltb→lt 0 j.status.active (left_of_or _ _ f e)))
]

job_problems :
    (pods : Map (List WorkloadPod)) (xs : List JobObject)
    → All IsJobProblem (map (job_issue pods) (select is_job_issue xs))
job_problems pods xs =
    All-map _ IsJobProblem (job_issue pods) (λ x e. job_problem pods x e) _
      (All-select_test (λ x. is_job_issue x ≡ true) is_job_issue (λ x e. e) xs)

any_or :
    (old : List PdbIssue) (bs : List DisruptionBudget)
    → (is_nonempty old || any_blocking bs) ≡ is_nonempty (old ++ map pdb_issue bs)
any_or [] [] = refl
any_or [] (b ∷ bs) = refl
any_or (o ∷ old) bs = refl

IsConsistent-IsKept : (excluded : Map Bool) → IsKept excluded IsConsistent
unfolding put_resources put_nodes put_deprecated put_deployments put_budgets put_stateful_sets
    put_daemon_sets put_jobs put_services put_ingresses put_claims put_workloads
IsConsistent-IsKept excluded = record {
  resources = λ items snap h. ground arith;
  nodes = λ items snap h. ground arith;
  deprecated = λ lists snap h.
      ground (arith, length-append snap.deprecated_api_list (deprecated_list lists));
  addons = λ found snap h. ground arith;
  deployments = λ pods items snap h. ground arith;
  budgets = λ items snap h. ground (
    arith,
    any_or snap.pdb_issues
        (select is_blocking (within (λ (b : DisruptionBudget). b.namespace) excluded items)),
  );
  stateful_sets = λ pods items snap h.
      let added =
        All-append _ snap.stateful_set_issues _ h.short
          (IsShort-issues pods (within (λ (t : StatefulSet). t.namespace) excluded items)) in
      ground arith;
  daemon_sets = λ pods items snap h.
      let added =
        All-append _ snap.daemon_set_issues _ h.unavailable
          (IsUnavailable-issues pods (within (λ (d : DaemonSet). d.namespace) excluded items)) in
      ground arith;
  jobs = λ pods items snap h.
      let added =
        All-append _ snap.job_issues _ h.jobs
          (job_problems pods (within (λ (j : JobObject). j.namespace) excluded items)) in
      ground arith;
  services = λ items snap h. ground arith;
  ingresses = λ items snap h. ground arith;
  claims = λ classes items snap h. ground arith;
  deployments_listed = λ nodes items snap h. ground arith;
  stateful_sets_listed = λ nodes items snap h. ground arith;
  daemon_sets_listed = λ nodes items snap h. ground arith;
  jobs_listed = λ nodes items snap h. ground arith;
  cron_jobs_listed = λ nodes items snap h. ground arith;
}

-- Whatever the server answers: if the collector returns a snapshot, then it lists each pod that is
-- not ready, these and the restarting pods are no more than all pods, the removed APIs are counted as
-- often as they are listed, disruption budgets block exactly if one is listed, each stateful set
-- listed lacks replicas, each daemon set listed has some unavailable, and each job listed has failed
-- or is active with pods.
pub collect-IsConsistent :
    (A : Api) (scope : Scope) (s : A.State) (snap : ClusterSnapshot)
    → (collect A scope s).0 ≡ ok snap
    → IsConsistent snap
collect-IsConsistent A scope s snap e =
    Ensures-ok A IsConsistent (collect A scope s) snap
      (collect-Ensures A scope IsConsistent (IsConsistent-IsKept (excluded_of scope))
        (λ rs pods version n t. put_pods-IsConsistent _ version n (
          walk_pods-WalkConsistent A (excluded_of scope) rs pods new_walk t
            new_walk-WalkConsistent))
        s)
      e
