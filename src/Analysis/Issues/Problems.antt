-- ===== src/Analysis/Issues/Problems.antt =====
-- internal/analysis/score.go: which texts a report lists as issues.
use mirops.Prelude.{
  ◌+◌, ◌≡◌, ◌≢◌, ◌↔◌, inl, inr, refl, ap, ◌∙◌, String, ◌<>◌, ◌==◌, true, false, List, [], ◌∷◌, ◌++◌,
  map, select, arith, length, In, In-append_left, In-append_right, In-append_cases, In-select,
  select-In, eq_of_==, ==_refl, apart,
}
use mirops.Prelude.Text.{decimal}
use mirops.Cluster.{
  PodIssue, NodeIssue, StatefulSetIssue, DaemonSetIssue, JobIssue, PdbIssue, DeprecatedApi,
  ClusterSnapshot,
}
use mirops.Analysis.Issues.{
  state_issues, build_issues, job_failed, job_running, pod_line, node_line, stateful_set_line,
  daemon_set_line, failed_job_line, running_job_line, pdb_line, api_line,
}
use mirops.Analysis.Issues.Count.{length-build_issues}

-- The text is about something that is wrong in the cluster now.
pub data StateProblem (s : ClusterSnapshot) (line : String) : Type 0 where
  a_pod :
      (p : PodIssue)
      → In p s.pod_issues
      → line
        ≡ "pod "
          <> p.namespace
          <> "/"
          <> p.name
          <> ": "
          <> p.reason
          <> " (restarts: "
          <> decimal p.restarts
          <> ")"
      → StateProblem s line
  a_node :
      (n : NodeIssue)
      → In n s.node_issues
      → line ≡ "node " <> n.name <> ": " <> n.reason
      → StateProblem s line
  a_stateful_set :
      (w : StatefulSetIssue)
      → In w s.stateful_set_issues
      → line
        ≡ "statefulset "
          <> w.namespace
          <> "/"
          <> w.name
          <> ": "
          <> decimal w.ready_replicas
          <> "/"
          <> decimal w.total_replicas
          <> " replicas ready"
      → StateProblem s line
  a_daemon_set :
      (w : DaemonSetIssue)
      → In w s.daemon_set_issues
      → line
        ≡ "daemonset "
          <> w.namespace
          <> "/"
          <> w.name
          <> ": "
          <> decimal w.number_unavailable
          <> " pod(s) unavailable"
      → StateProblem s line
  a_failed_job :
      (j : JobIssue)
      → In j s.job_issues
      → j.status ≡ "Failed"
      → line ≡ "job " <> j.namespace <> "/" <> j.name <> ": failed (" <> j.reason <> ")"
      → StateProblem s line

-- The text is about something that is wrong now, or that the upgrade would run into.
pub data Problem (s : ClusterSnapshot) (line : String) : Type 0 where
  now : StateProblem s line → Problem s line
  a_budget :
      (p : PdbIssue)
      → In p s.pdb_issues
      → line ≡ "pdb " <> p.namespace <> "/" <> p.name <> ": would block drain"
      → Problem s line
  a_running_job :
      (j : JobIssue)
      → In j s.job_issues
      → j.status ≢ "Failed"
      → line
        ≡ "job "
          <> j.namespace
          <> "/"
          <> j.name
          <> ": "
          <> decimal j.active
          <> " active pod(s) may be interrupted"
      → Problem s line
  an_api :
      (a : DeprecatedApi)
      → In a s.deprecated_api_list
      → line
        ≡ "deprecated API " <> a.resource <> " (" <> a.version <> ") removed in k8s "
          <> a.removed_in
      → Problem s line

module _ {A : Type 0} (f : A → String) where
  In-map : (l : String) (xs : List A) → In l (map f xs) → (x : A) × In x xs × (l ≡ f x)
  In-map l [] i = elim i [ ]
  In-map l (x ∷ xs) (inl e) = (x, inl refl, e)
  In-map l (x ∷ xs) (inr i) = let (y, j, e) = In-map l xs i in (y, inr j, e)

  map-In : (l : String) (xs : List A) (x : A) → In x xs → l ≡ f x → In l (map f xs)
  map-In l [] x i e = elim i [ ]
  map-In l (y ∷ ys) x (inl same) e = inl (e ∙ ap f same)
  map-In l (y ∷ ys) x (inr i) e = inr (map-In l ys x i e)

-- A text that stands in front of the texts on these elements or is one of them.
In-found :
    {A : Type 0} (f : A → String) (P : String → Type 0) (l : String) (front : List String)
    (xs : List A)
    → (In l front → P l)
    → ((x : A) → In x xs → l ≡ f x → P l)
    → In l (front ++ map f xs)
    → P l
In-found f P l front xs before here i = elim (In-append_cases l front (map f xs) i) [
  | inl a ↦ before a
  | inr a ↦ let (x, k, e) = In-map f l xs a in here x k e
]

found-In :
    {A : Type 0} (f : A → String) (l : String) (front : List String) (xs : List A) (x : A)
    → In x xs
    → l ≡ f x
    → In l (front ++ map f xs)
found-In f l front xs x i e = In-append_right l front (map f xs) (map-In f l xs x i e)

module _ (s : ClusterSnapshot) (l : String) where
  abbrev pods : List String
  pods = map pod_line s.pod_issues

  abbrev to_nodes : List String
  to_nodes = pods ++ map node_line s.node_issues

  abbrev to_stateful_sets : List String
  to_stateful_sets = to_nodes ++ map stateful_set_line s.stateful_set_issues

  abbrev to_daemon_sets : List String
  to_daemon_sets = to_stateful_sets ++ map daemon_set_line s.daemon_set_issues

  abbrev to_budgets : List String
  to_budgets = state_issues s ++ map pdb_line s.pdb_issues

  abbrev to_running : List String
  to_running = to_budgets ++ map running_job_line (select job_running s.job_issues)

  failed-found :
      (j : JobIssue)
      → In j (select job_failed s.job_issues)
      → l ≡ failed_job_line j
      → StateProblem s l
  failed-found j k e =
      let (m, test) = In-select job_failed j s.job_issues k in
      a_failed_job j m (eq_of_== j.status "Failed" test) e

  pods-found : In l pods → StateProblem s l
  pods-found i = let (p, k, e) = In-map pod_line l s.pod_issues i in a_pod p k e

  state_issues-found : In l (state_issues s) → StateProblem s l
  unfolding state_issues
  state_issues-found =
      In-found failed_job_line (StateProblem s) l to_daemon_sets (select job_failed s.job_issues)
        (In-found daemon_set_line (StateProblem s) l to_stateful_sets s.daemon_set_issues
          (In-found stateful_set_line (StateProblem s) l to_nodes s.stateful_set_issues
            (In-found node_line (StateProblem s) l pods s.node_issues pods-found a_node)
            a_stateful_set)
          a_daemon_set)
        failed-found

  -- What stands in the lists in front stands in the whole list.
  kept_to_daemon_sets : In l to_daemon_sets → In l (state_issues s)
  unfolding state_issues
  kept_to_daemon_sets i =
      In-append_left l to_daemon_sets (map failed_job_line (select job_failed s.job_issues)) i

  kept_to_stateful_sets : In l to_stateful_sets → In l (state_issues s)
  kept_to_stateful_sets i =
      kept_to_daemon_sets
        (In-append_left l to_stateful_sets (map daemon_set_line s.daemon_set_issues) i)

  kept_to_nodes : In l to_nodes → In l (state_issues s)
  kept_to_nodes i =
      kept_to_stateful_sets
        (In-append_left l to_nodes (map stateful_set_line s.stateful_set_issues) i)

  found-state_issues : StateProblem s l → In l (state_issues s)
  unfolding state_issues
  found-state_issues (a_pod p i e) =
      kept_to_nodes
        (In-append_left l pods (map node_line s.node_issues) (map-In pod_line l s.pod_issues p i e))
  found-state_issues (a_node n i e) = kept_to_nodes (found-In node_line l pods s.node_issues n i e)
  found-state_issues (a_stateful_set w i e) =
      kept_to_stateful_sets (found-In stateful_set_line l to_nodes s.stateful_set_issues w i e)
  found-state_issues (a_daemon_set w i e) =
      kept_to_daemon_sets (found-In daemon_set_line l to_stateful_sets s.daemon_set_issues w i e)
  found-state_issues (a_failed_job j i is_failed e) =
      let test : job_failed j ≡ true = ap (λ t. t == "Failed") is_failed ∙ ==_refl "Failed" in
      found-In failed_job_line l to_daemon_sets (select job_failed s.job_issues) j
        (select-In job_failed j s.job_issues test i) e

  running-found :
      (j : JobIssue) → In j (select job_running s.job_issues) → l ≡ running_job_line j → Problem s l
  running-found j k e =
      let (m, test) = In-select job_running j s.job_issues k in
      let differs : job_failed j ≡ false = ground arith in
      a_running_job j m (apart j.status "Failed" differs) e

  build_issues-found : In l (build_issues s) → Problem s l
  unfolding build_issues
  build_issues-found =
      In-found api_line (Problem s) l to_running s.deprecated_api_list
        (In-found running_job_line (Problem s) l to_budgets (select job_running s.job_issues)
          (In-found pdb_line (Problem s) l (state_issues s) s.pdb_issues
            (λ i. now (state_issues-found i)) a_budget)
          running-found)
        an_api

  kept_to_running : In l to_running → In l (build_issues s)
  unfolding build_issues
  kept_to_running i = In-append_left l to_running (map api_line s.deprecated_api_list) i

  kept_to_budgets : In l to_budgets → In l (build_issues s)
  kept_to_budgets i =
      kept_to_running
        (In-append_left l to_budgets (map running_job_line (select job_running s.job_issues)) i)

  found-build_issues : Problem s l → In l (build_issues s)
  unfolding build_issues
  found-build_issues (now p) =
      kept_to_budgets
        (In-append_left l (state_issues s) (map pdb_line s.pdb_issues) (found-state_issues p))
  found-build_issues (a_budget p i e) =
      kept_to_budgets (found-In pdb_line l (state_issues s) s.pdb_issues p i e)
  found-build_issues (a_running_job j i runs e) =
      let test : job_running j ≡ true = ground arith in
      kept_to_running (
        found-In running_job_line l to_budgets (select job_running s.job_issues) j
          (select-In job_running j s.job_issues test i) e)
  found-build_issues (an_api a i e) = found-In api_line l to_running s.deprecated_api_list a i e

-- The upgrade report lists exactly the problems of the snapshot, each with the text that names it:
-- each pod, node, stateful set and daemon set with a problem, each failed job, each disruption
-- budget that would block a drain, each job with another status as one that may be interrupted, and
-- each removed API. It has as many texts as there are problems. The mirror's report lists exactly
-- those that are wrong now, which are the same but for the budgets, the running jobs and the APIs.
pub build_issues_lem :
    (s : ClusterSnapshot)
    → ((l : String) → In l (build_issues s) ↔ Problem s l)
      × ((l : String) → In l (state_issues s) ↔ StateProblem s l)
      × (length (build_issues s)
          ≡ length s.pod_issues
            + length s.node_issues
            + length s.stateful_set_issues
            + length s.daemon_set_issues
            + length s.job_issues
            + length s.pdb_issues
            + length s.deprecated_api_list)
build_issues_lem s = (
  λ l. (build_issues-found s l, found-build_issues s l),
  λ l. (state_issues-found s l, found-state_issues s l),
  length-build_issues s,
)
