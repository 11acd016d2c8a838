-- ===== src/Examples/CollectRuns.antt =====
-- The theorems on the collection of a snapshot, applied to a small cluster: a web server with a pod
-- that crashes, and a pod of the system.
use mirops.Prelude.{
  ◌≡◌, refl, String, ◌<>◌, false, none, some, List, [], ◌∷◌, map, select, count_if, Result, ok, err,
  string_dec,
}
use mirops.Prelude.Maps.{get_or}
use mirops.Cluster.{ClusterSnapshot}
use mirops.Collector.Objects.{Api, Pod, PodSpec, PodTemplate, ReplicaSet, Deployment, StatefulSet}
use mirops.Collector.Walk.{
  Scope, Walk, Shelf, excluded_of, rs_to_deploy_map, new_walk, pod_issue, bare_pod, is_counted,
  walk_pods,
}
use mirops.Collector.Grouped.{shelf_of, filed, is_broken, is_bare}
use mirops.Collector.Grouped.Whole.{walk_pods_lem}
use mirops.Collector.Collect.{collect}
use mirops.Collector.Scoped.{IsExcluded}
use mirops.Collector.Scoped.Steps.{LiesInside}
use mirops.Collector.Scoped.Whole.{collect-LiesInside}
use mirops.Collector.Consistent.{IsConsistent, collect-IsConsistent}
use mirops.Collector.Addons.{image_tag}
use mirops.Collector.Addons.Tags.{has, IsPlain, image_tag_lem}
use mirops.Examples.{shop}

abbrev spec : PodSpec
spec = record { node_name = "node-1"; restart_policy = "Always"; containers = []; volumes = [] }

abbrev crashing : Pod
crashing = record {
  namespace = "shop";
  name = "web-1";
  created = 0;
  owners = record { kind = "ReplicaSet"; name = "web-7f" } ∷ [];
  spec = spec;
  phase = "Running";
  conditions = record { type = "Ready"; status = "False" } ∷ [];
  container_statuses =
      record { restart_count = 12; waiting = some "CrashLoopBackOff"; terminated = none } ∷ [];
}

abbrev system_pod : Pod
system_pod = record crashing { namespace = "kube-system"; name = "dns-1"; owners = [] }

abbrev bare : Pod
bare = record crashing { name = "debug"; owners = [] }

abbrev template : PodTemplate
template = record { labels = []; annotations = []; spec = spec }

abbrev web : Deployment
web = record {
  namespace = "shop";
  name = "web";
  labels = [];
  replicas = some 2;
  ready_replicas = 1;
  template = template;
}

abbrev database : StatefulSet
database = record {
  namespace = "shop";
  name = "db";
  replicas = none;
  ready_replicas = 0;
  template = template;
}

abbrev web_set : ReplicaSet
web_set = record {
  namespace = "shop";
  name = "web-7f";
  owners = record { kind = "Deployment"; name = "web" } ∷ [];
}

abbrev pods : List Pod
pods = crashing ∷ system_pod ∷ bare ∷ []

-- A server that answers, except for ingresses; its state never changes.
abbrev server : Api
server = record {
  State = Unit {0};
  now = λ s. (3600000000000, s);
  server_version = λ s. (ok "v1.29.4", s);
  list_namespaces = λ s. (ok ("shop" ∷ "kube-system" ∷ []), s);
  list_replica_sets = λ s. (ok (web_set ∷ []), s);
  list_pods = λ s. (ok pods, s);
  list_deployments = λ s. (ok (web ∷ []), s);
  list_nodes = λ s. (ok [], s);
  list_budgets = λ s. (ok [], s);
  list_stateful_sets = λ s. (ok (database ∷ []), s);
  list_daemon_sets = λ s. (ok [], s);
  list_jobs = λ s. (ok [], s);
  list_cron_jobs = λ s. (ok [], s);
  list_services = λ s. (ok [], s);
  list_ingresses = λ s. (err "forbidden", s);
  list_claims = λ s. (ok [], s);
  list_storage_classes = λ s. (ok [], s);
  server_resources = λ s. ([], s);
  server_groups = λ s. (ok [], s);
}

abbrev application : Scope
application = record { mode = "application"; exclude_namespaces = [] }

abbrev or_shop : Result ClusterSnapshot → ClusterSnapshot
or_shop (ok snap) = snap
or_shop (err e) = shop

abbrev collected : ClusterSnapshot
collected = or_shop (collect server application tt).0

collected_ok : (collect server application tt).0 ≡ ok collected
unfolding collect
collected_ok = refl

LiesInside_example : LiesInside (λ ns. ¬ IsExcluded application ns) collected
LiesInside_example = collect-LiesInside server application tt collected collected_ok

IsConsistent_example : IsConsistent collected
IsConsistent_example = collect-IsConsistent server application tt collected collected_ok

abbrev walked : Walk
walked =
    (walk_pods server (excluded_of application) (rs_to_deploy_map (web_set ∷ [])) pods new_walk
      tt).0

walk_example :
    (walked.total_pods ≡ count_if (is_counted (excluded_of application)) pods)
    × (walked.not_ready_pods ≡ count_if (is_broken (excluded_of application)) pods)
    × (walked.pod_issues ≡ map pod_issue (select (is_broken (excluded_of application)) pods))
    × (walked.bare_pods ≡ map bare_pod (select (is_bare (excluded_of application)) pods))
    × ((shelf : Shelf) (k : String)
        → get_or (shelf_of shelf walked) k []
          ≡ filed
              (rs_to_deploy_map (web_set ∷ []))
              shelf
              k
              (select (is_broken (excluded_of application)) pods))
walk_example =
    walk_pods_lem server (excluded_of application) (rs_to_deploy_map (web_set ∷ [])) pods tt

-- One pod is filed under the deployment, and the system's is left out.
walk_runs :
    (walked.total_pods ≡ 2)
    × (map (λ p. p.name) (get_or walked.by_deployment "shop/web" []) ≡ "web-1" ∷ [])
unfolding walk_pods excluded_of rs_to_deploy_map string_dec new_walk
walk_runs = (refl, refl)

IsPlain-tag : IsPlain "1.21.0"
unfolding has
IsPlain-tag = record { no_colon = refl; no_slash = refl; no_at = refl }

IsPlain-path : IsPlain "pilot"
unfolding has
IsPlain-path = record { no_colon = refl; no_slash = refl; no_at = refl }

no_at_sign : has b'@' "host:5000/istio" ≡ false
unfolding has
no_at_sign = refl

image_tag_example :
    (image_tag ("host:5000/istio" <> (":" <> "1.21.0")) ≡ "1.21.0")
    × (image_tag (("host:5000/istio" <> (":" <> "1.21.0")) <> ("@" <> "sha256:ab")) ≡ "1.21.0")
    × (image_tag ("host:5000/istio" <> ("/" <> "pilot")) ≡ "")
    × (image_tag (("host:5000/istio" <> ("/" <> "pilot")) <> ("@" <> "sha256:ab")) ≡ "")
image_tag_example =
    image_tag_lem "host:5000/istio" "pilot" "1.21.0" "sha256:ab" no_at_sign IsPlain-tag IsPlain-path
