-- ===== src/Collector/Inventory/Deprecated.antt =====
-- internal/collector/cluster_collector.go: the deprecated APIs that a server still has.
use mirops.Prelude.{String, ◌<>◌, Option, none, some, List, [], ◌∷◌, ◌++◌, ◌==◌, if◌then◌else◌}
use mirops.Cluster.{DeprecatedApi}
use mirops.Collector.Objects.{ApiResource, ApiResourceList}

abbrev pub deprecated_api_removed_in : List (String × String)
deprecated_api_removed_in =
    ("extensions/v1beta1/ingresses", "1.22")
    ∷ ("networking.k8s.io/v1beta1/ingresses", "1.22")
    ∷ ("extensions/v1beta1/networkpolicies", "1.16")
    ∷ ("extensions/v1beta1/deployments", "1.16")
    ∷ ("extensions/v1beta1/replicasets", "1.16")
    ∷ ("extensions/v1beta1/daemonsets", "1.16")
    ∷ ("rbac.authorization.k8s.io/v1alpha1/roles", "1.29")
    ∷ ("rbac.authorization.k8s.io/v1beta1/roles", "1.22")
    ∷ ("storage.k8s.io/v1beta1/csidrivers", "1.22")
    ∷ ("storage.k8s.io/v1beta1/storageclasses", "1.22")
    ∷ ("policy/v1beta1/poddisruptionbudgets", "1.25")
    ∷ ("policy/v1beta1/podsecuritypolicies", "1.25")
    ∷ ("autoscaling/v2beta1/horizontalpodautoscalers", "1.26")
    ∷ ("autoscaling/v2beta2/horizontalpodautoscalers", "1.26")
    ∷ ("flowcontrol.apiserver.k8s.io/v1beta1/flowschemas", "1.29")
    ∷ ("flowcontrol.apiserver.k8s.io/v1beta2/flowschemas", "1.29")
    ∷ []

unfoldable pub removed_in : String → List (String × String) → Option String
removed_in key [] = none
removed_in key ((k, version) ∷ rest) =
    let more = removed_in key rest in if key == k then some version else more

abbrev deprecated_resource : String → ApiResource → List DeprecatedApi
deprecated_resource group_version r =
    elim (removed_in (group_version <> ("/" <> r.name)) deprecated_api_removed_in) [
      | none ↦ []
      | some version ↦
          record {
            group = r.group;
            version = group_version;
            resource = r.name;
            removed_in = version;
          }
          ∷ []
    ]

unfoldable pub deprecated_in : String → List ApiResource → List DeprecatedApi
unfolding removed_in
deprecated_in group_version [] = []
deprecated_in group_version (r ∷ rest) =
    deprecated_resource group_version r ++ deprecated_in group_version rest

unfoldable pub deprecated_list : List ApiResourceList → List DeprecatedApi
unfolding deprecated_in
deprecated_list [] = []
deprecated_list (l ∷ rest) = deprecated_in l.group_version l.resources ++ deprecated_list rest
