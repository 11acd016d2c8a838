-- ===== src/Collector/Specs.antt =====
-- internal/collector/workload_inventory.go and network_collector.go: what the collector reads off
-- the specification of a workload's pods.
use mathlib.Core.List.{foldl}
use mirops.Prelude.{
  String, ◌<>◌, ◌≡◌, refl, Bool, true, false, ◌||◌, Option, none, some, List, [], ◌∷◌, ◌++◌, ◌==◌,
  string_dec, if◌then◌else◌,
}
use mirops.Prelude.Maps.{Map, empty, insert, get_or}
use mirops.Prelude.Sort.{str_lt, sort_by}
use mirops.Cluster.{Labels, ConfigRef, Workload}
use mirops.Graph.Build.{label}
use mirops.Collector.Objects.{ConfigSource, Container, Volume, PodSpec, PodTemplate}

-- A set of texts, as the list of its members in the order in which they came.
unfoldable pub add_key : String → List String → List String
add_key k [] = k ∷ []
add_key k (j ∷ rest) = let more = add_key k rest in if k == j then j ∷ rest else j ∷ more

-- The members in order, whatever the order in which Go walks the set.
unfoldable pub sorted_keys : List String → List String
unfolding sort_by
sorted_keys = sort_by str_lt

-- A list that grows, and the keys of what it holds.
pub record Seen (A : Type 0) : Type 0 where
  pub found : List A
  pub seen : Map Bool

abbrev pub nothing_seen : {A : Type 0} → Seen A
nothing_seen = record { found = []; seen = empty }

-- `if !seen[key] { seen[key] = true; found = append(found, x) }`
unfoldable pub note : {A : Type 0} → String → A → Seen A → Seen A
note key x s =
    if get_or s.seen key false
    then s
    else record { found = s.found ++ x ∷ []; seen = insert key true s.seen }

unfoldable pub note_claim : Seen String → Volume → Seen String
unfolding note
note_claim s v = elim v.claim [ none ↦ s | some name ↦ note name name s ]

unfoldable pub pod_spec_pvcs : PodSpec → List String
unfolding note_claim
pod_spec_pvcs spec = (foldl note_claim nothing_seen spec.volumes).found

-- The closure `add`.
unfoldable pub add_ref : String → String → Seen ConfigRef → Seen ConfigRef
unfolding note
add_ref kind name s =
    if name == "" then s else note (kind <> ("/" <> name)) (record { kind = kind; name = name }) s

abbrev add_named : String → Option String → Seen ConfigRef → Seen ConfigRef
add_named kind none s = s
add_named kind (some name) s = add_ref kind name s

unfoldable pub add_source : Seen ConfigRef → ConfigSource → Seen ConfigRef
unfolding add_ref
add_source s source = add_named "Secret" source.secret (add_named "ConfigMap" source.config_map s)

abbrev add_value : Seen ConfigRef → Option ConfigSource → Seen ConfigRef
add_value s none = s
add_value s (some source) = add_source s source

unfoldable pub add_container : Seen ConfigRef → Container → Seen ConfigRef
unfolding add_source
add_container s ctr = foldl add_value (foldl add_source s ctr.env_from) ctr.env

unfoldable pub add_volume : Seen ConfigRef → Volume → Seen ConfigRef
unfolding add_source
add_volume s v = add_source s v.source

unfoldable pub pod_spec_config_refs : PodSpec → List ConfigRef
unfolding add_container add_volume
pod_spec_config_refs spec =
    (foldl add_volume (foldl add_container nothing_seen spec.containers) spec.volumes).found

unfoldable pub uses_istio_sidecar : Labels → Labels → Bool
uses_istio_sidecar labels annotations =
    (label labels "sidecar.istio.io/inject" == "true")
    || (label annotations "sidecar.istio.io/inject" == "true")

-- The status is filled in later.
unfoldable pub new_workload :
    String → String → String → PodTemplate → (String → String → String → List String) → Workload
unfolding pod_spec_config_refs pod_spec_pvcs uses_istio_sidecar
new_workload kind ns name tmpl nodes = record {
  kind = kind;
  namespace = ns;
  name = name;
  status = "";
  pod_labels = tmpl.labels;
  config_refs = pod_spec_config_refs tmpl.spec;
  pvcs = pod_spec_pvcs tmpl.spec;
  nodes = nodes kind ns name;
  uses_istio_sidecar = uses_istio_sidecar tmpl.labels tmpl.annotations;
}

abbrev web_volumes : List Volume
web_volumes =
    record { source = record { config_map = some "cm"; secret = none }; claim = none }
    ∷ record { source = record { config_map = none; secret = none }; claim = some "data" }
    ∷ record { source = record { config_map = some "cm"; secret = some "s" }; claim = some "data" }
    ∷ []

abbrev web_spec : PodSpec
web_spec = record {
  node_name = "";
  restart_policy = "Always";
  containers = [];
  volumes = web_volumes;
}

references :
    (pod_spec_pvcs web_spec ≡ "data" ∷ [])
    × (pod_spec_config_refs web_spec
        ≡ record { kind = "ConfigMap"; name = "cm" } ∷ record { kind = "Secret"; name = "s" } ∷ [])
unfolding pod_spec_pvcs pod_spec_config_refs string_dec
references = (refl, refl)
