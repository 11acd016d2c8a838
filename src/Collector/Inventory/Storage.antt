-- ===== src/Collector/Inventory/Storage.antt =====
-- internal/collector/workload_inventory.go: volume claims and storage classes.
use mathlib.Core.List.{foldl}
use mirops.Prelude.{String, Bool, Option, none, some, List, ◌==◌, if◌then◌else◌}
use mirops.Prelude.Maps.{Map, empty, insert, get_or}
use mirops.Cluster.{PvcRef}
use mirops.Graph.Build.{label}
use mirops.Collector.Objects.{VolumeClaim, StorageClass}

abbrev add_mode : Map String → StorageClass → Map String
add_mode m sc = elim sc.binding_mode [ none ↦ m | some mode ↦ insert sc.name mode m ]

abbrev is_default : StorageClass → Bool
is_default sc = label sc.annotations "storageclass.kubernetes.io/is-default-class" == "true"

unfoldable pub storage_class_binding_modes : List StorageClass → Map String × String
storage_class_binding_modes classes = (
  foldl add_mode empty classes,
  foldl (λ last (sc : StorageClass). if is_default sc then sc.name else last) "" classes,
)

abbrev named : Option String → String
named none = ""
named (some name) = name

-- A claim without a class has the default one's binding mode.
unfoldable pub pvc_ref : Map String × String → VolumeClaim → PvcRef
pvc_ref (modes, default_class) c =
    let class = named c.storage_class in
    record {
      namespace = c.namespace;
      name = c.name;
      storage_class = class;
      phase = c.phase;
      binding_mode = get_or modes (if class == "" then default_class else class) "";
    }
