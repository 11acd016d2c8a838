-- ===== src/Collector/Inventory/Network.antt =====
-- internal/collector/network_collector.go: services and ingresses.
use mathlib.Core.List.{foldl}
use mirops.Prelude.{String, false, Option, none, some, List, [], ◌∷◌, ◌++◌, if◌then◌else◌}
use mirops.Prelude.Maps.{get_or}
use mirops.Cluster.{ServiceRef, IngressRef}
use mirops.Collector.Objects.{Service, Backend, Ingress}
use mirops.Collector.Specs.{Seen, nothing_seen, note}

abbrev pub service_ref : Service → ServiceRef
service_ref s = record {
  namespace = s.namespace;
  name = s.name;
  type = s.type;
  selector = s.selector;
}

abbrev note_backend : Seen String → Backend → Seen String
note_backend s none = s
note_backend s (some service) = note service service s

abbrev note_rule : Seen String → Option (List Backend) → Seen String
note_rule s none = s
note_rule s (some paths) = foldl note_backend s paths

-- The default backend is not marked as seen, but nothing is added after it.
abbrev default_service : Seen String → Option Backend → List String
default_service s none = s.found
default_service s (some none) = s.found
default_service s (some (some service)) =
    if get_or s.seen service false then s.found else s.found ++ service ∷ []

unfoldable pub ingress_ref : Ingress → IngressRef
unfolding note
ingress_ref i = record {
  namespace = i.namespace;
  name = i.name;
  services = default_service (foldl note_rule nothing_seen i.rules) i.default_backend;
  has_tls = i.has_tls;
}
