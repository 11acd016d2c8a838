-- ===== src/Collector/Addons.antt =====
-- internal/collector/addon_detector.go: how add-ons are recognised, and their versions.
pub mod Tags
use Prim.Native.Char.{code}
use Prim.Native.String.{String}
use text.Mathlib.Text.{starts_with}
use mirops.Prelude.{
  ℕ, ◌≡◌, refl, Bool, true, false, not, Option, none, some, List, [], ◌∷◌, eqb, ◌==◌, string_dec,
  if◌then◌else◌, ◌>>=◌,
}
use mirops.Prelude.Maps.{Map, get_or}
use mirops.Compat.Version.{trim_v, cut}
use mirops.Cluster.{Labels, DetectedAddon}
use mirops.Graph.Build.{label}
use mirops.Collector.Objects.{Container, PodTemplate, Deployment, DaemonSet}

pub record AddonSignature : Type 0 where
  pub name : String
  pub crd_groups : List String
  pub deployments : List String
  pub daemon_sets : List String

abbrev signature : String → List String → List String → List String → AddonSignature
signature name crd_groups deployments daemon_sets = record {
  name = name;
  crd_groups = crd_groups;
  deployments = deployments;
  daemon_sets = daemon_sets;
}

abbrev one : String → List String
one s = s ∷ []

abbrev pub addon_signatures : List AddonSignature
addon_signatures =
    signature "istio" ("networking.istio.io" ∷ "security.istio.io" ∷ []) (one "istiod") []
    ∷ signature "cert-manager" (one "cert-manager.io") (one "cert-manager") []
    ∷ signature "argocd" (one "argoproj.io") (one "argocd-server") []
    ∷ signature "prometheus" (one "monitoring.coreos.com") (one "prometheus-operator") []
    ∷ signature "ingress-nginx" [] (one "ingress-nginx-controller") []
    ∷ signature "external-dns" [] (one "external-dns") []
    ∷ signature "traefik" ("traefik.io" ∷ "traefik.containo.us" ∷ []) (one "traefik") []
    ∷ signature "kyverno" (one "kyverno.io") (one "kyverno") []
    ∷ signature "gatekeeper"
        ("templates.gatekeeper.sh" ∷ "constraints.gatekeeper.sh" ∷ "config.gatekeeper.sh" ∷ [])
        (one "gatekeeper-controller-manager") []
    ∷ signature "keda" (one "keda.sh") (one "keda-operator") []
    ∷ signature "metrics-server" [] (one "metrics-server") []
    ∷ signature "cluster-autoscaler" [] (one "cluster-autoscaler") []
    ∷ signature "karpenter" ("karpenter.sh" ∷ "karpenter.k8s.aws" ∷ []) (one "karpenter") []
    ∷ signature "aws-load-balancer-controller" (one "elbv2.k8s.aws")
        (one "aws-load-balancer-controller") []
    ∷ signature "flux"
        ("source.toolkit.fluxcd.io" ∷ "kustomize.toolkit.fluxcd.io" ∷ "helm.toolkit.fluxcd.io" ∷ [])
        ("source-controller" ∷ "kustomize-controller" ∷ "helm-controller"
          ∷ "notification-controller" ∷ [])
        []
    ∷ signature "calico" ("crd.projectcalico.org" ∷ "operator.tigera.io" ∷ [])
        (one "calico-kube-controllers") (one "calico-node")
    ∷ signature "cilium" (one "cilium.io") (one "cilium-operator") (one "cilium")
    ∷ signature "longhorn" (one "longhorn.io") (one "longhorn-driver-deployer")
        (one "longhorn-manager")
    ∷ []

-- `strings.Contains`: the wanted text starts at some place.
unfoldable pub contains : String → String → Bool
contains String.[] want = starts_with String.[] want
contains (String.◌∷◌ c s) want =
    let later = contains s want in if starts_with (String.◌∷◌ c s) want then true else later

abbrev pub any : (String → Bool) → List String → Bool
any test [] = false
any test (x ∷ xs) = if test x then true else any test xs

-- What follows the last such character, if there is one.
unfoldable pub after_last : ℕ → String → Option String
after_last sep String.[] = none
after_last sep (String.◌∷◌ c s) =
    let later = after_last sep s in
    elim later [ some rest ↦ some rest | none ↦ if eqb (code c) sep then some s else none ]

-- The tag stands behind the last colon, unless a slash follows that: then it is a port's colon.
unfoldable pub tag_of : String → String
unfolding after_last
tag_of image = elim (after_last b':' image) [
  | none ↦ ""
  | some tag ↦ elim (after_last b'/' tag) [ none ↦ tag | some _ ↦ "" ]
]

-- A digest is dropped first.
unfoldable pub image_tag : String → String
unfolding cut tag_of
image_tag image = tag_of (cut b'@' image).0

unfoldable pub normalize_version : String → String
unfolding trim_v
normalize_version = trim_v

unfoldable pub first_tag : List Container → String
unfolding image_tag normalize_version
first_tag [] = ""
first_tag (ctr ∷ rest) =
    let more = first_tag rest in
    if not (image_tag ctr.image == "") then normalize_version (image_tag ctr.image) else more

unfoldable pub workload_version : Labels → PodTemplate → String
unfolding first_tag normalize_version
workload_version labels tmpl =
    if not (label labels "app.kubernetes.io/version" == "")
    then normalize_version (label labels "app.kubernetes.io/version")
    else if not (label tmpl.labels "app.kubernetes.io/version" == "")
    then normalize_version (label tmpl.labels "app.kubernetes.io/version")
    else first_tag tmpl.spec.containers

abbrev pub detected : String → String → String → String → DetectedAddon
detected name version namespace via = record {
  name = name;
  version = version;
  namespace = namespace;
  detected_via = via;
}

unfoldable pub by_deployment : AddonSignature → List Deployment → Option DetectedAddon
unfolding contains workload_version
by_deployment sig [] = none
by_deployment sig (d ∷ rest) =
    let more = by_deployment sig rest in
    if any (contains d.name) sig.deployments
    then some (detected sig.name (workload_version d.labels d.template) d.namespace "deployment")
    else more

unfoldable pub by_daemon_set : AddonSignature → List DaemonSet → Option DetectedAddon
unfolding contains workload_version
by_daemon_set sig [] = none
by_daemon_set sig (d ∷ rest) =
    let more = by_daemon_set sig rest in
    if any (contains d.name) sig.daemon_sets
    then some (detected sig.name (workload_version d.labels d.template) d.namespace "daemonset")
    else more

-- A workload is preferred, since it gives a version and a namespace.
unfoldable pub match_addon :
    AddonSignature → List Deployment → List DaemonSet → Map Bool → Option DetectedAddon
unfolding by_deployment by_daemon_set
match_addon sig deps dsets groups = elim (by_deployment sig deps) [
  | some a ↦ some a
  | none ↦ elim (by_daemon_set sig dsets) [
    | some a ↦ some a
    | none ↦
        if any (λ g. get_or groups g false) sig.crd_groups
        then some (detected sig.name "" "" "crd")
        else none
  ]
]

-- One pass over the catalogue.
unfoldable pub matched :
    List AddonSignature → List Deployment → List DaemonSet → Map Bool → List DetectedAddon
unfolding match_addon
matched [] deps dsets groups = []
matched (sig ∷ rest) deps dsets groups = elim (match_addon sig deps dsets groups) [
  | some a ↦ a ∷ matched rest deps dsets groups
  | none ↦ matched rest deps dsets groups
]

tags :
    (image_tag "registry:5000/istio/pilot:1.21.0@sha256:ab" ≡ "1.21.0")
    × (image_tag "registry:5000/istio/pilot" ≡ "")
    × (image_tag "nginx" ≡ "")
    × (contains "cert-manager-webhook" "manager" ≡ true)
    × (contains "istio" "istiod" ≡ false)
unfolding image_tag contains
tags = (refl, refl, refl, refl, refl)
