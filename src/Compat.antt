-- ===== src/Compat.antt =====
-- internal/compat: which add-on versions support which Kubernetes versions. Versions and ranges
-- are read by the package blang/semver, and YAML by sigs.k8s.io/yaml: both are parameters.
pub mod Version
mod First
pub mod Verdict
pub mod Required
pub mod Count
use mirops.Prelude.{
  ℕ, ◌+◌, String, ◌<>◌, Bool, true, false, ◌||◌, Option, none, some, List, [], ◌∷◌, ◌==◌, select,
  if◌then◌else◌,
}
use mirops.Prelude.Maps.{Map, get_or}
use mirops.Prelude.Text.{decimal}
use mirops.Cluster.{DetectedAddon}

pub record CompatRule : Type 0 where
  pub addon_range : String
  pub k8s_range : String
  pub note : String

-- A missing add-on has no rules.
abbrev pub Matrix : Type 0
Matrix = Map (List CompatRule)

pub data Status : Type 0 where
  compatible incompatible unknown : Status

abbrev pub is_incompatible : Status → Bool
is_incompatible incompatible = true
is_incompatible _ = false

-- The text of a status in a report.
abbrev pub status_text : Status → String
status_text compatible = "compatible"
status_text incompatible = "incompatible"
status_text unknown = "unknown"

pub record AddonCompatibility : Type 0 where
  pub name : String
  pub version : String
  pub status : Status
  pub required_version : String
  pub note : String

-- What the code uses of blang/semver: `Parse`, `ParseRange`, and two fields of a version.
pub record Semver : Type 1 where
  pub Version : Type 0
  pub parse : String → Option Version
  pub parse_range : String → Option (Version → Bool)
  pub major : Version → ℕ
  pub minor : Version → ℕ

-- The override replaces the rules of each add-on that it names.
unfoldable pub overlay : Matrix → Matrix → Matrix
overlay m override name = elim (override name) [ none ↦ m name | some rules ↦ some rules ]

-- The second component says whether the text could not be read; the built-in rules are then
-- returned as they are.
unfoldable pub load_matrix : (String → Option Matrix) → Matrix → String → Matrix × Bool
unfolding overlay
load_matrix unmarshal built_in yaml =
    if yaml == "" then (built_in, false) else elim (unmarshal yaml) [
      | none ↦ (built_in, true)
      | some override ↦ (overlay built_in override, false)
    ]

module _ (V : Semver) where
  open V use {Version, parse_range, major, minor}

  -- A range that cannot be read admits no version.
  unfoldable pub in_range : String → Version → Bool
  in_range range v = elim (parse_range range) [ none ↦ false | some admits ↦ admits v ]

  abbrev pub supports : Version → CompatRule → Bool
  supports target rule = in_range rule.k8s_range target

  abbrev pub applies : Version → CompatRule → Bool
  applies v rule = in_range rule.addon_range v

  -- The first rule that passes a test, as a loop with `return` finds it.
  abbrev pub first : (CompatRule → Bool) → List CompatRule → Option CompatRule
  first p [] = none
  first p (r ∷ rs) = elim (p r) [ true ↦ some r | false ↦ first p rs ]

  unfoldable pub required_addon_version : List CompatRule → Version → String
  unfolding in_range
  required_addon_version rules target = elim (first (supports target) rules) [
    | none ↦ ""
    | some rule ↦ rule.addon_range
  ]

  abbrev pub without_match : DetectedAddon → String → AddonCompatibility
  without_match a note = record {
    name = a.name;
    version = a.version;
    status = unknown;
    required_version = "";
    note = note;
  }

  abbrev pub kubernetes : Version → String
  kubernetes target = decimal (major target) <> "." <> decimal (minor target)

  unfoldable pub incompatible_result :
      DetectedAddon → Version → List CompatRule → CompatRule → AddonCompatibility
  unfolding required_addon_version
  incompatible_result a target rules applicable =
      let required = required_addon_version rules target in
      let supported =
        a.name <> " " <> a.version <> " supports Kubernetes " <> applicable.k8s_range in
      record {
        name = a.name;
        version = a.version;
        status = incompatible;
        required_version = required;
        note =
            if required == ""
            then supported
              <> "; no known "
              <> a.name
              <> " version supports Kubernetes "
              <> kubernetes target
            else supported
              <> "; upgrade "
              <> a.name
              <> " to "
              <> required
              <> " to support Kubernetes "
              <> kubernetes target;
      }

  -- What is said when `rule` is the first that applies, given the first that applies and supports
  -- the target.
  unfoldable pub chosen_result :
      DetectedAddon
      → Version
      → List CompatRule
      → CompatRule
      → Option CompatRule
      → AddonCompatibility
  unfolding incompatible_result
  chosen_result a target rules rule (some r) = record {
    name = a.name;
    version = a.version;
    status = compatible;
    required_version = "";
    note = r.note;
  }
  chosen_result a target rules rule none = incompatible_result a target rules rule

  -- The last argument holds the rules that apply to the detected version.
  unfoldable pub match_rules :
      DetectedAddon → Version → List CompatRule → List CompatRule → AddonCompatibility
  unfolding chosen_result
  match_rules a target rules [] =
      without_match a "no compatibility rule matches the detected add-on version"
  match_rules a target rules (rule ∷ applicable) =
      chosen_result a target rules rule (first (supports target) (rule ∷ applicable))

  module _ (parse_semver : String → Option Version) where
    unfoldable pub evaluate_version :
        DetectedAddon → Version → List CompatRule → Option Version → AddonCompatibility
    unfolding match_rules
    evaluate_version a target rules none =
        without_match a "add-on version unknown; cannot match a specific rule"
    evaluate_version a target rules (some v) = match_rules a target rules (select (applies v) rules)

    unfoldable pub evaluate_addon :
        DetectedAddon → Option Version → List CompatRule → AddonCompatibility
    unfolding evaluate_version
    evaluate_addon a target [] = without_match a "no compatibility data for this add-on"
    evaluate_addon a none (r ∷ rs) = without_match a "target version could not be parsed"
    evaluate_addon a (some target) (r ∷ rs) =
        evaluate_version a target (r ∷ rs)
          (if a.version == "" then none else parse_semver a.version)

    unfoldable pub evaluate_all :
        Option Version → Matrix → List DetectedAddon → List AddonCompatibility × ℕ
    unfolding evaluate_addon
    evaluate_all target m [] = ([], 0)
    evaluate_all target m (a ∷ as_left) =
        let (results, n) = evaluate_all target m as_left in
        let res = evaluate_addon a target (get_or m a.name []) in
        (res ∷ results, if is_incompatible res.status then n + 1 else n)

    unfoldable pub evaluate : List DetectedAddon → String → Matrix → List AddonCompatibility × ℕ
    unfolding evaluate_all
    evaluate addons target_version m = evaluate_all (parse_semver target_version) m addons
