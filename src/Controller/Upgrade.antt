-- ===== src/Controller/Upgrade.antt =====
-- internal/controller/upgradeanalysis_controller.go: the check of the target version and the steps
-- from a snapshot to the finished report.
pub mod Impact
pub mod Verdict
pub mod Versions
pub mod Reconcile
use Prim.Native.Char.{Char, code}
use mathlib.Core.List.{foldl}
use mirops.Prelude.{
  ℕ, ◌+◌, ◌*◌, ◌-◌, ◌^◌, ◌≡◌, refl, String, Bool, true, false, not, ◌&&◌, Option, none, some, List,
  [], ◌∷◌, ltb, leb, min, eqb, ◌==◌, if◌then◌else◌, ◌>>=◌,
}
use mirops.Prelude.Int.{ℤ, pos, negsuc, sub_ℕ, ltb_ℤ}
use mirops.Prelude.Maps.{Map, empty, insert}
use mirops.Cluster.{ClusterSnapshot}
use mirops.Graph.{Graph, addon_id}
use mirops.Graph.Build.{build_from_snapshot}
use mirops.Graph.Risk.{NamespaceRisk, apply_risk}
use mirops.Graph.AtRisk.{dependents}
use mirops.Compat.{AddonCompatibility, Matrix, Semver, status_text, is_incompatible, evaluate}
use mirops.Compat.Version.{trim_v, cut, parse_semver}
use mirops.Analysis.{Report, AddonImpact, RiskBreakdown}
use mirops.Analysis.Calculate.{calculate, apply_ai_score}
use mirops.Analysis.Gate.{apply_graph_decision}

abbrev is_digit : ℕ → Bool
is_digit c = leb 48 c && leb c 57

-- The value of a text of digits, after the digits read so far.
digits_value : ℕ → String → Option ℕ
digits_value n String.[] = some n
digits_value n (String.◌∷◌ c s) =
    let more = digits_value (10 * n + (code c - 48)) s in if is_digit (code c) then more else none

abbrev at_least_one : Option ℕ → String → Option ℕ
at_least_one n String.[] = none
at_least_one n (String.◌∷◌ _ _) = n

-- What `strconv.Atoi` returns when its error is dropped: 0 for a text that is no number, and the
-- nearest 64-bit number for one that is out of range.
unfoldable pub atoi : String → ℤ
unfolding digits_value
atoi String.[] = pos 0
atoi (String.◌∷◌ c s) =
    let number = at_least_one (digits_value 0 s) s in
    if eqb (code c) 45
    then elim number [ none ↦ pos 0 | some n ↦ sub_ℕ 0 (min n (2 ^ 63)) ]
    else if eqb (code c) 43
    then elim number [ none ↦ pos 0 | some n ↦ pos (min n (2 ^ 63 - 1)) ]
    else elim (digits_value 0 (String.◌∷◌ c s)) [ none ↦ pos 0 | some n ↦ pos (min n (2 ^ 63 - 1)) ]

abbrev minor_of : ℤ → Option String → ℤ × ℤ
minor_of major none = (pos 0, pos 0)
minor_of major (some rest) = (major, atoi (cut b'.' rest).0)

-- The first two of the parts between dots.
unfoldable pub major_minor : String → ℤ × ℤ
unfolding atoi trim_v cut
major_minor version = let (major, rest) = cut b'.' (trim_v version) in minor_of (atoi major) rest

abbrev pub same : ℤ → ℤ → Bool
same a b = not (ltb_ℤ a b) && not (ltb_ℤ b a)

unfoldable pub version_is_higher : String → String → Bool
unfolding major_minor
version_is_higher target current =
    let (t_maj, t_min) = major_minor target in
    let (c_maj, c_min) = major_minor current in
    if not (same t_maj c_maj) then ltb_ℤ c_maj t_maj else ltb_ℤ c_min t_min

abbrev pub with_impact : AddonCompatibility → List String → List AddonImpact → List AddonImpact
with_impact a affected impacts =
    if is_incompatible a.status
    then record {
      addon = a.name;
      version = a.version;
      required_version = a.required_version;
      affected = affected;
    }
      ∷ impacts
    else impacts

-- The queries of the graph run on fuel; `none` means that it ran out.
unfoldable pub upgrade_impact : List AddonCompatibility → Graph → Option (List AddonImpact)
unfolding dependents addon_id
upgrade_impact [] g = some []
upgrade_impact (a ∷ rest) g = do
  impacts ← upgrade_impact rest g
  affected ← dependents g (addon_id a.name)
  some (with_impact a affected impacts)

abbrev pub addon_statuses : List AddonCompatibility → Map String
addon_statuses = foldl (λ m a. insert a.name (status_text a.status) m) empty

-- What the language model answers on a report: its score, its reasoning and its name.
pub record AiAnswer : Type 0 where
  pub score : ℕ
  pub reasoning : String
  pub model : String

abbrev pub blend : Option AiAnswer → String → Report → Report
blend none profile_name report = report
blend (some a) profile_name report = apply_ai_score report a.score a.reasoning a.model profile_name

-- The report with what the engine found.
abbrev pub attach :
    Report
    → String
    → String
    → List AddonCompatibility
    → Graph
    → List NamespaceRisk
    → List AddonImpact
    → Report
attach report name generated_at results g ns_risk impact = record report {
  generated_at = generated_at;
  cluster = name;
  addons = results;
  graph = some g;
  risk = some (record { by_namespace = ns_risk });
  upgrade_impact = impact;
}

-- The report before the language model is asked.
unfoldable pub base_report :
    (V : Semver) → String → String → ClusterSnapshot → String → String → Matrix → Option Report
unfolding evaluate calculate build_from_snapshot apply_risk upgrade_impact parse_semver
base_report V name generated_at snapshot target_version profile_name matrix =
    let (results, incompatible) =
      evaluate V (parse_semver V) snapshot.detected_addons target_version matrix in
    let snap : ClusterSnapshot = record snapshot { addon_issues = incompatible } in
    let report = calculate snap target_version profile_name in
    do
      (g, ns_risk) ← apply_risk (build_from_snapshot snap) (addon_statuses results)
      impact ← upgrade_impact results g
      some (attach report name generated_at results g ns_risk impact)

-- The report that is published. The language model is a parameter: asked with the report, it
-- answers, or it does not, since it is not enabled or has failed.
unfoldable pub analyze :
    (V : Semver)
    → (Report → Option AiAnswer)
    → String
    → String
    → ClusterSnapshot
    → String
    → String
    → Matrix
    → Option Report
unfolding base_report apply_ai_score apply_graph_decision
analyze V ask name generated_at snapshot target_version profile_name matrix = do
  report ← base_report V name generated_at snapshot target_version profile_name matrix
  some (apply_graph_decision (blend (ask report) profile_name report))
