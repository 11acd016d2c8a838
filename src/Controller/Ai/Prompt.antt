-- ===== src/Controller/Ai/Prompt.antt =====
-- internal/controller/ai_scorer.go, `buildAIPrompt`: what the language model is told.
use mirops.Prelude.{
  ℕ, String, ◌<>◌, Bool, true, false, not, Option, none, some, List, [], ◌∷◌, ◌++◌, map, select,
  ltb, ◌==◌, if◌then◌else◌,
}
use mirops.Prelude.Text.{decimal}
use mirops.Compat.{AddonCompatibility, status_text}
use mirops.Graph.Risk.{NamespaceRisk}
use mirops.Analysis.{
  Report, NodeReport, DeploymentReport, StatefulSetReport, JobReport, DeprecatedApiReport,
  RiskBreakdown,
}
use mirops.Controller.Ai.Context.{newline, line, concat, section, write_graph_context}

-- The sections on the report.

introduction : List String
introduction =
    "You are a Kubernetes upgrade risk assessor. Analyze the cluster state and return an upgrade readiness score from 0 to 100.\n\n"
    ∷ "100 = completely safe, 0 = critical risk. Focus on semantic risks that numeric metrics miss:\n"
    ∷ "- Workload criticality from names (postgres, kafka, payment suggest production data)\n"
    ∷ "- Data loss risk during node drain for stateful workloads\n"
    ∷ "- Active jobs or migrations that would be interrupted\n"
    ∷ "- Correlated failures across workloads\n"
    ∷ "- Add-on incompatibility with the target version and what depends on those add-ons (see ADD-ON COMPATIBILITY and KEY DEPENDENCIES). Treat the rule-based compatibility as a hint: confirm it and flag add-ons or dependency chains the rules may have missed.\n\n"
    ∷ []

cluster_lines : Report → List String
unfolding decimal
cluster_lines r =
    line ("CLUSTER:" ∷ [])
    ∷ line ("Current version: " ∷ r.cluster_version ∷ " | Target: " ∷ r.target_version ∷ [])
    ∷ line
        ("Base score: " ∷ decimal r.scores.base.score ∷ "/100 | Decision: " ∷ r.decision.level ∷ [])
    ∷ (line ("Reason: " ∷ r.reason ∷ []) <> newline)
    ∷ []

abbrev is_not_ready : NodeReport → Bool
is_not_ready n = not (n.status == "Ready")

abbrev pub is_short : DeploymentReport → Bool
is_short d = ltb d.ready_replicas d.desired_replicas

abbrev replica_row : String → String → ℕ → ℕ → String
replica_row namespace name ready desired =
    line
      ("- " ∷ namespace ∷ "/" ∷ name ∷ ": " ∷ decimal ready ∷ "/" ∷ decimal desired ∷ " ready" ∷ [])

deployment_row : DeploymentReport → String
unfolding decimal
deployment_row d = replica_row d.namespace d.name d.ready_replicas d.desired_replicas

stateful_set_row : StatefulSetReport → String
unfolding decimal
stateful_set_row s = replica_row s.namespace s.name s.ready_replicas s.desired_replicas

job_row : JobReport → String
unfolding decimal
job_row j =
    if j.status == "Failed"
    then line ("- " ∷ j.namespace ∷ "/" ∷ j.name ∷ ": failed (" ∷ j.reason ∷ ")" ∷ [])
    else line ("- " ∷ j.namespace ∷ "/" ∷ j.name ∷ ": " ∷ decimal j.active ∷ " active pods" ∷ [])

abbrev node_row : NodeReport → String
node_row n = line ("- " ∷ n.name ∷ ": " ∷ n.status ∷ [])

abbrev api_row : DeprecatedApiReport → String
api_row a = line ("- " ∷ a.resource ∷ " (" ∷ a.version ∷ ") removed in k8s " ∷ a.removed_in ∷ [])

abbrev addon_row : AddonCompatibility → String
addon_row a =
    "- "
    <> (a.name
        <> (" "
            <> (a.version
                <> (": "
                    <> (status_text a.status
                        <> ((if a.required_version == ""
                              then ""
                              else " (supported on k8s " <> (a.required_version <> ")"))
                            <> newline))))))

namespace_row : NamespaceRisk → String
unfolding decimal
namespace_row n = line (
    "- "
    ∷ n.namespace
    ∷ ": risk "
    ∷ decimal n.risk
    ∷ " ("
    ∷ decimal n.at_risk
    ∷ "/"
    ∷ decimal n.components
    ∷ " components at risk)"
    ∷ [])

abbrev namespaces_of : Option RiskBreakdown → List NamespaceRisk
namespaces_of none = []
namespaces_of (some r) = select (λ (n : NamespaceRisk). ltb 0 n.risk) r.by_namespace

-- Only rows that carry a risk are sent.
report_sections : Report → List String
unfolding section deployment_row stateful_set_row job_row namespace_row
report_sections r =
    section "ISSUES:" (map (λ issue. line ("- " ∷ issue ∷ [])) r.issues)
    ++ section "NODES (not Ready):" (map node_row (select is_not_ready r.workloads.nodes))
    ++ section "DEPLOYMENTS (not ready):"
        (map deployment_row (select is_short r.workloads.deployments))
    ++ section "STATEFULSETS (issues):" (map stateful_set_row r.workloads.stateful_sets)
    ++ section "JOBS WITH ISSUES:" (map job_row r.workloads.jobs)
    ++ section "DEPRECATED APIS:" (map api_row r.workloads.deprecated_apis)
    ++ section "ADD-ON COMPATIBILITY (rule-based, verify and add semantic judgement):"
        (map addon_row r.addons)
    ++ section "RISK BY NAMESPACE (0-100, higher = riskier):"
        (map namespace_row (namespaces_of r.risk))

request : Bool → List String
request true =
    "Also propose remediation actions for the detected issues.\n"
    ∷ "Valid action types: restart-pod, scale-deployment, cordon-node, delete-pod\n"
    ∷ "Valid risk levels: low, medium, high\n\n" ∷ "Respond ONLY with JSON, no markdown:\n"
    ∷ "{\"score\": <integer 0-100>, \"reasoning\": \"<one concise paragraph>\", \"actions\": [{\"type\": \"<type>\", \"namespace\": \"<ns>\", \"name\": \"<name>\", \"reason\": \"<why>\", \"risk\": \"<low|medium|high>\"}]}"
    ∷ []
request false =
    "Respond ONLY with JSON, no markdown:\n"
    ∷ "{\"score\": <integer 0-100>, \"reasoning\": \"<one concise paragraph>\"}" ∷ []

unfoldable pub build_ai_prompt : Report → Bool → String
unfolding introduction cluster_lines report_sections write_graph_context request
build_ai_prompt r with_remediation = concat (
    introduction
    ++ cluster_lines r
    ++ report_sections r
    ++ write_graph_context r.graph
    ++ request with_remediation)
