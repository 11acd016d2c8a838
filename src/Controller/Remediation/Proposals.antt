-- ===== src/Controller/Remediation/Proposals.antt =====
-- internal/controller/remediationplan_controller.go: how an analysis proposes a plan.
use mirops.Prelude.{
  ℕ, suc, ◌+◌, String, ◌<>◌, Bool, false, not, ◌||◌, Option, none, List, [], ◌∷◌, leb, ◌==◌,
  if◌then◌else◌,
}
use mirops.Prelude.Text.{decimal}
use mirops.Controller.{◌>>=◌, return}
use mirops.Controller.Remediation.{
  RemediationAction, AiAction, PlanStatus, RemediationPlan, Lookup, found, not_found, unreadable,
  Client, phase_pending_approval, phase_completed, phase_failed,
}

unfoldable pub risk_order : String → ℕ
risk_order risk =
    if risk == "low" then 1 else if risk == "medium" then 2 else if risk == "high" then 3 else 0

unfoldable pub risk_within : String → String → Bool
unfolding risk_order
risk_within risk limit = leb (risk_order risk) (risk_order limit)

-- What the analysis proposes.
unfoldable pub plan_actions : String → ℕ → List AiAction → List RemediationAction
unfolding risk_within
plan_actions limit i [] = []
plan_actions limit i (a ∷ rest) =
    let more = plan_actions limit (suc i) rest in
    if not (risk_within a.risk limit)
    then more
    else record {
      id = "action-" <> decimal (i + 1);
      type = a.type;
      namespace = a.namespace;
      name = a.name;
      reason = a.reason;
      risk = a.risk;
      params = a.params;
      skip = false;
    }
      ∷ more

module _ (C : Client) where
  open C use {
    State, Pod, Deployment, Node, now, get_plan, update_plan, update_status, create_plan, get_pod,
    delete_pod, get_deployment, set_replicas, update_deployment, get_node, set_unschedulable,
    update_node,
  }

  abbrev pub no_status : PlanStatus
  no_status = record { phase = ""; results = []; executed_at = none; completed_at = none }

  abbrev pub plan_name : String → String
  plan_name analysis = analysis <> "-remediation"

  abbrev pub proposed : String → Bool → List RemediationAction → RemediationPlan
  proposed analysis auto_approve actions = record {
    namespace = "";
    name = plan_name analysis;
    labels = ("mirops.io/analysis", analysis) ∷ [];
    spec = record { upgrade_analysis_ref = analysis; approved = auto_approve; actions = actions };
    status = no_status;
  }

  abbrev pub replaceable : PlanStatus → Bool
  replaceable status =
      (status.phase == phase_completed) || ((status.phase == phase_failed) || (status.phase == ""))

  abbrev pub replacement : RemediationPlan → RemediationPlan → RemediationPlan
  replacement plan existing = record existing {
    spec = record plan.spec { approved = false };
    status = no_status;
  }

  -- An error of any kind leads to a new plan.
  unfoldable pub store_plan : RemediationPlan → Lookup → State → Option String × State
  store_plan plan (found existing) =
      if replaceable existing.status then update_plan (replacement plan existing) else return none
  store_plan plan not_found =
      create_plan (record plan { status = record no_status { phase = phase_pending_approval } })
  store_plan plan (unreadable e) =
      create_plan (record plan { status = record no_status { phase = phase_pending_approval } })

  unfoldable pub create_if_any :
      String → Bool → List RemediationAction → State → Option String × State
  unfolding store_plan
  create_if_any analysis auto_approve [] = return none
  create_if_any analysis auto_approve (a ∷ rest) = do
    existing ← get_plan "" (plan_name analysis)
    store_plan (proposed analysis auto_approve (a ∷ rest)) existing

  -- `createRemediationPlan`; without a limit only actions of low risk pass.
  unfoldable pub create_remediation_plan :
      String → String → Bool → List AiAction → State → Option String × State
  unfolding create_if_any plan_actions
  create_remediation_plan analysis max_risk auto_approve actions =
      create_if_any analysis auto_approve
        (plan_actions (if max_risk == "" then "low" else max_risk) 0 actions)
