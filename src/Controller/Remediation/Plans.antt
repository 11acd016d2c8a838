-- ===== src/Controller/Remediation/Plans.antt =====
-- internal/controller/remediationplan_controller.go: the reconciler of plans.
use mirops.Prelude.{
  ℕ, String, Bool, true, not, ◌&&◌, ◌||◌, Option, none, some, List, [], ◌∷◌, ◌==◌, if◌then◌else◌,
}
use mirops.Controller.{Outcome, done, failed, ◌>>=◌, return}
use mirops.Controller.Remediation.{
  ActionResult, PlanStatus, RemediationPlan, Lookup, found, not_found, unreadable, Client,
  phase_running, phase_completed, phase_failed,
}
use mirops.Controller.Remediation.Actions.{execute_all}

module _ (C : Client) where
  open C use {
    State, Pod, Deployment, Node, now, get_plan, update_plan, update_status, create_plan, get_pod,
    delete_pod, get_deployment, set_replicas, update_deployment, get_node, set_unschedulable,
    update_node,
  }

  abbrev pub is_failed : ActionResult → Bool
  is_failed r = r.status == "failed"

  abbrev pub all_ok : List ActionResult → Bool
  all_ok [] = true
  all_ok (r ∷ rs) = not (is_failed r) && all_ok rs

  abbrev pub with_status : RemediationPlan → PlanStatus → RemediationPlan
  with_status plan status = record plan { status = status }

  abbrev pub started : RemediationPlan → ℕ → PlanStatus
  started plan at = record plan.status { phase = phase_running; executed_at = some at }

  abbrev pub finished : PlanStatus → List ActionResult → ℕ → PlanStatus
  finished status results at = record status {
    phase = if all_ok results then phase_completed else phase_failed;
    results = results;
    completed_at = some at;
  }

  abbrev report_update : Option String → Outcome
  report_update none = done
  report_update (some e) = failed e

  unfoldable pub execute_plan : RemediationPlan → ℕ → State → Outcome × State
  unfolding execute_all
  execute_plan plan at = do
    results ← execute_all C plan.namespace plan.spec.actions
    completed_at ← now
    e ← update_status (with_status plan (finished (started plan at) results completed_at))
    return (report_update e)

  -- What follows the first update of the status; if that failed, no action is run.
  unfoldable pub after_start : RemediationPlan → ℕ → Option String → State → Outcome × State
  unfolding execute_plan
  after_start plan at (some e) = return (failed e)
  after_start plan at none = execute_plan plan at

  -- The plan is marked as running before its first action.
  unfoldable pub run_plan : RemediationPlan → State → Outcome × State
  unfolding after_start
  run_plan plan = do
    at ← now
    e ← update_status (with_status plan (started plan at))
    after_start plan at e

  abbrev pub has_run : PlanStatus → Bool
  has_run status =
      (status.phase == phase_completed)
      || ((status.phase == phase_failed) || (status.phase == phase_running))

  unfoldable pub reconcile_plan : RemediationPlan → State → Outcome × State
  unfolding run_plan
  reconcile_plan plan =
      if not plan.spec.approved
      then return done
      else if has_run plan.status
      then return done
      else run_plan plan

  unfoldable pub reconcile_found : Lookup → State → Outcome × State
  unfolding reconcile_plan
  reconcile_found not_found = return done
  reconcile_found (unreadable e) = return (failed e)
  reconcile_found (found p) = reconcile_plan p

  unfoldable pub reconcile : String → String → State → Outcome × State
  unfolding reconcile_found
  reconcile namespace name = do plan ← get_plan namespace name; reconcile_found plan
