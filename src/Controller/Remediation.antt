-- ===== src/Controller/Remediation.antt =====
-- internal/controller/remediationplan_controller.go and api/v1/remediationplan_types.go: the plans
-- of remediation actions and the requests that their reconciler makes.
pub mod Actions
pub mod Plans
pub mod Proposals
pub mod Run
pub mod Store
pub mod Once
pub mod Propose
use Prim.Native.Char.{Char, code}
use mirops.Prelude.{
  ℕ, suc, ◌+◌, ◌*◌, ◌-◌, ◌^◌, String, ◌<>◌, Bool, true, false, not, ◌&&◌, ◌||◌, Option, none, some,
  List, [], ◌∷◌, ◌++◌, ltb, leb, eqb, length, ◌==◌, if◌then◌else◌,
}
use mirops.Prelude.Int.{ℤ, pos, negsuc, sub_ℕ}
use mirops.Prelude.Text.{decimal}
use mirops.Prelude.Maps.{Map}
use mirops.Controller.{Result, ok, err, Outcome, done, failed, ◌>>=◌, return}

abbrev pub phase_pending_approval : String
phase_pending_approval = "pending-approval"

abbrev pub phase_running : String
phase_running = "running"

abbrev pub phase_completed : String
phase_completed = "completed"

abbrev pub phase_failed : String
phase_failed = "failed"

-- The type and the risk come from a language model, so they may be any text.
pub record RemediationAction : Type 0 where
  pub id : String
  pub type : String
  pub namespace : String
  pub name : String
  pub reason : String
  pub risk : String
  pub params : Map String
  pub skip : Bool

-- An action as the language model proposes it.
pub record AiAction : Type 0 where
  pub type : String
  pub namespace : String
  pub name : String
  pub reason : String
  pub risk : String
  pub params : Map String

-- Times are nanoseconds.
pub record ActionResult : Type 0 where
  pub id : String
  pub status : String
  pub error : String
  pub executed_at : Option ℕ

pub record PlanSpec : Type 0 where
  pub upgrade_analysis_ref : String
  pub approved : Bool
  pub actions : List RemediationAction

-- The phase of a new plan is the empty text.
pub record PlanStatus : Type 0 where
  pub phase : String
  pub results : List ActionResult
  pub executed_at : Option ℕ
  pub completed_at : Option ℕ

pub record RemediationPlan : Type 0 where
  pub namespace : String
  pub name : String
  pub labels : List (String × String)
  pub spec : PlanSpec
  pub status : PlanStatus

pub data Lookup : Type 0 where
  found : RemediationPlan → Lookup
  not_found : Lookup
  unreadable : String → Lookup

-- The requests that the reconciler makes. `none` is success, `some` the text of the error. The
-- client's own types carry the fields that the reconciler leaves alone.
pub record Client : Type 1 where
  pub State : Type 0
  pub Pod : Type 0
  pub Deployment : Type 0
  pub Node : Type 0
  pub now : State → ℕ × State
  pub get_plan : String → String → State → Lookup × State
  pub update_plan : RemediationPlan → State → Option String × State
  pub update_status : RemediationPlan → State → Option String × State
  pub create_plan : RemediationPlan → State → Option String × State
  pub get_pod : String → String → State → Result Pod × State
  pub delete_pod : Pod → Option ℕ → State → Option String × State
  pub get_deployment : String → String → State → Result Deployment × State
  pub set_replicas : ℤ → Deployment → Deployment
  pub update_deployment : Deployment → State → Option String × State
  pub get_node : String → State → Result Node × State
  pub set_unschedulable : Node → Node
  pub update_node : Node → State → Option String × State
