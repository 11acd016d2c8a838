-- ===== src/Examples/RemediationRuns.antt =====
-- The theorems on remediation plans, applied to an API server that holds one plan and accepts every
-- request.
use mirops.Prelude.{
  ℕ, ◌+◌, ◌<>◌, ◌≡◌, ◌⊎◌, refl, sym, ap, ◌∙◌, String, Bool, true, false, ◌&&◌, Option, none, some,
  List, [], ◌∷◌, ◌++◌, map, arith, ◌==◌, string_dec,
}
use mirops.Prelude.Maps.{empty}
use mirops.Controller.{ok, done}
use mirops.Controller.Remediation.{
  Client, Lookup, found, not_found, RemediationPlan, RemediationAction, AiAction, PlanSpec,
  PlanStatus,
}
use mirops.Controller.Remediation.Actions.{execute_all}
use mirops.Controller.Remediation.Plans.{reconcile, reconcile_plan, has_run}
use mirops.Controller.Remediation.Proposals.{create_remediation_plan, plan_actions, plan_name}
use mirops.Controller.Remediation.Run.{Each, execute_all-Each}
use mirops.Controller.Remediation.Store.{PlanStore}
use mirops.Controller.Remediation.Once.{reconcile-once}
use mirops.Controller.Remediation.Propose.{
  medium, limit_text, action_of, numbered, SpecUpdates, plan_actions_lem,
  create_remediation_plan-idle,
}

abbrev delete_pod : RemediationAction
delete_pod = record {
  id = "action-1";
  type = "delete-pod";
  namespace = "shop";
  name = "web-1";
  reason = "crashes";
  risk = "low";
  params = empty;
  skip = false;
}

abbrev scale_up : RemediationAction
scale_up = record delete_pod {
  id = "action-2";
  type = "scale-deployment";
  name = "web";
  skip = true;
}

record Server : Type 0 where
  spec : PlanSpec
  status : PlanStatus
  requests : List String
  clock : ℕ

abbrev plan_of : Server → RemediationPlan
plan_of s = record {
  namespace = "";
  name = "shop-remediation";
  labels = [];
  spec = s.spec;
  status = s.status;
}

abbrev is_the_plan : String → String → Bool
is_the_plan ns n = (ns == "") && (n == "shop-remediation")

abbrev look_up : Bool → Server → Lookup
look_up true s = found (plan_of s)
look_up false s = not_found

abbrev note : String → Server → Option String × Server
note request s = (none, record s { requests = s.requests ++ request ∷ [] })

abbrev client : Client
client = record {
  State = Server;
  Pod = String;
  Deployment = String;
  Node = String;
  now = λ s. (s.clock, record s { clock = s.clock + 1 });
  get_plan = λ ns n s. (look_up (is_the_plan ns n) s, s);
  update_plan = λ p s. (none, record s { spec = p.spec });
  update_status = λ p s. (none, record s { status = p.status });
  create_plan = λ p s. (some "already exists", s);
  get_pod = λ ns n s. (ok n, s);
  delete_pod = λ p grace s. note ("delete " <> p) s;
  get_deployment = λ ns n s. (ok n, s);
  set_replicas = λ n d. d;
  update_deployment = λ d s. note ("update " <> d) s;
  get_node = λ n s. (ok n, s);
  set_unschedulable = λ d. d;
  update_node = λ d s. note ("cordon " <> d) s;
}

found-injective : (p q : RemediationPlan) → found p ≡ found q → p ≡ q
found-injective p q e = cc

names_of_plan : (ns n : String) → is_the_plan ns n ≡ true → (ns ≡ "") × (n ≡ "shop-remediation")
names_of_plan ns n e = ground arith

look_up-name :
    (ns n : String) (b : Bool) (s : Server) (p : RemediationPlan)
    → is_the_plan ns n ≡ b
    → look_up b s ≡ found p
    → (p.namespace ≡ ns) × (p.name ≡ n)
look_up-name ns n true s p e f =
    let same = found-injective _ p f in
    let (a, b) = names_of_plan ns n e in
    (
      ap (λ (q : RemediationPlan). q.namespace) (sym same) ∙ sym a,
      ap (λ (q : RemediationPlan). q.name) (sym same) ∙ sym b,
    )
look_up-name ns n false s p e f = cc

look_up-status :
    (b : Bool) (s : Server) (status : PlanStatus) (q : RemediationPlan)
    → look_up b s ≡ found q
    → look_up b (record s { status = status }) ≡ found (record q { status = status })
look_up-status true s status q e =
    ap (λ (p : RemediationPlan). found (record p { status = status })) (found-injective _ q e)
look_up-status false s status q e = cc

look_up-spec :
    (b : Bool) (s : Server) (spec : PlanSpec) (q : RemediationPlan)
    → look_up b s ≡ found q
    → look_up b (record s { spec = spec }) ≡ found (record q { spec = spec })
look_up-spec true s spec q e =
    ap (λ (p : RemediationPlan). found (record p { spec = spec })) (found-injective _ q e)
look_up-spec false s spec q e = cc

same_plan : (b : Bool) (s t : Server) → plan_of s ≡ plan_of t → look_up b s ≡ look_up b t
same_plan true s t e = ap found e
same_plan false s t e = refl

abbrev store : PlanStore client
store = record {
  Effects = List String;
  effects = λ s. s.requests;
  stored = λ ns n s. look_up (is_the_plan ns n) s;
  get_plan-stored = λ ns n s. refl;
  stored-name = λ ns n s p. look_up-name ns n _ s p refl;
  now-stored = λ ns n s. same_plan (is_the_plan ns n) _ s refl;
  now-effects = λ s. refl;
  update_status-effects = λ p s. refl;
  update_status-ok = λ p q ns n s en em e o. look_up-status (is_the_plan ns n) s p.status q e;
  update_status-failed = λ p s e ns n o. cc;
  get_pod-stored = λ ns n ns' n' s. refl;
  delete_pod-stored = λ ns n p grace s. same_plan (is_the_plan ns n) _ s refl;
  get_deployment-stored = λ ns n ns' n' s. refl;
  update_deployment-stored = λ ns n d s. same_plan (is_the_plan ns n) _ s refl;
  get_node-stored = λ ns n n' s. refl;
  update_node-stored = λ ns n d s. same_plan (is_the_plan ns n) _ s refl;
}

updates : SpecUpdates client store
updates = record {
  update_plan-ok = λ p q ns n s en em e o. look_up-spec (is_the_plan ns n) s p.spec q e;
  update_plan-failed = λ p s e ns n o. cc;
}

abbrev server : Server
server = record {
  spec = record {
    upgrade_analysis_ref = "shop";
    approved = true;
    actions = delete_pod ∷ scale_up ∷ [];
  };
  status = record { phase = ""; results = []; executed_at = none; completed_at = none };
  requests = [];
  clock = 0;
}

-- The approved plan deletes one pod, skips the other action and is then completed.
reconcile_run :
    ((reconcile client "" "shop-remediation" server).1.requests ≡ "delete web-1" ∷ [])
    × ((reconcile client "" "shop-remediation" server).1.status.phase ≡ "completed")
unfolding reconcile string_dec
reconcile_run = (refl, refl)

results_example :
    Each client
      (delete_pod ∷ scale_up ∷ [])
      (execute_all client "" (delete_pod ∷ scale_up ∷ []) server).0
results_example = execute_all-Each client "" (delete_pod ∷ scale_up ∷ []) server

once_example :
    (reconcile client "" "shop-remediation" (reconcile client "" "shop-remediation" server).1
      ≡ (done, (reconcile client "" "shop-remediation" server).1))
    ⊎ ((store.effects (reconcile client "" "shop-remediation" server).1 ≡ store.effects server)
        × (store.stored "" "shop-remediation" (reconcile client "" "shop-remediation" server).1
            ≡ store.stored "" "shop-remediation" server))
once_example = reconcile-once client store "" "shop-remediation" server

abbrev proposal : AiAction
proposal = record {
  type = "cordon-node";
  namespace = "";
  name = "node-1";
  reason = "not ready";
  risk = "medium";
  params = empty;
}

abbrev risky_proposal : AiAction
risky_proposal = record proposal { risk = "high" }

proposal_example :
    plan_actions (limit_text medium) 0 (risky_proposal ∷ proposal ∷ [])
    ≡ map action_of (numbered medium 0 (risky_proposal ∷ proposal ∷ []))
proposal_example = plan_actions_lem medium 0 (risky_proposal ∷ proposal ∷ [])

-- The plan of the first analysis has been completed.
abbrev completed : Server
completed = record server { status = record server.status { phase = "completed" } }

completed_stored : store.stored "" (plan_name client "shop") completed ≡ found (plan_of completed)
unfolding string_dec
completed_stored = refl

completed-has_run : has_run client (plan_of completed).status ≡ true
unfolding string_dec
completed-has_run = refl

idle_example :
    (q : RemediationPlan) × (store.stored ""
        (plan_name client "shop")
        (create_remediation_plan client "shop" "medium" true (proposal ∷ []) completed).1
      ≡ found q)
    × ((spec : PlanSpec) (u : Server)
        → reconcile_plan client (record q { spec = spec }) u ≡ (done, u))
idle_example =
    create_remediation_plan-idle client store updates "shop" "medium" true (proposal ∷ [])
      (plan_of completed) completed completed_stored completed-has_run
