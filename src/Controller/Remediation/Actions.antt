-- ===== src/Controller/Remediation/Actions.antt =====
-- internal/controller/remediationplan_controller.go: how an action is run.
use Prim.Native.Char.{code}
use mirops.Prelude.{
  ℕ, ◌+◌, ◌*◌, ◌-◌, ◌^◌, String, ◌<>◌, Bool, true, false, not, ◌&&◌, ◌||◌, Option, none, some, List,
  [], ◌∷◌, ltb, leb, eqb, ◌==◌, if◌then◌else◌,
}
use mirops.Prelude.Int.{ℤ, pos, sub_ℕ}
use mirops.Prelude.Maps.{Map}
use mirops.Controller.{Result, ok, err, ◌>>=◌, return}
use mirops.Controller.Remediation.{RemediationAction, ActionResult, Client}

abbrev is_digit : ℕ → Bool
is_digit c = leb 48 c && leb c 57

-- The number that the digits ahead of any other character spell, after the digits read so far.
digits_from : ℕ → String → ℕ
digits_from n String.[] = n
digits_from n (String.◌∷◌ c s) =
    let more = digits_from (10 * n + (code c - 48)) s in if is_digit (code c) then more else n

-- A 32-bit number with at least one digit.
unsigned : Bool → String → Option ℤ
unfolding digits_from
unsigned negative String.[] = none
unsigned negative (String.◌∷◌ c s) =
    let n = digits_from 0 (String.◌∷◌ c s) in
    if not (is_digit (code c))
    then none
    else if negative
    then (if leb n (2 ^ 31) then some (sub_ℕ 0 n) else none)
    else if ltb n (2 ^ 31)
    then some (pos n)
    else none

-- `fmt.Sscanf(v, "%d", &replicas)` into an int32: blanks, a sign, digits; what follows the digits is
-- left unread.
unfoldable pub scan_int32 : String → Option ℤ
unfolding unsigned
scan_int32 String.[] = none
scan_int32 (String.◌∷◌ c s) =
    let rest = scan_int32 s in
    if eqb (code c) 32 || eqb (code c) 9
    then rest
    else if eqb (code c) 45
    then unsigned true s
    else if eqb (code c) 43
    then unsigned false s
    else unsigned false (String.◌∷◌ c s)

-- The replicas that the parameters ask for; without any it is one. The error's text is given
-- without the one that it wraps.
unfoldable pub wanted_replicas : Map String → Result ℤ
unfolding scan_int32
wanted_replicas params = elim (params "replicas") [
  | none ↦ ok (pos 1)
  | some v ↦ elim (scan_int32 v) [
    | none ↦ err ("invalid replicas value \"" <> v <> "\"")
    | some n ↦ ok n
  ]
]

module _ (C : Client) where
  open C use {
    State, Pod, Deployment, Node, now, get_plan, update_plan, update_status, create_plan, get_pod,
    delete_pod, get_deployment, set_replicas, update_deployment, get_node, set_unschedulable,
    update_node,
  }

  -- A request that needs the object which another request reads.
  abbrev pub after :
      {A : Type 0} → Result A → (A → State → Option String × State) → State → Option String × State
  after (err e) k s = (some e, s)
  after (ok a) k s = k a s

  unfoldable pub restart_pod : String → String → State → Option String × State
  restart_pod namespace name = do pod ← get_pod namespace name; after pod (λ p. delete_pod p none)

  unfoldable pub delete_pod_now : String → String → State → Option String × State
  delete_pod_now namespace name = do
    pod ← get_pod namespace name
    after pod (λ p. delete_pod p (some 0))

  unfoldable pub scale_deployment : String → String → Map String → State → Option String × State
  unfolding wanted_replicas
  scale_deployment namespace name params = do
    dep ← get_deployment namespace name
    after dep (λ d. after (wanted_replicas params) (λ n. update_deployment (set_replicas n d)))

  unfoldable pub cordon_node : String → State → Option String × State
  cordon_node name = do node ← get_node name; after node (λ n. update_node (set_unschedulable n))

  unfoldable pub dispatch : String → RemediationAction → State → Option String × State
  unfolding restart_pod delete_pod_now scale_deployment cordon_node
  dispatch ns action =
      if action.type == "restart-pod"
      then restart_pod ns action.name
      else if action.type == "delete-pod"
      then delete_pod_now ns action.name
      else if action.type == "scale-deployment"
      then scale_deployment ns action.name action.params
      else if action.type == "cordon-node"
      then cordon_node action.name
      else return (some ("unknown action type \"" <> action.type <> "\""))

  abbrev pub outcome_of : String → ℕ → Option String → ActionResult
  outcome_of id at none = record { id = id; status = "success"; error = ""; executed_at = some at }
  outcome_of id at (some e) = record {
    id = id;
    status = "failed";
    error = e;
    executed_at = some at;
  }

  unfoldable pub execute_action : String → RemediationAction → State → ActionResult × State
  unfolding dispatch
  execute_action namespace action = do
    at ← now
    e ← dispatch (if action.namespace == "" then namespace else action.namespace) action
    return (outcome_of action.id at e)

  abbrev pub skipped : RemediationAction → ActionResult
  skipped action = record { id = action.id; status = "skipped"; error = ""; executed_at = none }

  -- The loop over the actions, whose `allOK` is read off the results.
  unfoldable pub execute_all : String → List RemediationAction → State → List ActionResult × State
  unfolding execute_action
  execute_all namespace [] = return []
  execute_all namespace (a ∷ rest) = do
    r ← if a.skip then return (skipped a) else execute_action namespace a
    rs ← execute_all namespace rest
    return (r ∷ rs)
