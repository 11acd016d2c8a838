-- ===== src/Controller/Remediation/Store.antt =====
-- The API server, as the reconciler of plans relies on it, and the requests that leave the plans
-- alone.
use mirops.Prelude.{
  ℕ, ◌≡◌, refl, ◌∙◌, String, Bool, true, false, Option, none, some, List, [], ◌∷◌, if◌then◌else◌,
  arith,
}
use mirops.Prelude.Maps.{Map}
use mirops.Controller.{Result, ok, err, return}
use mirops.Controller.Remediation.{Client, Lookup, found, RemediationPlan, RemediationAction}
use mirops.Controller.Remediation.Actions.{
  restart_pod, delete_pod_now, scale_deployment, cordon_node, dispatch, execute_action, execute_all,
  after, skipped, wanted_replicas,
}

-- What the reconciler relies on: the API server stores the plans, a request on other objects
-- leaves them alone, and a status update that succeeds stores the status. `effects` is whatever
-- the requests on pods, deployments and nodes change.
pub record PlanStore (C : Client) : Type 1 where
  pub Effects : Type 0
  pub effects : C.State → Effects
  pub stored : String → String → C.State → Lookup
  pub get_plan-stored : (ns n : String) (s : C.State) → C.get_plan ns n s ≡ (stored ns n s, s)
  pub stored-name :
      (ns n : String) (s : C.State) (p : RemediationPlan)
      → stored ns n s ≡ found p
      → (p.namespace ≡ ns) × (p.name ≡ n)
  pub now-stored : (ns n : String) (s : C.State) → stored ns n (C.now s).1 ≡ stored ns n s
  pub now-effects : (s : C.State) → effects (C.now s).1 ≡ effects s
  pub update_status-effects :
      (p : RemediationPlan) (s : C.State) → effects (C.update_status p s).1 ≡ effects s
  pub update_status-ok :
      (p q : RemediationPlan) (ns n : String) (s : C.State)
      → p.namespace ≡ ns
      → p.name ≡ n
      → stored ns n s ≡ found q
      → (C.update_status p s).0 ≡ none
      → stored ns n (C.update_status p s).1 ≡ found (record q { status = p.status })
  pub update_status-failed :
      (p : RemediationPlan) (s : C.State) (e ns n : String)
      → (C.update_status p s).0 ≡ some e
      → stored ns n (C.update_status p s).1 ≡ stored ns n s
  pub get_pod-stored :
      (ns n ns' n' : String) (s : C.State) → stored ns n (C.get_pod ns' n' s).1 ≡ stored ns n s
  pub delete_pod-stored :
      (ns n : String) (p : C.Pod) (grace : Option ℕ) (s : C.State)
      → stored ns n (C.delete_pod p grace s).1 ≡ stored ns n s
  pub get_deployment-stored :
      (ns n ns' n' : String) (s : C.State)
      → stored ns n (C.get_deployment ns' n' s).1 ≡ stored ns n s
  pub update_deployment-stored :
      (ns n : String) (d : C.Deployment) (s : C.State)
      → stored ns n (C.update_deployment d s).1 ≡ stored ns n s
  pub get_node-stored :
      (ns n n' : String) (s : C.State) → stored ns n (C.get_node n' s).1 ≡ stored ns n s
  pub update_node-stored :
      (ns n : String) (d : C.Node) (s : C.State) → stored ns n (C.update_node d s).1 ≡ stored ns n s

module _ (C : Client) (store : PlanStore C) (ns n : String) where
  open C use {State}

  -- The request leaves the plan alone.
  abbrev Keeps : {A : Type 0} → (State → A × State) → Type 0
  Keeps m = (s : State) → store.stored ns n (m s).1 ≡ store.stored ns n s

  Keeps-after :
      {A : Type 0} (r : Result A) (k : A → State → Option String × State)
      → ((a : A) → Keeps (k a))
      → Keeps (after C r k)
  Keeps-after (ok a) k h s = h a s
  Keeps-after (err e) k h s = refl

  Keeps-if :
      {A : Type 0} (b : Bool) (m m' : State → A × State)
      → Keeps m
      → Keeps m'
      → Keeps (if b then m else m')
  Keeps-if true m m' h h' s = h s
  Keeps-if false m m' h h' s = h' s

  restart_pod-Keeps : (x y : String) → Keeps (restart_pod C x y)
  unfolding restart_pod
  restart_pod-Keeps x y s =
      Keeps-after (C.get_pod x y s).0 (λ p. C.delete_pod p none)
        (λ p. store.delete_pod-stored ns n p none) _
      ∙ store.get_pod-stored ns n x y s

  delete_pod_now-Keeps : (x y : String) → Keeps (delete_pod_now C x y)
  unfolding delete_pod_now
  delete_pod_now-Keeps x y s =
      Keeps-after (C.get_pod x y s).0 (λ p. C.delete_pod p (some 0))
        (λ p. store.delete_pod-stored ns n p (some 0)) _
      ∙ store.get_pod-stored ns n x y s

  scale_deployment-Keeps :
      (x y : String) (params : Map String) → Keeps (scale_deployment C x y params)
  unfolding scale_deployment
  scale_deployment-Keeps x y params s =
      Keeps-after (C.get_deployment x y s).0
        (λ d. after C (wanted_replicas params) (λ k. C.update_deployment (C.set_replicas k d)))
        (λ d.
          Keeps-after (wanted_replicas params) (λ k. C.update_deployment (C.set_replicas k d))
            (λ k. store.update_deployment-stored ns n (C.set_replicas k d)))
        _
      ∙ store.get_deployment-stored ns n x y s

  cordon_node-Keeps : (x : String) → Keeps (cordon_node C x)
  unfolding cordon_node
  cordon_node-Keeps x s =
      Keeps-after (C.get_node x s).0 (λ d. C.update_node (C.set_unschedulable d))
        (λ d. store.update_node-stored ns n (C.set_unschedulable d)) _
      ∙ store.get_node-stored ns n x s

  dispatch-Keeps : (namespace : String) (a : RemediationAction) → Keeps (dispatch C namespace a)
  unfolding dispatch
  dispatch-Keeps namespace a s = ground (
    arith,
    restart_pod-Keeps namespace a.name s,
    delete_pod_now-Keeps namespace a.name s,
    scale_deployment-Keeps namespace a.name a.params s,
    cordon_node-Keeps a.name s,
  )

  execute_action-Keeps :
      (namespace : String) (a : RemediationAction) → Keeps (execute_action C namespace a)
  unfolding execute_action
  execute_action-Keeps namespace a s = dispatch-Keeps _ a _ ∙ store.now-stored ns n s

  pub execute_all-Keeps :
      (namespace : String) (actions : List RemediationAction)
      → Keeps (execute_all C namespace actions)
  unfolding execute_all
  execute_all-Keeps namespace [] s = refl
  execute_all-Keeps namespace (a ∷ rest) s =
      execute_all-Keeps namespace rest _
      ∙ Keeps-if a.skip (return (skipped C a)) (execute_action C namespace a) (λ t. refl)
          (execute_action-Keeps namespace a) s
