-- ===== src/Controller/Remediation/Once.antt =====
-- A plan's actions are run at most once, whatever requests fail.
use mirops.Prelude.{
  ℕ, ◌≡◌, refl, ap, sym, ◌∙◌, String, true, not, Option, none, some, List, if-cases, Option-cases,
  inl, inr, ◌⊎◌, arith,
}
use mirops.Controller.{Outcome, done}
use mirops.Controller.Remediation.{
  Client, Lookup, found, not_found, unreadable, RemediationPlan, PlanStatus, ActionResult,
}
use mirops.Controller.Remediation.Actions.{execute_all}
use mirops.Controller.Remediation.Plans.{
  execute_plan, after_start, reconcile_found, run_plan, reconcile_plan, reconcile, has_run,
  with_status, started, finished,
}
use mirops.Controller.Remediation.Store.{PlanStore, execute_all-Keeps}

module _ (C : Client) (store : PlanStore C) (ns n : String) where
  open C use {State}

  -- The plan has been started, so that it is never started again.
  abbrev Ran : State → Type 0
  Ran s = (q : RemediationPlan) × (store.stored ns n s ≡ found q) × (has_run C q.status ≡ true)

  finished-has_run :
      (st : PlanStatus) (results : List ActionResult) (at : ℕ)
      → has_run C (finished C st results at) ≡ true
  finished-has_run st results at = ground arith

  started-has_run : (p : RemediationPlan) (at : ℕ) → has_run C (started C p at) ≡ true
  started-has_run p at = ground arith

  update_status-Ran :
      (p q : RemediationPlan) (s : State)
      → p.namespace ≡ ns
      → p.name ≡ n
      → store.stored ns n s ≡ found q
      → has_run C p.status ≡ true
      → has_run C q.status ≡ true
      → Ran (C.update_status p s).1
  update_status-Ran p q s en em e r h = elim (Option-cases (C.update_status p s).0) [
    | inl o ↦ (record q { status = p.status }, store.update_status-ok p q ns n s en em e o, r)
    | inr (t, o) ↦ (q, store.update_status-failed p s t ns n o ∙ e, h)
  ]

  execute_plan-Ran :
      (p q : RemediationPlan) (at : ℕ) (s : State)
      → p.namespace ≡ ns
      → p.name ≡ n
      → store.stored ns n s ≡ found q
      → has_run C q.status ≡ true
      → Ran (execute_plan C p at s).1
  unfolding execute_plan
  execute_plan-Ran p q at s en em e r =
      let results = (execute_all C p.namespace p.spec.actions s).0 in
      let s1 = (execute_all C p.namespace p.spec.actions s).1 in
      update_status-Ran (with_status C p (finished C (started C p at) results (C.now s1).0)) q
        (C.now s1).1 en em
        (store.now-stored ns n s1 ∙ execute_all-Keeps C store ns n p.namespace p.spec.actions s ∙ e)
        (finished-has_run (started C p at) results (C.now s1).0) r

  -- Nothing was done, neither to the plan nor to the cluster.
  abbrev Untouched : State → State → Type 0
  Untouched s t = (store.effects t ≡ store.effects s) × (store.stored ns n t ≡ store.stored ns n s)

  abbrev Once : State → (State → Outcome × State) → Type 0
  Once s m = Ran (m s).1 ⊎ Untouched s (m s).1

  after_start-once :
      (p : RemediationPlan) (s : State) (o : Option String)
      → p.namespace ≡ ns
      → p.name ≡ n
      → store.stored ns n s ≡ found p
      → (C.update_status (with_status C p (started C p (C.now s).0)) (C.now s).1).0 ≡ o
      → let t =
          (after_start C p
            (C.now s).0
            o
            (C.update_status (with_status C p (started C p (C.now s).0)) (C.now s).1).1).1 in
        Ran t ⊎ Untouched s t
  unfolding after_start
  after_start-once p s none en em e o =
      let marked = with_status C p (started C p (C.now s).0) in
      inl (
        execute_plan-Ran p marked (C.now s).0 (C.update_status marked (C.now s).1).1 en em
          (store.update_status-ok marked p ns n (C.now s).1 en em (store.now-stored ns n s ∙ e) o)
          (started-has_run p (C.now s).0))
  after_start-once p s (some t) en em e o =
      let marked = with_status C p (started C p (C.now s).0) in
      inr (
        store.update_status-effects marked (C.now s).1 ∙ store.now-effects s,
        store.update_status-failed marked (C.now s).1 t ns n o ∙ store.now-stored ns n s,
      )

  reconcile_plan-once :
      (p : RemediationPlan) (s : State)
      → p.namespace ≡ ns
      → p.name ≡ n
      → store.stored ns n s ≡ found p
      → Ran (reconcile_plan C p s).1 ⊎ Untouched s (reconcile_plan C p s).1
  unfolding reconcile_plan run_plan
  reconcile_plan-once p s en em e =
      if-cases (Once s) (not p.spec.approved) _ _ (λ _. inr (refl, refl))
        (λ _.
          if-cases (Once s) (has_run C p.status) _ _ (λ _. inr (refl, refl))
            (λ _. after_start-once p s _ en em e refl))

  lookup-once :
      (l : Lookup) (s : State)
      → store.stored ns n s ≡ l
      → Ran (reconcile_found C l s).1 ⊎ Untouched s (reconcile_found C l s).1
  unfolding reconcile_found
  lookup-once (found p) s e =
      let (en, em) = store.stored-name ns n s p e in reconcile_plan-once p s en em e
  lookup-once not_found s e = inr (refl, refl)
  lookup-once (unreadable t) s e = inr (refl, refl)

  pub reconcile_plan-idle :
      (q : RemediationPlan) (s : State)
      → has_run C q.status ≡ true
      → reconcile_plan C q s ≡ (done, s)
  unfolding reconcile_plan
  reconcile_plan-idle q s h =
      let Idle : (State → Outcome × State) → Type 0 = λ m. m s ≡ (done, s) in
      if-cases Idle (not q.spec.approved) _ _ (λ _. refl)
        (λ _. if-cases Idle (has_run C q.status) _ _ (λ _. refl) (λ e. cc (sym h ∙ e)))

  Ran-reconcile : (s : State) → Ran s → reconcile C ns n s ≡ (done, s)
  unfolding reconcile reconcile_found
  Ran-reconcile s (q, e, h) = rw (store.get_plan-stored ns n s, e) (reconcile_plan-idle q s h)

  -- Whichever requests fail, after `reconcile` either the plan has been started, and then another
  -- `reconcile` does nothing at all, or nothing was done to the plan and nothing to pods,
  -- deployments and nodes. So the actions of a plan are never run twice.
  pub reconcile-once :
      (s : State)
      → (reconcile C ns n (reconcile C ns n s).1 ≡ (done, (reconcile C ns n s).1))
        ⊎ ((store.effects (reconcile C ns n s).1 ≡ store.effects s)
            × (store.stored ns n (reconcile C ns n s).1 ≡ store.stored ns n s))
  unfolding reconcile
  reconcile-once s =
      let read = store.get_plan-stored ns n s in
      let known = ap (λ r. store.stored ns n r.1) read ∙ sym (ap (λ r. r.0) read) in
      elim (lookup-once (C.get_plan ns n s).0 (C.get_plan ns n s).1 known) [
        | inl ran ↦ inl (Ran-reconcile _ ran)
        | inr (x, y) ↦
            inr (x ∙ ap (λ r. store.effects r.1) read, y ∙ ap (λ r. store.stored ns n r.1) read)
      ]
