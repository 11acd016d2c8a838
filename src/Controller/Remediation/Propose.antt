-- ===== src/Controller/Remediation/Propose.antt =====
-- The plans that an analysis proposes, and what becomes of one that replaces another.
use mathlib.Core.Path.{subst}
use mirops.Prelude.Text.{decimal}
use mirops.Prelude.{
  ℕ, suc, ◌+◌, ◌<>◌, if◌then◌else◌, ◌≡◌, refl, sym, ap, ◌∙◌, String, Bool, true, false, Option,
  none, some, List, [], ◌∷◌, map, if-cases, Bool-cases, Option-cases, inl, inr, arith, ◌⊎◌, ◌==◌,
  not, ◌&&◌, string_dec,
}
use mirops.Controller.{done, return}
use mirops.Controller.Remediation.{
  Client, found, RemediationPlan, PlanSpec, PlanStatus, RemediationAction, AiAction,
}
use mirops.Controller.Remediation.Proposals.{
  risk_within, plan_actions, plan_name, proposed, replaceable, replacement, store_plan,
  create_if_any, create_remediation_plan,
}
use mirops.Controller.Remediation.Plans.{has_run, reconcile_plan}
use mirops.Controller.Remediation.Store.{PlanStore}
use mirops.Controller.Remediation.Once.{reconcile_plan-idle}

-- The limits that the API documents.
pub data Limit : Type 0 where
  low medium high : Limit

abbrev pub limit_text : Limit → String
limit_text low = "low"
limit_text medium = "medium"
limit_text high = "high"

-- The risk is none of those that are documented to rank above the limit.
abbrev pub passes : Limit → String → Bool
passes low r = not (r == "medium") && not (r == "high")
passes medium r = not (r == "high")
passes high r = true

-- The planned action under this name.
abbrev pub action_of : String × AiAction → RemediationAction
action_of (id, a) = record {
  id = id;
  type = a.type;
  namespace = a.namespace;
  name = a.name;
  reason = a.reason;
  risk = a.risk;
  params = a.params;
  skip = false;
}

other : (s t : String) → ¬ (s ≡ t) → (s == t) ≡ false
other s t h = ground arith

-- A text is one of the three risks or differs from each.
risk_cases :
    (r : String)
    → (r ≡ "low")
      ⊎ (r ≡ "medium")
      ⊎ (r ≡ "high")
      ⊎ ((r == "low") ≡ false) × ((r == "medium") ≡ false) × ((r == "high") ≡ false)
risk_cases r = elim (string_dec r "low") [
  | yes e ↦ inl e
  | no l ↦ elim (string_dec r "medium") [
    | yes e ↦ inr (inl e)
    | no m ↦ elim (string_dec r "high") [
      | yes e ↦ inr (inr (inl e))
      | no h ↦ inr (inr (inr (other r _ l, other r _ m, other r _ h)))
    ]
  ]
]

known-passes :
    (l : Limit)
    → (risk_within "low" (limit_text l) ≡ passes l "low")
      × (risk_within "medium" (limit_text l) ≡ passes l "medium")
      × (risk_within "high" (limit_text l) ≡ passes l "high")
unfolding risk_within string_dec
known-passes low = (refl, refl, refl)
known-passes medium = (refl, refl, refl)
known-passes high = (refl, refl, refl)

unknown-passes :
    (l : Limit) (r : String)
    → (r == "low") ≡ false
    → (r == "medium") ≡ false
    → (r == "high") ≡ false
    → risk_within r (limit_text l) ≡ passes l r
unfolding risk_within string_dec
unknown-passes low r a b c = rw (a, b, c) refl
unknown-passes medium r a b c = rw (a, b, c) refl
unknown-passes high r a b c = rw (a, b, c) refl

within-passes : (l : Limit) (r : String) → risk_within r (limit_text l) ≡ passes l r
within-passes l r =
    let (is_low, is_medium, is_high) = known-passes l in
    elim (risk_cases r) [
      | inl e ↦ subst (λ t. risk_within t (limit_text l) ≡ passes l t) (sym e) is_low
      | inr (inl e) ↦ subst (λ t. risk_within t (limit_text l) ≡ passes l t) (sym e) is_medium
      | inr (inr (inl e)) ↦ subst (λ t. risk_within t (limit_text l) ≡ passes l t) (sym e) is_high
      | inr (inr (inr (a, b, c))) ↦ unknown-passes l r a b c
    ]

-- The actions at these positions that pass the limit, each with the name of its position.
abbrev pub numbered : Limit → ℕ → List AiAction → List (String × AiAction)
numbered l i [] = []
numbered l i (a ∷ rest) =
    let later = numbered l (suc i) rest in
    if passes l a.risk then ("action-" <> decimal (i + 1), a) ∷ later else later

-- A proposed plan under the limit "low", "medium" or "high" holds every action of the language
-- model but those with a documented risk above the limit: not "medium" and "high" under "low", and
-- not "high" under "medium". They are as the model proposed them and stand in its order, each named
-- after its place in the model's list, which counts from `i + 1` on, and none is skipped. An action
-- whose risk is any other text is in the plan under every limit.
pub plan_actions_lem :
    (l : Limit) (i : ℕ) (actions : List AiAction)
    → plan_actions (limit_text l) i actions ≡ map action_of (numbered l i actions)
unfolding plan_actions
plan_actions_lem l i [] = refl
plan_actions_lem l i (a ∷ rest) = elim (Bool-cases (passes l a.risk)) [
  | inl e ↦
      rw (within-passes l a.risk, e)
        (ap (λ s. action_of ("action-" <> decimal (i + 1), a) ∷ s)
          (plan_actions_lem l (suc i) rest))
  | inr e ↦ rw (within-passes l a.risk, e) (plan_actions_lem l (suc i) rest)
]

-- The type of the plans has a status subresource: a successful update stores the spec that it is
-- given and ignores the status, and a failed one stores nothing.
pub record SpecUpdates (C : Client) (store : PlanStore C) : Type 0 where
  pub update_plan-ok :
      (p q : RemediationPlan) (ns n : String) (s : C.State)
      → p.namespace ≡ ns
      → p.name ≡ n
      → store.stored ns n s ≡ found q
      → (C.update_plan p s).0 ≡ none
      → store.stored ns n (C.update_plan p s).1 ≡ found (record q { spec = p.spec })
  pub update_plan-failed :
      (p : RemediationPlan) (s : C.State) (e ns n : String)
      → (C.update_plan p s).0 ≡ some e
      → store.stored ns n (C.update_plan p s).1 ≡ store.stored ns n s

module _ (C : Client) (store : PlanStore C) (updates : SpecUpdates C store) where
  open C use {State}

  -- The plan stored under the analysis's name has this status.
  HasStatus : String → PlanStatus → State → Type 0
  HasStatus analysis status s =
      (q : RemediationPlan) × (store.stored "" (plan_name C analysis) s ≡ found q)
      × (q.status ≡ status)

  update_plan-HasStatus :
      (analysis : String) (p q : RemediationPlan) (s : State)
      → p.namespace ≡ ""
      → p.name ≡ plan_name C analysis
      → store.stored "" (plan_name C analysis) s ≡ found q
      → HasStatus analysis q.status (C.update_plan p s).1
  unfolding HasStatus
  update_plan-HasStatus analysis p q s en em e = elim (Option-cases (C.update_plan p s).0) [
    | inl o ↦ (record q { spec = p.spec }, updates.update_plan-ok p q _ _ s en em e o, refl)
    | inr (t, o) ↦ (q, updates.update_plan-failed p s t _ _ o ∙ e, refl)
  ]

  store_plan-HasStatus :
      (analysis : String) (plan q : RemediationPlan) (s : State)
      → store.stored "" (plan_name C analysis) s ≡ found q
      → HasStatus analysis q.status (store_plan C plan (found q) s).1
  unfolding store_plan HasStatus
  store_plan-HasStatus analysis plan q s e =
      let (en, em) = store.stored-name _ _ s q e in
      let Kept : (State → Option String × State) → Type 0 =
        λ m. HasStatus analysis q.status (m s).1 in
      if-cases Kept (replaceable C q.status) (C.update_plan (replacement C plan q)) (return none)
        (λ _. update_plan-HasStatus analysis (replacement C plan q) q s en em e) (λ _. (q, e, refl))

  create_if_any-HasStatus :
      (analysis : String) (auto_approve : Bool) (actions : List RemediationAction)
      (q : RemediationPlan) (s : State)
      → store.stored "" (plan_name C analysis) s ≡ found q
      → HasStatus analysis q.status (create_if_any C analysis auto_approve actions s).1
  unfolding create_if_any HasStatus
  create_if_any-HasStatus analysis auto_approve [] q s e = (q, e, refl)
  create_if_any-HasStatus analysis auto_approve (a ∷ rest) q s e =
      rw (store.get_plan-stored "" (plan_name C analysis) s, e)
        (store_plan-HasStatus analysis (proposed C analysis auto_approve (a ∷ rest)) q s e)

  -- If the plan of an earlier analysis has finished, then after `create_remediation_plan` the plan
  -- still carries the old status, so that whatever its spec becomes, approved or not,
  -- reconciling it does nothing: a plan that replaces another is never run.
  pub create_remediation_plan-idle :
      (analysis max_risk : String) (auto_approve : Bool) (actions : List AiAction)
      (p : RemediationPlan) (s : State)
      → store.stored "" (plan_name C analysis) s ≡ found p
      → has_run C p.status ≡ true
      → let t = (create_remediation_plan C analysis max_risk auto_approve actions s).1 in
        (q : RemediationPlan) × (store.stored "" (plan_name C analysis) t ≡ found q)
        × ((spec : PlanSpec) (u : State)
            → reconcile_plan C (record q { spec = spec }) u ≡ (done, u))
  unfolding create_remediation_plan HasStatus
  create_remediation_plan-idle analysis max_risk auto_approve actions p s e h =
      let (q, e', same) = create_if_any-HasStatus analysis auto_approve _ p s e in
      (
        q,
        e',
        λ spec u.
            reconcile_plan-idle C store "" (plan_name C analysis) (record q { spec = spec }) u
              (ap (has_run C) same ∙ h),
      )
