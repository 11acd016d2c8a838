-- ===== src/Controller/Remediation/Run.antt =====
-- What running the actions of a plan records.
use mirops.Prelude.{
  ℕ, ◌≡◌, ◌↔◌, refl, String, Bool, true, false, Option, none, some, List, [], ◌∷◌, string_dec,
  apart, if◌then◌else◌, Bool-cases, inl, inr, ◌⊎◌,
}
use mirops.Controller.{return}
use mirops.Controller.Remediation.{Client, RemediationAction, ActionResult}
use mirops.Controller.Remediation.Actions.{execute_action, execute_all, skipped, outcome_of}

module _ (C : Client) where
  open C use {State}

  -- The result of an action with this id, which the user skips or not.
  abbrev pub Answers : String → Bool → ActionResult → Type 0
  Answers id skip r =
      (r.id ≡ id)
      × (r.status ≡ "skipped" ↔ skip ≡ true)
      × ((r.status ≡ "skipped") ⊎ ((r.status ≡ "success") ⊎ (r.status ≡ "failed")))

  unfoldable pub Each : List RemediationAction → List ActionResult → Type 0
  Each [] [] = Unit
  Each (a ∷ rest) (r ∷ rs) = Answers a.id a.skip r × Each rest rs
  Each _ _ = ⊥

  success-apart : (e : ◌≡◌ {A = String} "success" "skipped") → ⊥
  unfolding string_dec
  success-apart = apart "success" "skipped" refl

  failed-apart : (e : ◌≡◌ {A = String} "failed" "skipped") → ⊥
  unfolding string_dec
  failed-apart = apart "failed" "skipped" refl

  outcome_of-Answers :
      (id : String) (at : ℕ) (e : Option String) → Answers id false (outcome_of C id at e)
  outcome_of-Answers id at none = (refl, (λ e. absurd (success-apart e), λ t. cc), inr (inl refl))
  outcome_of-Answers id at (some e) =
      (refl, (λ q. absurd (failed-apart q), λ t. cc), inr (inr refl))

  run_one-Answers :
      (namespace : String) (a : RemediationAction) (s : State)
      → Answers a.id a.skip
          ((if a.skip then return (skipped C a) else execute_action C namespace a) s).0
  unfolding execute_action
  run_one-Answers namespace a s = elim (Bool-cases a.skip) [
    | inl e ↦ rw (e) (refl, (λ _. refl, λ _. refl), inl refl)
    | inr e ↦ rw (e) (outcome_of-Answers a.id _ _)
  ]

  -- Running a list of actions gives one result per action, in order: it carries the action's id,
  -- says "skipped" exactly for an action that the user skips, and otherwise "success" or "failed".
  pub execute_all-Each :
      (namespace : String) (actions : List RemediationAction) (s : State)
      → Each actions (execute_all C namespace actions s).0
  unfolding execute_all Each
  execute_all-Each namespace [] s = tt
  execute_all-Each namespace (a ∷ rest) s =
      (run_one-Answers namespace a s, execute_all-Each namespace rest _)
