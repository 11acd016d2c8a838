-- ===== src/Controller.antt =====
-- internal/controller: the reconcilers, over a Kubernetes client. The client is a parameter, since
-- it belongs to controller-runtime: a state (the API server and what lies behind it) and one call
-- for each request that the reconcilers make.
pub mod Remediation
pub mod Ai
pub mod Mirror
pub mod Paths
pub mod Reports
pub mod Upgrade
use mirops.Prelude.{ℕ, String, Bool, Option, none, some, List}
pub use mirops.Prelude.{Result, ok, err}

-- A request may change the state of the API server, and a reconciler is a chain of requests.
abbrev pub return {ℓ κ} : {S : Type ℓ} {A : Type κ} → A → S → A × S
return a s = (a, s)

infixl 5 ◌>>=◌
abbrev pub ◌>>=◌ {ℓ κ μ} :
    {S : Type ℓ} {A : Type κ} {B : Type μ} → (S → A × S) → (A → S → B × S) → S → B × S
(m >>= f) s = let (a, t) = m s in f a t

-- `ctrl.Result` with the error: how long to wait for the next round, in nanoseconds, if the code
-- asks for one.
pub record Outcome : Type 0 where
  pub requeue_after : Option ℕ
  pub error : Option String

abbrev pub done : Outcome
done = record { requeue_after = none; error = none }

abbrev pub failed : String → Outcome
failed e = record { requeue_after = none; error = some e }
