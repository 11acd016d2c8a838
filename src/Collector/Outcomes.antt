-- ===== src/Collector/Outcomes.antt =====
-- What a chain of the collector's requests ensures, if it succeeds.
use mathlib.Core.Path.{subst}
use mirops.Prelude.{◌≡◌, Result, ok, err}
use mirops.Collector.Objects.{Api}
use mirops.Collector.Collect.{M, follow, ◌>>=◌}

module _ (A : Api) where
  open A use {State}

  abbrev pub Ensures : {B : Type 0} → (B → Type 0) → Result B × State → Type 0
  Ensures P r = elim r.0 [ ok b ↦ P b | err e ↦ Unit ]

  Ensures-follow :
      {B C : Type 0} (P : B → Type 0) (Q : C → Type 0) (f : B → M A C) (r : Result B) (t : State)
      → Ensures P (r, t)
      → ((b : B) → P b → (u : State) → Ensures Q (f b u))
      → Ensures Q (follow A r f t)
  Ensures-follow P Q f (ok b) t h k = k b h t
  Ensures-follow P Q f (err e) t h k = tt

  -- What the first request ensures is there for those that follow.
  pub Ensures-bind :
      {B C : Type 0} (P : B → Type 0) (Q : C → Type 0) (m : M A B) (f : B → M A C) (s : State)
      → Ensures P (m s)
      → ((b : B) → P b → (u : State) → Ensures Q (f b u))
      → Ensures Q (◌>>=◌ A m f s)
  Ensures-bind P Q m f s h k = Ensures-follow P Q f (m s).0 (m s).1 h k

  -- Of a request to the server nothing is known.
  pub Ensures-any :
      {B C : Type 0} (Q : C → Type 0) (m : M A B) (f : B → M A C) (s : State)
      → ((b : B) (u : State) → Ensures Q (f b u))
      → Ensures Q (◌>>=◌ A m f s)
  Ensures-any {B} Q m f s k = go (m s).0 (m s).1
    where
      go : (r : Result B) (t : State) → Ensures Q (follow A r f t)
      go (ok b) t = k b t
      go (err e) t = tt

  pub Ensures-ok :
      {B : Type 0} (P : B → Type 0) (r : Result B × State) (b : B) → Ensures P r → r.0 ≡ ok b → P b
  Ensures-ok P (r, t) b h e = subst (λ q. Ensures P (q, t)) e h
