-- ===== src/Compat/First.antt =====
-- The loops of `evaluateOne` and `requiredAddonVersion` that stop at the first rule of a kind.
use mirops.Prelude.{◌≡◌, Bool, true, false, none, some, List, [], ◌∷◌, arith, In}
use mirops.Compat.{CompatRule, Semver, first}

module _ (V : Semver) where
  open V use {Version}

  pub first-some :
      (p : CompatRule → Bool) (rs : List CompatRule) (r : CompatRule)
      → first V p rs ≡ some r
      → In r rs × (p r ≡ true)
  first-some p [] r e = cc
  first-some p (s ∷ rs) r e = ground (arith, first-some p rs r)

  pub first-none :
      (p : CompatRule → Bool) (rs : List CompatRule) (r : CompatRule)
      → first V p rs ≡ none
      → In r rs
      → p r ≡ false
  first-none p [] r e i = elim i [ ]
  first-none p (s ∷ rs) r e i = ground (arith, first-none p rs r)
