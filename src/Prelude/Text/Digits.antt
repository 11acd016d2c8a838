-- ===== src/Prelude/Text/Digits.antt =====
-- The digits of a number.
use Prim.Native.Nat.{ℕ, zero, suc, ◌+◌, ◌*◌, ◌/◌, ◌%◌, ◌<◌, ◌≤◌}
use Prim.Native.Char.{Char, code}
use Prim.Native.String.{String, ◌++◌ as ◌<>◌}
use mathlib.Core.Path.{◌≡◌, refl, subst}
use mathlib.Core.Logic.{inl, inr}
use native.Mathlib.Omega.{arith}
use mirops.Prelude.Tests.{ltb, Bool-cases}
use mirops.Prelude.Text.{digit, decimal_fuel, decimal}

-- The text is this digit.
abbrev pub IsDigit : ℕ → String → Type 0
IsDigit d s = (c : Char) × (s ≡ String.◌∷◌ c String.[]) × (code c ≡ 48 + d)

digit-IsDigit : (d : ℕ) → d < 10 → IsDigit d (digit d)
unfolding digit
digit-IsDigit zero h = (_, refl, refl)
digit-IsDigit (suc zero) h = (_, refl, refl)
digit-IsDigit (suc (suc zero)) h = (_, refl, refl)
digit-IsDigit (suc (suc (suc zero))) h = (_, refl, refl)
digit-IsDigit (suc (suc (suc (suc zero)))) h = (_, refl, refl)
digit-IsDigit (suc (suc (suc (suc (suc zero))))) h = (_, refl, refl)
digit-IsDigit (suc (suc (suc (suc (suc (suc zero)))))) h = (_, refl, refl)
digit-IsDigit (suc (suc (suc (suc (suc (suc (suc zero))))))) h = (_, refl, refl)
digit-IsDigit (suc (suc (suc (suc (suc (suc (suc (suc zero)))))))) h = (_, refl, refl)
digit-IsDigit (suc (suc (suc (suc (suc (suc (suc (suc (suc zero))))))))) h = (_, refl, refl)
digit-IsDigit (suc (suc (suc (suc (suc (suc (suc (suc (suc (suc n)))))))))) h = absurd (omega arith)

-- A predicate that holds of the digits, and of a text with one more digit when it holds of the text,
-- holds of every printed number.
module _ {ℓ} (P : ℕ → String → Type ℓ)
    (single : (d : ℕ) (s : String) → d < 10 → IsDigit d s → P d s)
    (longer : (n d : ℕ) (s t : String)
      → P n s
      → d < 10
      → IsDigit d t
      → P (10 * n + d) (s <> t)) where
  fuel-P : (f n : ℕ) → n ≤ f → P n (decimal_fuel f n)
  unfolding decimal_fuel
  fuel-P zero n h = single n _ (omega arith) (digit-IsDigit n (omega arith))
  fuel-P (suc f) n h = elim (Bool-cases (ltb n 10)) [
    | inl e ↦ rw (e) (let small : n < 10 = ground arith in single n _ small (digit-IsDigit n small))
    | inr e ↦
        let last : n % 10 < 10 = omega arith in
        let large : n / 10 ≤ f = ground arith in
        let whole : 10 * (n / 10) + n % 10 ≡ n = omega arith in
        rw (e) (
          subst (λ m. P m (decimal_fuel f (n / 10) <> digit (n % 10))) whole
            (longer (n / 10) (n % 10) _ _ (fuel-P f (n / 10) large) last
              (digit-IsDigit (n % 10) last)))
  ]

  pub decimal-P : (n : ℕ) → P n (decimal n)
  unfolding decimal
  decimal-P n = fuel-P n n (omega arith)
