-- ===== src/Graph/Risk/Decay.antt =====
-- What the floating-point product `float64(risk) * riskDecay` comes to on the scores in use.
use mirops.Prelude.{ℕ, ◌*◌, ◌/◌, ◌≤◌, ◌≡◌, refl, true, eqb, up_to, up_to_lem, arith}
use mirops.Graph.Risk.{decay}

decay_table : up_to (λ x. eqb (decay x) (6 * x / 10)) 100 ≡ true
unfolding up_to decay
decay_table = refl

-- For a score up to 100 the float64 product, truncated, is exactly six tenths rounded down.
pub decay_lem : (x : ℕ) → x ≤ 100 → decay x ≡ 6 * x / 10
decay_lem x h =
    let e = up_to_lem (λ x. eqb (decay x) (6 * x / 10)) 100 x h decay_table in ground arith

pub decay-le : (x : ℕ) → x ≤ 100 → decay x ≤ x
decay-le x h = omega (arith, decay_lem x h)
