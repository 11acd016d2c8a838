-- ===== src/Analysis/Calculate/Blend.antt =====
-- The two shares of a blended score.
use mirops.Prelude.{
  ℕ, ◌+◌, ◌*◌, ◌/◌, ◌≤◌, ◌≡◌, refl, true, eqb, if◌then◌else◌, up_to, up_to_lem, arith,
}
use mirops.Analysis.Calculate.{base_contribution, ai_contribution}

base_table : up_to (λ x. eqb (base_contribution x) (if eqb x 90 then 62 else 7 * x / 10)) 100 ≡ true
unfolding up_to base_contribution
base_table = refl

ai_table : up_to (λ x. eqb (ai_contribution x) (3 * x / 10)) 100 ≡ true
unfolding up_to ai_contribution
ai_table = refl

-- Up to a score of 100 the base contributes seven tenths of its score rounded down, except that a
-- score of 90 contributes 62, where seven tenths are 63.
pub base_contribution_lem :
    (x : ℕ) → x ≤ 100 → base_contribution x ≡ (if eqb x 90 then 62 else 7 * x / 10)
base_contribution_lem x h =
    let e =
      up_to_lem (λ x. eqb (base_contribution x) (if eqb x 90 then 62 else 7 * x / 10)) 100 x h
        base_table in
    ground arith

-- Up to a score of 100 the model contributes three tenths of its score, rounded down.
pub ai_contribution_lem : (x : ℕ) → x ≤ 100 → ai_contribution x ≡ 3 * x / 10
ai_contribution_lem x h =
    let e = up_to_lem (λ x. eqb (ai_contribution x) (3 * x / 10)) 100 x h ai_table in ground arith

pub base_contribution-bounds :
    (x : ℕ) → x ≤ 100 → (10 * base_contribution x ≤ 7 * x) × (7 * x ≤ 10 * base_contribution x + 10)
base_contribution-bounds x h = let e = base_contribution_lem x h in ground arith

pub ai_contribution-bounds :
    (x : ℕ) → x ≤ 100 → (10 * ai_contribution x ≤ 3 * x) × (3 * x ≤ 10 * ai_contribution x + 9)
ai_contribution-bounds x h = let e = ai_contribution_lem x h in ground arith
