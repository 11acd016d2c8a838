-- ===== src/Prelude/Loops.antt =====
-- Loops that collect what passes a test: what holds of each element that they keep.
use mathlib.Core.Path.{◌≡◌}
use mathlib.Core.Bool.{Bool, true, false}
use mathlib.Core.List.{List, [], ◌∷◌, map}
use mirops.Prelude.Lists.{select, All}

pub All-select {ℓ κ} :
    {A : Type ℓ} (P : A → Type κ) (p : A → Bool) (xs : List A) → All P xs → All P (select p xs)
All-select P p [] h = tt
All-select {A} P p (x ∷ xs) h = go (p x) (All-select P p xs h.1)
  where
    go :
        (b : Bool)
        → All P (select p xs)
        → All P (elim b [ true ↦ x ∷ select p xs | false ↦ select p xs ])
    go true rest = (h.0, rest)
    go false rest = rest

pub All-select_test {ℓ κ} :
    {A : Type ℓ} (P : A → Type κ) (p : A → Bool)
    → ((x : A) → p x ≡ true → P x)
    → (xs : List A) → All P (select p xs)
All-select_test P p holds [] = tt
All-select_test {A} P p holds (x ∷ xs) = go (p x) (holds x) (All-select_test P p holds xs)
  where
    go :
        (b : Bool)
        → (b ≡ true → P x)
        → All P (select p xs)
        → All P (elim b [ true ↦ x ∷ select p xs | false ↦ select p xs ])
    go true h rest = (h (λ i. true), rest)
    go false h rest = rest

pub All-map {ℓ κ μ} :
    {A : Type ℓ} {B : Type κ} (P : A → Type μ) (Q : B → Type μ) (f : A → B)
    → ((x : A) → P x → Q (f x))
    → (xs : List A) → All P xs
    → All Q (map f xs)
All-map P Q f keep [] h = tt
All-map P Q f keep (x ∷ xs) h = (keep x h.0, All-map P Q f keep xs h.1)
