-- ===== src/Prelude/Sort.antt =====
-- Go's `sort.Strings` and `sort.SliceStable`, as a stable insertion sort.
use Prim.Native.Char.{code}
use Prim.Native.String.compare
use Prim.Native.String.{String, compare, then}
use Prim.Native.Nat.{ℕ, suc, Ordering, compare as compare_ℕ}
use text.Mathlib.TextPositions.{compare_refl}
use mathlib.Core.Bool.{Bool, true, false}
use mathlib.Core.Path.{◌≡◌, refl, sym, ap, ◌∙◌}
use mathlib.Core.Logic.{◌↔◌, ◌⊎◌, inl, inr}
use mathlib.Core.List.{List, [], ◌∷◌}
use native.Mathlib.Omega.{arith}
use mirops.Prelude.Lists.{length, In, Distinct}

-- Go's `<` on strings: by bytes, which for UTF-8 is the order of the code points.
abbrev pub str_lt : String → String → Bool
str_lt s t = elim (compare s t) [ Ordering.lt ↦ true | _ ↦ false ]

abbrev swap : Ordering → Ordering
swap Ordering.lt = Ordering.gt
swap Ordering.eq = Ordering.eq
swap Ordering.gt = Ordering.lt

compare-swap_ℕ : (m n : ℕ) → compare_ℕ n m ≡ swap (compare_ℕ m n)
compare-swap_ℕ m n = ground arith

then-swap :
    (o p : Ordering) (o' p' : Ordering) → o' ≡ swap o → p' ≡ swap p → then o' p' ≡ swap (then o p)
then-swap Ordering.lt p o' p' e f = rw e
then-swap Ordering.eq p o' p' e f = rw e f
then-swap Ordering.gt p o' p' e f = rw e

compare-swap : (s t : String) → compare t s ≡ swap (compare s t)
compare-swap String.[] String.[] = rw (compare_refl String.[])
compare-swap String.[] (String.◌∷◌ d t) =
    compare.cons-nil d t ∙ sym (ap swap (compare.nil-cons d t))
compare-swap (String.◌∷◌ c s) String.[] =
    compare.nil-cons c s ∙ sym (ap swap (compare.cons-nil c s))
compare-swap (String.◌∷◌ c s) (String.◌∷◌ d t) =
    compare.cons-cons d c t s
    ∙ then-swap _ _ _ _ (compare-swap_ℕ (code c) (code d)) (compare-swap s t)
    ∙ sym (ap swap (compare.cons-cons c d s t))

pub str_lt_asym : (s t : String) → str_lt s t ≡ true → str_lt t s ≡ false
str_lt_asym s t h = rw (compare-swap s t, str_lt) (go (compare s t) h)
  where
    go :
        (o : Ordering)
        → (elim o as (λ _. Bool) [ Ordering.lt ↦ true | _ ↦ false ]) ≡ true
        → (elim (swap o) as (λ _. Bool) [ Ordering.lt ↦ true | _ ↦ false ]) ≡ false
    go Ordering.lt e = refl
    go Ordering.eq e = refl
    go Ordering.gt e = sym e

module _ {A : Type 0} (less : A → A → Bool) where
  -- `x` goes in front of the first element that is not less than it, so equal elements keep their
  -- order when the list is sorted from its end.
  unfoldable pub insert_by : A → List A → List A
  insert_by x [] = x ∷ []
  insert_by x (y ∷ ys) = elim (less y x) [ true ↦ y ∷ insert_by x ys | false ↦ x ∷ y ∷ ys ]

  unfoldable pub sort_by : List A → List A
  unfolding insert_by
  sort_by [] = []
  sort_by (x ∷ xs) = insert_by x (sort_by xs)

  In-insert_by : (a x : A) (xs : List A) → In a (insert_by x xs) ↔ ((a ≡ x) ⊎ In a xs)
  unfolding insert_by
  In-insert_by a x [] = (λ h. h, λ h. h)
  In-insert_by a x (y ∷ ys) = ground (arith, In-insert_by a x ys)

  -- A sort keeps the elements.
  pub In-sort_by : (a : A) (xs : List A) → In a (sort_by xs) ↔ In a xs
  unfolding sort_by
  In-sort_by a [] = (λ h. h, λ h. h)
  In-sort_by a (x ∷ xs) = ground (arith, In-sort_by a xs, In-insert_by a x (sort_by xs))

  length-insert_by : (x : A) (xs : List A) → length (insert_by x xs) ≡ suc (length xs)
  unfolding insert_by
  length-insert_by x [] = refl
  length-insert_by x (y ∷ ys) = ground (arith, length-insert_by x ys)

  pub length-sort_by : (xs : List A) → length (sort_by xs) ≡ length xs
  unfolding sort_by
  length-sort_by [] = refl
  length-sort_by (x ∷ xs) = length-insert_by x (sort_by xs) ∙ ap suc (length-sort_by xs)

  Distinct-insert_by : (x : A) (xs : List A) → ¬ In x xs → Distinct xs → Distinct (insert_by x xs)
  unfolding insert_by
  Distinct-insert_by x [] h d = (h, tt)
  Distinct-insert_by x (y ∷ ys) h d = go (less y x) (Distinct-insert_by x ys (λ i. h (inr i)) d.1)
    where
      go :
          (b : Bool)
          → Distinct (insert_by x ys)
          → Distinct (elim b [ true ↦ y ∷ insert_by x ys | false ↦ x ∷ y ∷ ys ])
      go true rest =
          (λ i. elim ((In-insert_by y x ys).0 i) [ inl e ↦ h (inl (sym e)) | inr j ↦ d.0 j ], rest)
      go false rest = (h, d)

  pub Distinct-sort_by : (xs : List A) → Distinct xs → Distinct (sort_by xs)
  unfolding sort_by
  Distinct-sort_by [] d = tt
  Distinct-sort_by (x ∷ xs) d =
      Distinct-insert_by x (sort_by xs) (λ i. d.0 ((In-sort_by x xs).0 i)) (Distinct-sort_by xs d.1)

  -- No element is less than the one in front of it.
  abbrev pub InOrder : List A → Type 0
  InOrder [] = Unit
  InOrder (x ∷ []) = Unit
  InOrder (x ∷ y ∷ ys) = (less y x ≡ false) × InOrder (y ∷ ys)

  module _ (asym : (a b : A) → less a b ≡ true → less b a ≡ false) where
    InOrder-insert_by : (x : A) (xs : List A) → InOrder xs → InOrder (insert_by x xs)
    unfolding insert_by
    InOrder-insert_by x [] h = tt
    InOrder-insert_by x (y ∷ []) h = go (less y x) refl
      where
        go : (b : Bool) → less y x ≡ b → InOrder (elim b [ true ↦ y ∷ x ∷ [] | false ↦ x ∷ y ∷ [] ])
        go true e = (asym y x e, tt)
        go false e = (e, tt)
    InOrder-insert_by x (y ∷ z ∷ zs) h =
        go (less y x) (less z x) refl refl (InOrder-insert_by x (z ∷ zs) h.1)
      where
        go :
            (b c : Bool)
            → less y x ≡ b
            → less z x ≡ c
            → InOrder (elim c [ true ↦ z ∷ insert_by x zs | false ↦ x ∷ z ∷ zs ])
            → InOrder (elim b [
              | true ↦
                  y ∷ (elim c as (λ _. List A) [ true ↦ z ∷ insert_by x zs | false ↦ x ∷ z ∷ zs ])
              | false ↦ x ∷ y ∷ z ∷ zs
            ])
        go true true e f rest = (h.0, rest)
        go true false e f rest = (asym y x e, rest)
        go false c e f rest = (e, h)

    pub InOrder-sort_by : (xs : List A) → InOrder (sort_by xs)
    unfolding sort_by
    InOrder-sort_by [] = tt
    InOrder-sort_by (x ∷ xs) = InOrder-insert_by x (sort_by xs) (InOrder-sort_by xs)
