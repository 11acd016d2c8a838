-- ===== src/Prelude/Lists.antt =====
-- Lists measured by native numbers, predicates on lists by recursion, and membership.
use Prim.Native.Nat.{ℕ, suc, ◌+◌, ◌≤◌, ◌<◌}
use mathlib.Core.Path.{◌∙◌, ◌≡◌, refl, sym, ap}
use mathlib.Core.Logic.{◌⊎◌, inl, inr, ◌↔◌}
use mathlib.Core.Bool.{Bool, true, false}
use mathlib.Core.Option.{Option, none, some}
use mathlib.Core.List.{List, [], ◌∷◌, ◌++◌, map, foldl}
use native.Mathlib.Omega.{arith}

module _ {ℓ} {A : Type ℓ} where
  abbrev pub length : List A → ℕ
  length [] = 0
  length (x ∷ xs) = suc (length xs)

  -- `l[0]` behind a test of the length.
  abbrev pub head? : List A → Option A
  head? [] = none
  head? (x ∷ xs) = some x

  pub length-append : (xs ys : List A) → length (xs ++ ys) ≡ length xs + length ys
  length-append [] ys = omega arith
  length-append (x ∷ xs) ys = omega (arith, length-append xs ys)

  -- The elements that pass a test, as a loop with `continue` collects them.
  abbrev pub select : (A → Bool) → List A → List A
  select p [] = []
  select p (x ∷ xs) = elim (p x) [ true ↦ x ∷ select p xs | false ↦ select p xs ]

  abbrev pub count_if : (A → Bool) → List A → ℕ
  count_if p [] = 0
  count_if p (x ∷ xs) = elim (p x) [ true ↦ suc (count_if p xs) | false ↦ count_if p xs ]

  pub count_if-le-length : (p : A → Bool) (xs : List A) → count_if p xs ≤ length xs
  count_if-le-length p [] = omega arith
  count_if-le-length p (x ∷ xs) = ground (arith, count_if-le-length p xs)

  pub length-select : (p : A → Bool) (xs : List A) → length (select p xs) ≡ count_if p xs
  length-select p [] = refl
  length-select p (x ∷ xs) = ground (arith, length-select p xs)

  pub List-cases : (xs : List A) → (xs ≡ []) ⊎ ((x : A) × (rest : List A) × (xs ≡ x ∷ rest))
  List-cases [] = inl refl
  List-cases (x ∷ xs) = inr (x, xs, refl)

module _ {A : Type 0} where
  -- `x` stands in the list. By recursion, so that the tactics take it apart.
  abbrev pub In : A → List A → Type 0
  In a [] = ⊥
  In a (x ∷ xs) = (a ≡ x) ⊎ In a xs

  pub In-append_left : (a : A) (xs ys : List A) → In a xs → In a (xs ++ ys)
  In-append_left a [] ys h = elim h [ ]
  In-append_left a (x ∷ xs) ys (inl e) = inl e
  In-append_left a (x ∷ xs) ys (inr h) = inr (In-append_left a xs ys h)

  pub In-append_right : (a : A) (xs ys : List A) → In a ys → In a (xs ++ ys)
  In-append_right a [] ys h = h
  In-append_right a (x ∷ xs) ys h = inr (In-append_right a xs ys h)

  pub In-append_cases : (a : A) (xs ys : List A) → In a (xs ++ ys) → In a xs ⊎ In a ys
  In-append_cases a [] ys h = inr h
  In-append_cases a (x ∷ xs) ys (inl e) = inl (inl e)
  In-append_cases a (x ∷ xs) ys (inr h) = elim (In-append_cases a xs ys h) [
    | inl l ↦ inl (inr l)
    | inr r ↦ inr r
  ]

  pub In-append : (a : A) (xs ys : List A) → In a (xs ++ ys) ↔ (In a xs ⊎ In a ys)
  In-append a xs ys = (
    In-append_cases a xs ys,
    λ h. elim h [ inl l ↦ In-append_left a xs ys l | inr r ↦ In-append_right a xs ys r ],
  )

module _ {A : Type 0} where
  -- A list without repetitions.
  abbrev pub Distinct : List A → Type 0
  Distinct [] = Unit
  Distinct (x ∷ xs) = (¬ In x xs) × Distinct xs

  pub Distinct-concat : (xs : List A) (x : A) → Distinct xs → ¬ In x xs → Distinct (xs ++ x ∷ [])
  Distinct-concat [] x d h = (λ i. i, tt)
  Distinct-concat (y ∷ ys) x d h = (
    λ i. elim ((In-append y ys (x ∷ [])).0 i) [
      | inl old ↦ d.0 old
      | inr last ↦ elim last [ inl e ↦ h (inl (sym e)) | inr none_left ↦ none_left ]
    ],
    Distinct-concat ys x d.1 (λ i. h (inr i)),
  )

module _ {ℓ κ} {A : Type ℓ} where
  abbrev pub All : (A → Type κ) → List A → Type κ
  All P [] = Unit
  All P (x ∷ xs) = P x × All P xs

  pub All-append :
      (Q : A → Type κ) (front back : List A) → All Q front → All Q back → All Q (front ++ back)
  All-append Q [] back _ k = k
  All-append Q (first ∷ front) back (here, rest) k = (here, All-append Q front back rest k)

  pub All-mono : (P Q : A → Type κ) → ((x : A) → P x → Q x) → (xs : List A) → All P xs → All Q xs
  All-mono P Q weaken [] _ = tt
  All-mono P Q weaken (first ∷ rest) (here, there) =
      (weaken first here, All-mono P Q weaken rest there)

pub All-In : {A : Type 0} (xs : List A) → All (λ x. In x xs) xs
All-In [] = tt
All-In (x ∷ xs) = (inl refl, All-mono _ _ (λ y h. inr h) xs (All-In xs))

pub All-In-map :
    {A : Type 0} {B : Type 0} (f : A → B) (xs : List A) → All (λ x. In (f x) (map f xs)) xs
All-In-map f [] = tt
All-In-map f (x ∷ xs) = (inl refl, All-mono _ _ (λ y h. inr h) xs (All-In-map f xs))

pub In-All : {A : Type 0} (P : A → Type 0) (x : A) (xs : List A) → All P xs → In x xs → P x
In-All P x [] h i = elim i [ ]
In-All P x (y ∷ ys) h (inl e) = rw e h.0
In-All P x (y ∷ ys) h (inr i) = In-All P x ys h.1 i

pub length-map {ℓ κ} :
    {A : Type ℓ} {B : Type κ} (f : A → B) (xs : List A) → length (map f xs) ≡ length xs
length-map f [] = refl
length-map f (x ∷ xs) = ap suc (length-map f xs)

-- What one round of a loop keeps, the loop keeps.
pub foldl_keeps {ℓ κ} :
    {A : Type ℓ} {B : Type κ} (P : B → Type 0) (f : B → A → B)
    → ((b : B) (x : A) → P b → P (f b x))
    → (xs : List A) (b : B) → P b
    → P (foldl f b xs)
foldl_keeps P f keep [] b h = h
foldl_keeps P f keep (x ∷ xs) b h = foldl_keeps P f keep xs (f b x) (keep b x h)

pub In-select :
    {A : Type 0} (p : A → Bool) (x : A) (xs : List A) → In x (select p xs) → In x xs × (p x ≡ true)
In-select p x [] i = elim i [ ]
In-select {A} p x (y ∷ ys) i = go (p y) refl (In-select p x ys) i
  where
    go :
        (b : Bool)
        → p y ≡ b
        → (In x (select p ys) → In x ys × (p x ≡ true))
        → In x (elim b [ true ↦ y ∷ select p ys | false ↦ select p ys ])
        → In x (y ∷ ys) × (p x ≡ true)
    go true e rec (inl q) = (inl q, ap p q ∙ e)
    go true e rec (inr q) = let (a, b) = rec q in (inr a, b)
    go false e rec q = let (a, b) = rec q in (inr a, b)

pub select-In :
    {A : Type 0} (p : A → Bool) (x : A) (xs : List A) → p x ≡ true → In x xs → In x (select p xs)
select-In p x [] t i = elim i [ ]
select-In {A} p x (y ∷ ys) t i = go (p y) refl (select-In p x ys t) i
  where
    go :
        (b : Bool)
        → p y ≡ b
        → (In x ys → In x (select p ys))
        → In x (y ∷ ys)
        → In x (elim b [ true ↦ y ∷ select p ys | false ↦ select p ys ])
    go true e rec (inl q) = inl q
    go true e rec (inr q) = inr (rec q)
    go false e rec (inl q) = cc
    go false e rec (inr q) = rec q

-- A positive count has a witness.
pub count_if-In :
    {A : Type 0} (p : A → Bool) (xs : List A)
    → (0 < count_if p xs) ↔ ((x : A) × (In x xs × (p x ≡ true)))
count_if-In p [] = (λ h. absurd (omega arith), λ (x, (i, e)). elim i [ ])
count_if-In {A} p (y ∷ ys) = go (p y) refl (count_if-In p ys)
  where
    go :
        (b : Bool)
        → p y ≡ b
        → ((0 < count_if p ys) ↔ ((x : A) × (In x ys × (p x ≡ true))))
        → (0 < elim b [ true ↦ suc (count_if p ys) | false ↦ count_if p ys ])
          ↔ ((x : A) × (In x (y ∷ ys) × (p x ≡ true)))
    go true e rec = (λ _. (y, (inl refl, e)), λ _. omega arith)
    go false e (there, back) = (
      λ h. let (x, (i, t)) = there h in (x, (inr i, t)),
      λ (x, (i, t)). elim i [ inl q ↦ cc (t, q, e) | inr j ↦ back (x, (j, t)) ],
    )
