-- ===== src/Prelude/Maps.antt =====
-- Go's maps with string keys, as functions: a key that is not there gives `none`, and a read of a
-- missing key gives the zero value of the type.
use Prim.Native.String.{String}
use mathlib.Core.Bool.{Bool, true, false}
use mathlib.Core.Path.{◌≡◌, refl}
use mathlib.Core.Path.{sym, ap, ◌∙◌}
use mathlib.Core.Logic.{◌⊎◌, inl, inr}
use mathlib.Core.List.{List, [], ◌∷◌, ◌++◌, foldl, append-nil, append_assoc}
use mathlib.Core.Option.{Option, none, some}
use mirops.Prelude.Tests.{if◌then◌else◌, Bool-cases}
use mirops.Prelude.Equality.{◌==◌, eq_of_==}

abbrev pub Map {ℓ} : Type ℓ → Type ℓ
Map V = String → Option V

abbrev pub empty {ℓ} : {V : Type ℓ} → String → Option V
empty k = none

-- `m[k] = v`
abbrev pub insert {ℓ} : {V : Type ℓ} → String → V → Map V → String → Option V
insert k v m j = if j == k then some v else m j

-- `m[k]`, with the zero value `d`
abbrev pub get_or {ℓ} : {V : Type ℓ} → Map V → String → V → V
get_or m k d = elim (m k) [ none ↦ d | some v ↦ v ]

get_or-if {ℓ} :
    {V : Type ℓ} (b : Bool) (v : V) (o : Option V) (d : V)
    → (elim (if b then some v else o) as (λ _. V) [ none ↦ d | some w ↦ w ])
      ≡ (if b then v else (elim o as (λ _. V) [ none ↦ d | some w ↦ w ]))
get_or-if true v o d = refl
get_or-if false v o d = refl

pub get_or-insert {ℓ} :
    {V : Type ℓ} (k : String) (v : V) (m : Map V) (j : String) (d : V)
    → get_or (insert k v m) j d ≡ (if j == k then v else get_or m j d)
get_or-insert k v m j d = get_or-if (j == k) v (m j) d

-- `m[k] = append(m[k], v)`
abbrev pub append_at : {V : Type 0} → String → V → Map (List V) → Map (List V)
append_at k v m = insert k (get_or m k [] ++ v ∷ []) m

module _ {A V : Type 0} (key : A → String) (value : A → V) where
  -- The values of the elements with a key, in the order of the elements.
  abbrev pub values_of : String → List A → List V
  values_of k [] = []
  values_of k (x ∷ xs) = if k == key x then value x ∷ values_of k xs else values_of k xs

  -- A loop that appends each element's value at its key.
  abbrev pub group_from : Map (List V) → List A → Map (List V)
  group_from = foldl (λ m x. append_at (key x) (value x) m)

  pub group_from_lem :
      (m : Map (List V)) (k : String) (xs : List A)
      → get_or (group_from m xs) k [] ≡ get_or m k [] ++ values_of k xs
  group_from_lem m k [] = sym (append-nil (get_or m k []))
  group_from_lem m k (x ∷ xs) =
      group_from_lem (append_at (key x) (value x) m) k xs
      ∙ ap (λ l. l ++ values_of k xs)
          (get_or-insert (key x) (get_or m (key x) [] ++ value x ∷ []) m k [])
      ∙ go (Bool-cases (k == key x))
    where
      go :
          ((k == key x) ≡ true) ⊎ ((k == key x) ≡ false)
          → (if k == key x then get_or m (key x) [] ++ value x ∷ [] else get_or m k [])
              ++ values_of k xs
            ≡ get_or m k [] ++ values_of k (x ∷ xs)
      go (inl s) = rw s (
          append_assoc (get_or m (key x) []) (value x ∷ []) (values_of k xs)
          ∙ ap (λ j. get_or m j [] ++ value x ∷ values_of k xs) (sym (eq_of_== k (key x) s)))
      go (inr s) = rw s
