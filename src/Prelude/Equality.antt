-- ===== src/Prelude/Equality.antt =====
-- Go's `==` on strings. A proof keeps `string_dec` shut: a split on `s == t` then hands over the
-- equation or its negation.
use Prim.Native.String.{String}
use mathlib.Core.Path.{◌≡◌}
use mathlib.Core.Logic.{ite, dite}
use mathlib.Core.Bool.{Bool, true, false, Bool-discrete}
use native.Mathlib.Omega.{arith}
use text.Mathlib.Text
use text.Mathlib.TextEquality.{eq_iff}

unfoldable pub string_dec : Discrete String
string_dec s t =
    dite (Bool-discrete (Text.◌==◌ s t) true) (λ same. yes ((eq_iff s t).0 same))
      (λ differ. no (λ p. differ ((eq_iff s t).1 p)))

infix 50 ◌==◌
abbrev pub ◌==◌ : String → String → Bool
s == t = ite (string_dec s t) true false

pub eq_of_== : (s t : String) → (s == t) ≡ true → s ≡ t
eq_of_== s t h = ground arith

pub ==_refl : (s : String) → (s == s) ≡ true
==_refl s = ground arith

pub apart : (s t : String) → (s == t) ≡ false → ¬ (s ≡ t)
apart s t h e = ground arith
