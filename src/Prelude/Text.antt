-- ===== src/Prelude/Text.antt =====
-- What the program uses of Go's `fmt` and `strings`.
pub mod Digits
use Prim.Native.Nat.{ℕ, zero, suc, ◌/◌, ◌%◌}
use Prim.Native.Char.{code}
use mathlib.Core.Option.{Option, none, some}
use mirops.Prelude.Equality.{◌==◌}
use Prim.Native.String.{String, ◌++◌ as ◌<>◌}
use mathlib.Core.Path.{◌≡◌, refl}
use mathlib.Core.List.{List, [], ◌∷◌}
use mirops.Prelude.Tests.{ltb, eqb, if◌then◌else◌}
use mirops.Prelude.Int.{ℤ, pos, negsuc}

digit : ℕ → String
digit d =
    if eqb d 0
    then "0"
    else if eqb d 1
    then "1"
    else if eqb d 2
    then "2"
    else if eqb d 3
    then "3"
    else if eqb d 4
    then "4"
    else if eqb d 5
    then "5"
    else if eqb d 6
    then "6"
    else if eqb d 7
    then "7"
    else if eqb d 8
    then "8"
    else "9"

decimal_fuel : ℕ → ℕ → String
unfolding digit
decimal_fuel zero n = digit n
decimal_fuel (suc f) n =
    let more = decimal_fuel f (n / 10) <> digit (n % 10) in if ltb n 10 then digit n else more

-- `%d` of a natural number. A number has at most as many digits as its value, or one.
unfoldable pub decimal : ℕ → String
unfolding decimal_fuel
decimal n = decimal_fuel n n

-- `%d` of an integer.
unfoldable pub decimal_ℤ : ℤ → String
unfolding decimal
decimal_ℤ (pos n) = decimal n
decimal_ℤ (negsuc n) = "-" <> decimal (suc n)

-- `strings.Join`.
unfoldable pub join : List String → String → String
join [] sep = ""
join (s ∷ []) sep = s
join (s ∷ t ∷ rest) sep = s <> sep <> join (t ∷ rest) sep

decimal_runs : decimal_ℤ (negsuc 1209) ≡ "-1210"
unfolding decimal_ℤ
decimal_runs = refl

-- The text without its first characters, if they are these.
unfoldable pub strip_prefix : String → String → Option String
strip_prefix String.[] s = some s
strip_prefix (String.◌∷◌ c p) String.[] = none
strip_prefix (String.◌∷◌ c p) (String.◌∷◌ d s) =
    let rest = strip_prefix p s in if eqb (code c) (code d) then rest else none

-- `strings.TrimPrefix`
unfoldable pub trim_prefix : String → String → String
unfolding strip_prefix
trim_prefix p s = elim (strip_prefix p s) [ none ↦ s | some rest ↦ rest ]

-- `strings.TrimSuffix`: what stands in front of the last place where only the suffix is left.
unfoldable pub trim_suffix : String → String → String
trim_suffix p String.[] = String.[]
trim_suffix p (String.◌∷◌ c s) =
    let rest = trim_suffix p s in if String.◌∷◌ c s == p then String.[] else String.◌∷◌ c rest
