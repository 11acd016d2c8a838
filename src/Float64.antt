-- ===== src/Float64.antt =====
-- Go's float64 arithmetic, as IEEE 754 prescribes it for finite values: every float64 is a whole
-- multiple of 2^-1074, and each operation rounds the exact result to the nearest value of 53
-- significant bits, ties to even. Infinities, NaN and the sign of zero are not modelled: the
-- program's quotients are guarded against zero and its values stay far below 2^1023.
use mirops.Prelude.{
  ℕ, zero, suc, ◌+◌, ◌-◌, ◌*◌, ◌/◌, ◌%◌, ◌^◌, ◌≡◌, refl, Bool, true, false, ltb, eqb, if◌then◌else◌,
  String,
}
use mirops.Prelude.Int.{ℤ, pos, negsuc, ◌+ℤ◌, ◌-ℤ◌, ltb_ℤ}
use mirops.Prelude.Text.{decimal}

-- The value is `units` times 2^-1074.
pub record Float64 : Type 0 where
  pub units : ℤ

-- 2^1074, the number of units in 1.
unfoldable pub one_units : ℕ
one_units = 2 ^ 1074

bit_length_fuel : ℕ → ℕ → ℕ
bit_length_fuel zero n = 0
bit_length_fuel (suc f) n =
    let rest = suc (bit_length_fuel f (n / 2)) in if eqb n 0 then 0 else rest

-- The number of binary digits; a number has at most as many as its value.
unfoldable pub bit_length : ℕ → ℕ
unfolding bit_length_fuel
bit_length n = bit_length_fuel n n

-- p / q to the nearest whole number, ties to even.
unfoldable pub nearest : ℕ → ℕ → ℕ
nearest p q =
    let t = p / q in
    let twice_rest = 2 * (p % q) in
    if ltb twice_rest q
    then t
    else if ltb q twice_rest
    then t + 1
    else if eqb (t % 2) 0
    then t
    else t + 1

-- p / q units, to the nearest number of units that has at most 53 significant bits.
unfoldable pub round_units : ℕ → ℕ → ℕ
unfolding bit_length nearest
round_units p q = let ulp = 2 ^ (bit_length (p / q) - 53) in nearest p (q * ulp) * ulp

-- A sign and a magnitude of units.
abbrev signed : Bool → ℕ → ℤ
signed negative zero = pos 0
signed true (suc n) = negsuc n
signed false (suc n) = pos (suc n)

abbrev is_negative : ℤ → Bool
is_negative (pos n) = false
is_negative (negsuc n) = true

abbrev magnitude : ℤ → ℕ
magnitude (pos n) = n
magnitude (negsuc n) = suc n

abbrev differ : Bool → Bool → Bool
differ true b = if b then false else true
differ false b = b

round : ℤ → Float64
unfolding round_units
round z = record { units = signed (is_negative z) (round_units (magnitude z) 1) }

-- `float64(n)`
unfoldable pub of_ℕ : ℕ → Float64
unfolding round_units one_units
of_ℕ n = record { units = pos (round_units (n * one_units) 1) }

unfoldable pub of_ℤ : ℤ → Float64
unfolding round one_units
of_ℤ z = round (signed (is_negative z) (magnitude z * one_units))

-- The constant p / q of the source text.
unfoldable pub of_ratio : ℕ → ℕ → Float64
unfolding round_units one_units
of_ratio p q = record { units = pos (round_units (p * one_units) q) }

infixl 65 ◌+F◌ ◌-F◌
infixl 70 ◌*F◌ ◌/F◌
unfoldable pub ◌+F◌ : Float64 → Float64 → Float64
unfolding round
a +F b = round (a.units +ℤ b.units)

unfoldable pub ◌-F◌ : Float64 → Float64 → Float64
unfolding round
a -F b = round (a.units -ℤ b.units)

unfoldable pub ◌*F◌ : Float64 → Float64 → Float64
unfolding round_units one_units
a *F b = record {
  units =
      signed (differ (is_negative a.units) (is_negative b.units))
        (round_units (magnitude a.units * magnitude b.units) one_units);
}

-- The program divides by values that are not zero.
unfoldable pub ◌/F◌ : Float64 → Float64 → Float64
unfolding round_units one_units
a /F b = record {
  units =
      signed (differ (is_negative a.units) (is_negative b.units))
        (round_units (magnitude a.units * one_units) (magnitude b.units));
}

abbrev pub ltb_F : Float64 → Float64 → Bool
ltb_F a b = ltb_ℤ a.units b.units

unfoldable pub is_zero : Float64 → Bool
is_zero a = eqb (magnitude a.units) 0

-- `int(x)`, which cuts the fraction off.
unfoldable pub truncate : Float64 → ℤ
unfolding one_units
truncate a = signed (is_negative a.units) (magnitude a.units / one_units)

pow_fuel : ℕ → Float64 → Float64 → ℕ → Float64
unfolding ◌*F◌
pow_fuel zero acc x n = acc
pow_fuel (suc f) acc x n =
    let rest = pow_fuel f (if eqb (n % 2) 1 then acc *F x else acc) (x *F x) (n / 2) in
    if eqb n 0 then acc else rest

-- `math.Pow(x, n)` at a whole number: squarings and products, in the order of the library's loop.
-- A number has at most as many bits as its value.
unfoldable pub pow : Float64 → ℕ → Float64
unfolding pow_fuel of_ℕ
pow x n = pow_fuel n (of_ℕ 1) x n

-- `%.0f` of a value that is not negative.
unfoldable pub format0 : Float64 → String
unfolding decimal nearest one_units
format0 a = decimal (nearest (magnitude a.units) one_units)

half_of_three : truncate (of_ℕ 3 /F of_ℕ 2) ≡ pos 1
unfolding ◌/F◌ of_ℕ truncate
half_of_three = refl

-- 0.1 + 0.2 is 0.30000000000000004.
tenths : (of_ratio 1 10 +F of_ratio 2 10) ≡ of_ratio 30000000000000004 100000000000000000
unfolding of_ratio ◌+F◌
tenths = refl
