-- ===== src/Amount/Numeric.antt =====
-- PostgreSQL's `NUMERIC` for amounts (models/amount.rs): digits in base 10000, big-endian, with the
-- weight of the first one. The digits of a number on the wire are not negative.
use mathlib.Core.List.{reverse}
use transactions.Prelude.{
  ℕ, zero, suc, ◌+◌, ◌-◌, ◌*◌, ◌/◌, ◌%◌, ◌^◌, Option, none, some, List, [], ◌∷◌, ltb, ◌==◌, nat_eq,
  if◌then◌else◌, length, and_then,
}
use transactions.Amount.{u128_mod, checked_mul, checked_add}
use transactions.Models.Records.{Amount}

-- A weight is an `i16`: the second constructor stands for the negative ones, -(n + 1).
pub data Weight : Type 0 where
  nonneg : ℕ → Weight
  negative : ℕ → Weight

-- `PgNumeric` of diesel.
pub data PgNumeric : Type 0 where
  positive : Weight → ℕ → List ℕ → PgNumeric
  negative : Weight → ℕ → List ℕ → PgNumeric
  nan : PgNumeric

pub data NumericError : Type 0 where
  is_negative is_nan nonzero_scale negative_weight : NumericError
  digits_overflow negative_correction correction_overflow : NumericError

pub data Decoded : Type 0 where
  decoded : Amount → Decoded
  refused : NumericError → Decoded

-- One round of the loop over the digits: `result * 10000 + digit`, both steps checked.
unfoldable pub push_digit : Amount → ℕ → Option Amount
unfolding checked_mul checked_add
push_digit result d = and_then (checked_mul result 10000) (λ shifted. checked_add shifted d)

unfoldable pub decode_digits : Amount → List ℕ → Option Amount
unfolding push_digit
decode_digits result [] = some result
decode_digits result (d ∷ ds) = and_then (push_digit result d) (λ r. decode_digits r ds)

-- `10u128.pow(e)`, which wraps in a release build.
unfoldable pub pow10 : ℕ → ℕ
pow10 e = 10 ^ e % u128_mod

-- The correction phase, for a correction exponent that is not negative.
unfoldable pub correct : Amount → ℕ → Decoded
unfolding pow10
correct result e =
    if ltb (result * pow10 e) u128_mod
    then decoded (result * pow10 e)
    else refused correction_overflow

-- From the digits phase on: the exponent is `4 * (weight - digits.len() + 1)`.
unfoldable pub decode_from : ℕ → List ℕ → Option Amount → Decoded
decode_from weight digits none = refused digits_overflow
decode_from weight digits (some result) =
    if ltb (weight + 1) (length digits)
    then refused negative_correction
    else correct result (4 * (weight + 1 - length digits))

-- `pg_decimal_to_u128`
unfoldable pub pg_decimal_to_u128 : PgNumeric → Decoded
pg_decimal_to_u128 (PgNumeric.negative w s ds) = refused is_negative
pg_decimal_to_u128 nan = refused is_nan
pg_decimal_to_u128 (positive (Weight.negative n) scale digits) =
    if scale == 0 then refused negative_weight else refused nonzero_scale
pg_decimal_to_u128 (positive (nonneg weight) scale digits) =
    if scale == 0 then decode_from weight digits (decode_digits 0 digits) else refused nonzero_scale

-- `ToBase10000`, little-endian, on fuel: ten digits hold every `u128`.
unfoldable pub to_base10000 : ℕ → ℕ → List ℕ
to_base10000 zero v = []
to_base10000 (suc fuel) v =
    let rest = to_base10000 fuel (v / 10000) in
    if v / 10000 == 0 then (v % 10000) ∷ [] else (v % 10000) ∷ rest

-- `skip_while(|digit| *digit == 0)`
unfoldable pub skip_zeros : List ℕ → List ℕ
skip_zeros [] = []
skip_zeros (d ∷ ds) = let rest = skip_zeros ds in if d == 0 then rest else d ∷ ds

-- `u128_to_pg_decimal`
unfoldable pub u128_to_pg_decimal : Amount → PgNumeric
u128_to_pg_decimal value =
    let digits = to_base10000 10 value in
    positive (nonneg (length digits - 1)) 0 (reverse (skip_zeros digits))
