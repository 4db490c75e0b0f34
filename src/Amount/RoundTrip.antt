-- ===== src/Amount/RoundTrip.antt =====
-- Writing an amount as a `NUMERIC` and reading it back (models/amount.rs).
use mathlib.Core.List.{reverse, reverse-append}
use native.Mathlib.Nat.{pow-suc}
use transactions.Prelude.{
  ℕ, zero, suc, ◌+◌, ◌-◌, ◌*◌, ◌/◌, ◌^◌, ◌≤◌, ◌<◌, ◌≡◌, ◌≢◌, refl, Option, none, some, List, [],
  ◌∷◌, ◌++◌, arith, ltb, ◌==◌, nat_eq, if◌then◌else◌, length, length-append, and_then,
}
use transactions.Amount.{u128_mod, checked_mul, checked_add}
use transactions.Models.Records.{Amount}
use transactions.Amount.Numeric.{
  decoded, positive, nonneg, push_digit, decode_digits, pow10, correct, decode_from,
  pg_decimal_to_u128, to_base10000, skip_zeros, u128_to_pg_decimal,
}

-- The number that little-endian digits stand for.
abbrev digits_value : List ℕ → ℕ
digits_value [] = 0
digits_value (d ∷ ds) = d + 10000 * digits_value ds

to_base10000_value : (fuel v : ℕ) → v < 10000 ^ fuel → digits_value (to_base10000 fuel v) ≡ v
unfolding to_base10000
to_base10000_value zero v h = omega arith
to_base10000_value (suc fuel) v h =
    let below : v < 10000 * 10000 ^ fuel = omega (arith, pow-suc 10000 fuel) in
    ground (arith, to_base10000_value fuel (v / 10000) (omega arith))

push_digit_lem :
    (r d : ℕ)
    → push_digit r d ≡ (if ltb (d + 10000 * r) u128_mod then some (d + 10000 * r) else none)
unfolding push_digit checked_mul checked_add
push_digit_lem r d = ground arith

and_then_through :
    (f g k : ℕ → Option Amount) (o : Option Amount)
    → ((r : ℕ) → f r ≡ and_then (g r) k)
    → and_then o f ≡ and_then (and_then o g) k
and_then_through f g k none h = refl
and_then_through f g k (some r) h = h r

decode_digits-append :
    (acc d : ℕ) (xs : List ℕ)
    → decode_digits acc (xs ++ d ∷ []) ≡ and_then (decode_digits acc xs) (λ r. push_digit r d)
unfolding decode_digits
decode_digits-append acc d [] = ground arith
decode_digits-append acc d (x ∷ xs) =
    and_then_through _ _ (λ r. push_digit r d) (push_digit acc x) (λ r. decode_digits-append r d xs)

-- Reading the digits back gives the number, where it fits.
decode_digits-reverse :
    (ds : List ℕ)
    → decode_digits 0 (reverse ds)
      ≡ (if ltb (digits_value ds) u128_mod then some (digits_value ds) else none)
unfolding decode_digits
decode_digits-reverse [] = refl
decode_digits-reverse (d ∷ ds) = rw (reverse-append (d ∷ []) ds) (
    ground (
      arith,
      decode_digits-append 0 d (reverse ds),
      decode_digits-reverse ds,
      push_digit_lem (digits_value ds) d,
    ))

-- How many zeros `skip_zeros` drops.
zeros : List ℕ → ℕ
zeros [] = 0
zeros (d ∷ ds) = let rest = zeros ds in if d == 0 then suc rest else 0

skip_zeros_value : (ds : List ℕ) → digits_value ds ≡ 10000 ^ zeros ds * digits_value (skip_zeros ds)
unfolding skip_zeros zeros
skip_zeros_value [] = refl
skip_zeros_value (zero ∷ ds) =
    let e : zeros (zero ∷ ds) ≡ suc (zeros ds) = refl in
    let e' : skip_zeros (zero ∷ ds) ≡ skip_zeros ds = refl in
    rw (e, e', skip_zeros_value ds, pow-suc) (omega arith)
skip_zeros_value (suc d ∷ ds) =
    let e : zeros (suc d ∷ ds) ≡ 0 = ground arith in
    let e' : skip_zeros (suc d ∷ ds) ≡ suc d ∷ ds = ground arith in rw (e, e') (omega arith)

length-skip_zeros : (ds : List ℕ) → zeros ds + length (skip_zeros ds) ≡ length ds
unfolding skip_zeros zeros
length-skip_zeros [] = refl
length-skip_zeros (d ∷ ds) = ground (arith, length-skip_zeros ds)

pow10_lem : (k : ℕ) → 10 ^ (4 * k) ≡ 10000 ^ k
pow10_lem zero = refl
pow10_lem (suc k) =
    let four : 4 * suc k ≡ suc (suc (suc (suc (4 * k)))) = omega arith in
    rw four (simp (pow-suc, pow10_lem k) (omega arith))

pow10-zeros : (k : ℕ) → 10000 ^ k < u128_mod → pow10 (4 * k) ≡ 10000 ^ k
unfolding pow10
pow10-zeros k h = rw pow10_lem (omega (arith, h))

-- A factor of a number below the modulus is below it.
factor-lt : (p v : ℕ) → p * v < u128_mod → v ≢ 0 → p < u128_mod
factor-lt p v h ne = grind arith

correct_zeros : (k v : ℕ) → 10000 ^ k * v < u128_mod → correct v (4 * k) ≡ decoded (10000 ^ k * v)
unfolding correct
correct_zeros k zero h = ground arith
correct_zeros k (suc v) h =
    ground (arith, pow10-zeros k (factor-lt (10000 ^ k) (suc v) h (omega arith)))

length-reverse : (ds : List ℕ) → length (reverse ds) ≡ length ds
length-reverse [] = refl
length-reverse (d ∷ ds) =
    rw (reverse-append (d ∷ []) ds)
      (omega (arith, length-append (reverse ds) (d ∷ []), length-reverse ds))

one-le-pow : (k : ℕ) → 1 ≤ 10000 ^ k
one-le-pow zero = omega arith
one-le-pow (suc k) = omega (arith, pow-suc 10000 k, one-le-pow k)

le-product : (p v : ℕ) → 1 ≤ p → v ≤ p * v
le-product p v h = grind arith

-- Digits with their trailing zeros dropped are read as the number that all of them stand for.
decode_stripped :
    (ds : List ℕ)
    → 0 < length ds
    → digits_value ds < u128_mod
    → pg_decimal_to_u128 (positive (nonneg (length ds - 1)) 0 (reverse (skip_zeros ds)))
      ≡ decoded (digits_value ds)
unfolding pg_decimal_to_u128 decode_from
decode_stripped ds h fits =
    let e = skip_zeros_value ds in
    let small =
      le-product (10000 ^ zeros ds) (digits_value (skip_zeros ds)) (one-le-pow (zeros ds)) in
    let exponent : length ds - 1 + 1 - length (reverse (skip_zeros ds)) ≡ zeros ds =
      omega (arith, length-skip_zeros ds, length-reverse (skip_zeros ds)) in
    ground (
      arith,
      e,
      exponent,
      length-skip_zeros ds,
      length-reverse (skip_zeros ds),
      decode_digits-reverse (skip_zeros ds),
      correct_zeros (zeros ds) (digits_value (skip_zeros ds)),
    )

length-to_base10000 : (fuel v : ℕ) → 0 < fuel → 0 < length (to_base10000 fuel v)
unfolding to_base10000
length-to_base10000 zero v h = h
length-to_base10000 (suc fuel) v h = ground arith

-- Every `u128` written as a `NUMERIC` is read back as itself.
pub pg_decimal_to_u128-u128_to_pg_decimal :
    (v : ℕ) → v < u128_mod → pg_decimal_to_u128 (u128_to_pg_decimal v) ≡ decoded v
unfolding u128_to_pg_decimal
pg_decimal_to_u128-u128_to_pg_decimal v h =
    let e = to_base10000_value 10 v (omega arith) in
    rw e at (decode_stripped (to_base10000 10 v) (length-to_base10000 10 v (omega arith)) (rw e h))
