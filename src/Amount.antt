-- ===== src/Amount.antt =====
-- Monetary amounts (models/amount.rs): `u128` with checked operations. A sum of a list of amounts,
-- as the repositories and services fold it, is `checked_sum`.
pub mod Numeric
pub mod RoundTrip
pub mod Termination
pub mod Conversion
use transactions.Prelude.{
  ℕ, ◌+◌, ◌-◌, ◌*◌, ◌/◌, ◌^◌, ◌<◌, ◌≡◌, Option, none, some, List, [], ◌∷◌, arith, ltb, leb, ◌==◌,
  nat_eq, if◌then◌else◌, sum_by,
}
use transactions.Models.Records.{Amount}

-- One more than `u128::max_value()`.
abbrev pub u128_mod : ℕ
u128_mod = 2 ^ 128

-- `Amount::checked_add`
unfoldable pub checked_add : Amount → Amount → Option Amount
checked_add a b = if ltb (a + b) u128_mod then some (a + b) else none

-- `Amount::checked_sub`
unfoldable pub checked_sub : Amount → Amount → Option Amount
checked_sub a b = if leb b a then some (a - b) else none

-- `Amount::checked_mul`
unfoldable pub checked_mul : Amount → Amount → Option Amount
checked_mul a b = if ltb (a * b) u128_mod then some (a * b) else none

-- `Amount::checked_div`
unfoldable pub checked_div : Amount → Amount → Option Amount
checked_div a b = if b == 0 then none else some (a / b)

-- `and_then(|a| a.checked_add(v))`
unfoldable pub add_to : Option Amount → Amount → Option Amount
unfolding checked_add
add_to none v = none
add_to (some a) v = checked_add a v

module _ {A : Type 0} (f : A → Amount) where
  -- `fold(acc, |acc, elem| acc.and_then(|a| a.checked_add(elem.value)))`
  unfoldable pub checked_sum_from : Option Amount → List A → Option Amount
  unfolding add_to
  checked_sum_from acc [] = acc
  checked_sum_from acc (x ∷ xs) = checked_sum_from (add_to acc (f x)) xs

  unfoldable pub checked_sum : List A → Option Amount
  unfolding checked_sum_from
  checked_sum xs = checked_sum_from (some 0) xs

  checked_sum_from-none : (xs : List A) → checked_sum_from none xs ≡ none
  unfolding checked_sum_from
  checked_sum_from-none [] = ground arith
  checked_sum_from-none (x ∷ xs) = checked_sum_from-none xs

  pub checked_sum_from_lem :
      (acc : ℕ) (xs : List A)
      → acc < u128_mod
      → checked_sum_from (some acc) xs
        ≡ (if ltb (acc + sum_by f xs) u128_mod then some (acc + sum_by f xs) else none)
  unfolding checked_sum_from
  checked_sum_from_lem acc [] h = ground arith
  checked_sum_from_lem acc (x ∷ xs) h =
      ground (arith, checked_sum_from-none xs, checked_sum_from_lem (acc + f x) xs)

  -- The checked sum is the sum where that fits, and fails where it does not.
  pub checked_sum_lem :
      (xs : List A)
      → checked_sum xs ≡ (if ltb (sum_by f xs) u128_mod then some (sum_by f xs) else none)
  unfolding checked_sum
  checked_sum_lem xs = ground (arith, checked_sum_from_lem 0 xs)
