-- ===== src/Services/Fetcher/Confirmations.antt =====
-- How many confirmations a withdrawal waits for (services/rabbit.rs): the number of the thresholds
-- that its value in dollars is above.
use transactions.Prelude.{
  ℕ, ◌+◌, ◌-◌, ◌*◌, ◌/◌, ◌%◌, ◌^◌, ◌≤◌, ◌≡◌, refl, Bool, Option, none, some, List, [], ◌∷◌, arith,
  inl, inr, leb, ltb, if◌then◌else◌, length, filter, Bool-cases,
}
use transactions.Float.{Floats}
use transactions.Models.{Currency, btc, eth, stq}
use transactions.Models.Records.{Amount}
use transactions.Amount.{u128_mod}

abbrev btc_confirm_thresholds : List ℕ
btc_confirm_thresholds = 100 ∷ 500 ∷ 1000 ∷ []

abbrev eth_confirm_thresholds : List ℕ
eth_confirm_thresholds = 20 ∷ 50 ∷ 200 ∷ 500 ∷ 1000 ∷ 2000 ∷ 3000 ∷ 4000 ∷ 5000 ∷ []

unfoldable pub thresholds_of : Currency → List ℕ
thresholds_of btc = btc_confirm_thresholds
thresholds_of eth = eth_confirm_thresholds
thresholds_of stq = eth_confirm_thresholds

unfoldable pub decimals_of : Currency → ℕ
decimals_of btc = 100_000_000
decimals_of eth = 1_000_000_000_000_000_000
decimals_of stq = 1_000_000_000_000_000_000

-- The loop with its `break`: the place of the first threshold that reaches the value.
unfoldable pub first_reaching : ℕ → ℕ → List ℕ → Option ℕ
first_reaching usd_value i [] = none
first_reaching usd_value i (threshold ∷ rest) =
    let later = first_reaching usd_value (i + 1) rest in
    if leb usd_value threshold then some i else later

unfoldable pub confirmations_for : List ℕ → ℕ → ℕ
unfolding first_reaching
confirmations_for thresholds usd_value = elim (first_reaching usd_value 0 thresholds) [
  | none ↦ length thresholds
  | some i ↦ i
]

module _ (f : Floats) where
  open f use {F64, of_u128, to_u128, times, over, literal}

  unfoldable pub usd_rate : Currency → F64
  usd_rate btc = literal 6500 0
  usd_rate eth = literal 200 0
  usd_rate stq = literal 25 4

  -- `usd_value as u64` is the number that `to_u128` gives, at most `u64::max_value()`. The product of
  -- two `u128` wraps in a release build.
  unfoldable pub to_usd_approx : Currency → Amount → ℕ
  unfolding usd_rate decimals_of
  to_usd_approx currency value =
      let crypto_value_times_rate = value * 6500 % u128_mod / decimals_of currency in
      let usd = over (times (of_u128 crypto_value_times_rate) (usd_rate currency)) (of_u128 6500) in
      if ltb (to_u128 usd) (2 ^ 64) then to_u128 usd else 2 ^ 64 - 1

  unfoldable pub required_confirmations : Currency → Amount → ℕ
  required_confirmations currency value =
      confirmations_for (thresholds_of currency) (to_usd_approx currency value)

-- The thresholds stand in ascending order.
abbrev Ascending : ℕ → List ℕ → Type 0
Ascending from [] = Unit
Ascending from (t ∷ ts) = (from ≤ t) × Ascending t ts

above_none :
    (usd from : ℕ) (ts : List ℕ)
    → usd ≤ from
    → Ascending from ts
    → length (filter (λ t. ltb t usd) ts) ≡ 0
above_none usd from [] h k = refl
above_none usd from (t ∷ ts) h (le, k) = ground (arith, above_none usd t ts)

first_reaching_lem :
    (usd i from : ℕ) (ts : List ℕ)
    → Ascending from ts
    → elim (first_reaching usd i ts) [ none ↦ i + length ts | some j ↦ j ]
      ≡ i + length (filter (λ t. ltb t usd) ts)
unfolding first_reaching
first_reaching_lem usd i from [] h = omega arith
first_reaching_lem usd i from (t ∷ ts) (le, h) = elim (Bool-cases (leb usd t)) [
  | inl e ↦ ground (arith, above_none usd t ts)
  | inr e ↦ ground (arith, first_reaching_lem usd (i + 1) t ts)
]

length-filter : (p : ℕ → Bool) (ts : List ℕ) → length (filter p ts) ≤ length ts
length-filter p [] = omega arith
length-filter p (t ∷ ts) = ground (arith, length-filter p ts)

confirmations_for_count :
    (ts : List ℕ) (usd : ℕ)
    → Ascending 0 ts
    → confirmations_for ts usd ≡ length (filter (λ t. ltb t usd) ts)
unfolding confirmations_for
confirmations_for_count ts usd h =
    elim (first_reaching usd 0 ts)
        as (λ o.
          elim o [ none ↦ 0 + length ts | some j ↦ j ] ≡ 0 + length (filter (λ t. ltb t usd) ts)
          → elim o [ none ↦ length ts | some i ↦ i ] ≡ length (filter (λ t. ltb t usd) ts)) [
            | none ↦ λ e. omega arith
            | some j ↦ λ e. omega arith
          ]
      (first_reaching_lem usd 0 0 ts h)

thresholds-Ascending : (c : Currency) → Ascending 0 (thresholds_of c)
unfolding thresholds_of
thresholds-Ascending btc = omega arith
thresholds-Ascending eth = omega arith
thresholds-Ascending stq = omega arith

-- A withdrawal of a value waits for as many confirmations as there are thresholds of its currency, in
-- the table of the code, below the value in dollars, so for no more than there are thresholds. (The
-- readme has another table for ETH, with up to 12 confirmations.)
pub required_confirmations_count :
    (f : Floats) (c : Currency) (value : Amount)
    → (required_confirmations f c value
        ≡ length (filter (λ t. ltb t (to_usd_approx f c value)) (thresholds_of c)))
      × (required_confirmations f c value ≤ length (thresholds_of c))
unfolding required_confirmations
required_confirmations_count f c value =
    let usd = to_usd_approx f c value in
    let e = confirmations_for_count (thresholds_of c) usd (thresholds-Ascending c) in
    (e, rw e (length-filter (λ t. ltb t usd) (thresholds_of c)))
