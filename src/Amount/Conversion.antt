-- ===== src/Amount/Conversion.antt =====
-- `Amount::convert` and `Amount::to_super_unit` (models/amount.rs).
use transactions.Prelude.{ℕ, ◌*◌, ◌/◌, ◌%◌, ◌^◌, if◌then◌else◌}
use transactions.Float.{Floats}
use transactions.Models.{Currency, btc, eth, stq}
use transactions.Models.Records.{Amount}
use transactions.Amount.{u128_mod}

-- `10u128.pow(divisor_exp)`: six digits after the point are kept.
unfoldable pub divisor : Currency → ℕ
divisor btc = 10 ^ 2
divisor eth = 10 ^ 12
divisor stq = 10 ^ 12

module _ (f : Floats) where
  open f use {F64, of_u128, to_u128, times, over, lt, powi10, powi10_neg, literal}

  unfoldable pub satoshi_wei_factor : Currency → Currency → F64
  satoshi_wei_factor btc btc = literal 1 0
  satoshi_wei_factor btc eth = powi10 10
  satoshi_wei_factor btc stq = powi10 10
  satoshi_wei_factor eth btc = powi10_neg 10
  satoshi_wei_factor eth eth = literal 1 0
  satoshi_wei_factor eth stq = literal 1 0
  satoshi_wei_factor stq btc = powi10_neg 10
  satoshi_wei_factor stq eth = literal 1 0
  satoshi_wei_factor stq stq = literal 1 0

  -- The product of two `u128` wraps in a release build.
  unfoldable pub convert : Amount → Currency → Currency → F64 → Amount
  unfolding divisor satoshi_wei_factor
  convert value from_currency to_currency rate =
      let amount = value / divisor from_currency in
      let converted =
        times (times (of_u128 amount) rate) (satoshi_wei_factor from_currency to_currency) in
      if lt converted (literal 10_000 0)
      then to_u128 (times converted (of_u128 (divisor from_currency)))
      else to_u128 converted * divisor from_currency % u128_mod

  unfoldable pub to_super_unit : Amount → Currency → F64
  unfolding divisor
  to_super_unit value current_currency =
      over (of_u128 (value / divisor current_currency)) (of_u128 (10 ^ 6))
