-- ===== src/Services/Blockchain/Fees.antt =====
-- `estimate_withdrawal_fee` of services/transactions/blockchain.rs: what a blockchain asks for a
-- withdrawal, from the fee that the user pays.
use transactions.Prelude.{ℕ, if◌then◌else◌, ltb, ◌==◌}
use transactions.Exec.{Exec, pure, ok_or, as_internal, ◌>>=◌, ErrorKind, balance_overflow}
use transactions.Float.{Floats}
use transactions.Models.{Currency, btc, eth, stq, currency_eq}
use transactions.Models.Records.{Amount}
use transactions.Models.Sending.{RateInput, Role}
use transactions.Amount.{checked_div}
use transactions.Amount.Conversion.{convert}
use transactions.Repos.{Db}
use transactions.Services.Blockchain.{FeeEstimate}
use transactions.Services.Clients.{Clients, ask, from_exchange_kind}

-- `config.fees_options`, its whole numbers read as `u128`.
pub record FeesOptions (F64 : Type 0) : Type 0 where
  pub btc_transaction_size : ℕ
  pub eth_gas_limit : ℕ
  pub stq_gas_limit : ℕ
  pub fee_upside : F64

unfoldable pub estimate_currency : Currency → Currency
estimate_currency btc = btc
estimate_currency eth = eth
estimate_currency stq = eth

unfoldable pub base_size : {F64 : Type 0} → FeesOptions F64 → Currency → ℕ
base_size options btc = options.btc_transaction_size
base_size options eth = options.eth_gas_limit
base_size options stq = options.stq_gas_limit

module _ (f : Floats) where
  -- Below 1000 the price is the quotient in `f64`.
  unfoldable pub fee_price_of : Amount → ℕ → Amount → f.F64
  fee_price_of total base fee_price_int =
      if ltb fee_price_int 1000
      then f.over (f.of_u128 total) (f.of_u128 base)
      else f.of_u128 fee_price_int

  module _ (clients : Clients f) (options : FeesOptions f.F64) where
    -- The blockchain's part of the fee, in the currency that the blockchain is paid in.
    unfoldable pub in_estimate_currency : Amount → Currency → Currency → Exec Db Amount
    in_estimate_currency total from to db =
        if from == to
        then pure total db
        else (let input : RateInput = record {
          id = clients.generate_exchange_id db.now;
          from = from;
          to = to;
          amount = total;
          amount_currency = from;
        } in
            (do
              rate ← as_internal (ask from_exchange_kind (clients.rate input Role.system))
              pure (convert f total from to rate))
              db)

    unfoldable pub estimate_withdrawal_fee :
        Amount → Currency → Currency → Exec Db (FeeEstimate f.F64)
    estimate_withdrawal_fee input_gross_fee input_fee_currency withdrawal_currency = do
      native ←
          ok_or balance_overflow ErrorKind.internal
            (checked_div input_gross_fee (f.to_u128 options.fee_upside))
      total ← in_estimate_currency native input_fee_currency (estimate_currency withdrawal_currency)
      fee_price_int ←
          ok_or balance_overflow ErrorKind.internal
            (checked_div total (base_size options withdrawal_currency))
      pure (record {
        gross_fee = total;
        fee_price = fee_price_of total (base_size options withdrawal_currency) fee_price_int;
        currency = estimate_currency withdrawal_currency;
      })
